-- ===== src/Background/History.antt =====
-- packages/agent-runtime/src/runtime/background-task-manager.ts: whole histories of the manager. A step
-- is a call on a task, the settlement of a run, or the scheduler's own wake-up after a failed launch; a
-- recovery may come at any time. Each step has its own answer of the runtime to the runs that it starts.
use ai_desktop.Base.{ℕ, ◌≡◌, ◌∙◌, true, Option, some, List, [], Text, arith}
use ai_desktop.Base.Dict
use ai_desktop.Background.Task.{BackgroundTaskErrorCode, BackgroundTaskInput, BackgroundTaskRecord}
use ai_desktop.Background.Manager.{
  BackgroundEntry, BackgroundTaskManager, RunTaskInput, is_terminal, active_count,
  active_count_for_project, schedule,
}
use ai_desktop.Background.Manager.Progress.{
  Good, Good-refl, Caps, Evolved, Reaches-terminal, Reaches-trans,
}
use ai_desktop.Background.Manager.Launch.{schedule-Good}
use ai_desktop.Background.Lookup.{Unknown, Answer, err}
use ai_desktop.Background.Lookup.Sound.{Sound}
use ai_desktop.Background.Operations.{
  pause, resume, cancel, respond_input, notify_permission_waiting, notify_permission_resolved,
}
use ai_desktop.Background.Operations.Moves.{
  pause-Sound, resume-Sound, respond_input-Sound, notify_permission_waiting-Sound,
  notify_permission_resolved-Sound,
}
use ai_desktop.Background.Operations.Cancel.{cancel-Sound}
use ai_desktop.Background.Recovery.{recover}
use ai_desktop.Background.Recovery.Restored.{recover-Restoring}
use ai_desktop.Background.Start.{TaskIds, start}
use ai_desktop.Background.Start.Admission.{start-Sound}
use ai_desktop.Background.Settlement.{
  AgentTaskResult, handle_runtime_settled, handle_runtime_rejected,
}
use ai_desktop.Background.Settlement.Moves.{
  handle_runtime_settled-Good, handle_runtime_rejected-Good,
}

-- The manager's public calls that may change it, but for `recover`.
pub data Call : Type 0 where
  starts : TaskIds → BackgroundTaskInput → Call
  pauses resumes : Unknown → Text → Call
  cancels : Unknown → Text → Option Unknown → Call
  responds : Unknown → Text → Unknown → Call
  parks unparks : Unknown → Text → Option Unknown → Call

unfoldable pub new_manager : (max_tasks max_per_project max_queue : ℕ) → BackgroundTaskManager
new_manager t p q = record {
  entries = [];
  max_tasks = t;
  max_per_project = p;
  max_queue = q;
  effects = [];
}

module _ (runtime_throws : RunTaskInput → Option Text) where
  unfoldable pub call : Call → Text → BackgroundTaskManager → Answer
  call (starts ids input) now m = start runtime_throws ids now input m
  call (pauses id p) now m = pause runtime_throws id p now m
  call (resumes id p) now m = resume runtime_throws id p now m
  call (cancels id p reason) now m = cancel runtime_throws id p reason now m
  call (responds id p response) now m = respond_input id p response now m
  call (parks id p detail) now m = notify_permission_waiting id p detail now m
  call (unparks id p detail) now m = notify_permission_resolved id p detail now m

  call-Sound : (c : Call) (now : Text) (m : BackgroundTaskManager) → Sound m (call c now m)
  unfolding call
  call-Sound (starts ids input) now m = start-Sound runtime_throws ids now input m
  call-Sound (pauses id p) now m = pause-Sound runtime_throws id p now m
  call-Sound (resumes id p) now m = resume-Sound runtime_throws id p now m
  call-Sound (cancels id p reason) now m = cancel-Sound runtime_throws id p reason now m
  call-Sound (responds id p response) now m = respond_input-Sound id p response now m
  call-Sound (parks id p detail) now m = notify_permission_waiting-Sound id p detail now m
  call-Sound (unparks id p detail) now m = notify_permission_resolved-Sound id p detail now m

  -- A call that answers with an error leaves the manager as it was: no entry, no event, no record kept.
  pub call-error :
      (c : Call) (now : Text) (m : BackgroundTaskManager) (code : BackgroundTaskErrorCode)
      → (call c now m).0 ≡ err code
      → (call c now m).1 ≡ m
  call-error c now m code h = (call-Sound c now m).unchanged code h

-- `none` is a run that starts.
abbrev pub Runtime : Type 0
Runtime = RunTaskInput → Option Text

pub data Step (m : BackgroundTaskManager) : BackgroundTaskManager → Type 0 where
  calls :
      (runtime_throws : Runtime) (c : Call) (now : Text) → Step m ((call runtime_throws c now m).1)
  settles :
      (runtime_throws : Runtime) (r : AgentTaskResult) (now k : Text)
      → Step m (handle_runtime_settled runtime_throws r now k m)
  rejects :
      (runtime_throws : Runtime) (message now k : Text)
      → Step m (handle_runtime_rejected runtime_throws message now k m)
  wakes : (runtime_throws : Runtime) (now : Text) → Step m (schedule runtime_throws now m)

-- The histories whose recoveries leave managers of this kind.
pub data Reached (Recovered : BackgroundTaskManager → Type 0) (m : BackgroundTaskManager)
    : BackgroundTaskManager → Type 0 where
  start_point : Reached Recovered m m
  then_step :
      {n o : BackgroundTaskManager} → Reached Recovered m n → Step n o → Reached Recovered m o
  then_recover :
      {n : BackgroundTaskManager} (now : Text)
      (persisted : Option (List (Option BackgroundTaskRecord)))
      → Reached Recovered m n
      → Recovered (recover now persisted n).1
      → Reached Recovered m ((recover now persisted n).1)

Step-Good : {m n : BackgroundTaskManager} → Step m n → Good m n
Step-Good {m = m} (calls runtime_throws c now) = (call-Sound runtime_throws c now m).moves
Step-Good {m = m} (settles runtime_throws r now k) =
    handle_runtime_settled-Good runtime_throws r now k m
Step-Good {m = m} (rejects runtime_throws message now k) =
    handle_runtime_rejected-Good runtime_throws message now k m
Step-Good {m = m} (wakes runtime_throws now) = schedule-Good runtime_throws now m

Evolved-trans :
    {e : BackgroundEntry} {o : Option BackgroundEntry} (v : Evolved e o)
    {o' : Option BackgroundEntry}
    → Evolved v.after o'
    → Evolved e o'
Evolved-trans v w = record {
  after = w.after;
  present = w.present;
  legal = Reaches-trans v.legal w.legal;
  bound = w.bound ∙ v.bound;
}

-- In every history of a new manager, recoveries included as long as each of them leaves it within the caps,
-- the tasks that hold a slot are at most `maxTasks`, and at most `maxPerProject` of each project.
pub Reached-Caps :
    (max_tasks max_per_project max_queue : ℕ) (m : BackgroundTaskManager)
    → Reached Caps (new_manager max_tasks max_per_project max_queue) m
    → Caps m
unfolding new_manager active_count active_count_for_project
Reached-Caps t p q _ start_point = record { total = omega arith; project = λ x. omega arith }
Reached-Caps t p q m (then_step {n} r s) = (Step-Good s).caps (Reached-Caps t p q n r)
Reached-Caps t p q _ (then_recover now persisted r within) = within

-- Whatever follows, recoveries included, a task stays in the manager and in its project, and its status has
-- moved along legal transitions only.
pub Reached-Evolved :
    (Recovered : BackgroundTaskManager → Type 0) (m n : BackgroundTaskManager) (k : Text)
    (e : BackgroundEntry)
    → Reached Recovered m n
    → Dict.get k m.entries ≡ some e
    → Evolved e (Dict.get k n.entries)
Reached-Evolved P m _ k e start_point h = (Good-refl m).evolves k e h
Reached-Evolved P m o k e (then_step {n} r s) h =
    let v = Reached-Evolved P m n k e r h in
    Evolved-trans v ((Step-Good s).evolves k v.after v.present)
Reached-Evolved P m _ k e (then_recover {n} now persisted r leaves) h =
    let v = Reached-Evolved P m n k e r h in
    record {
      after = v.after;
      present = (recover-Restoring now persisted n).kept k v.after v.present;
      legal = v.legal;
      bound = v.bound;
    }

-- A task that has completed, failed or been cancelled keeps that status.
Reached-terminal :
    (Recovered : BackgroundTaskManager → Type 0) (m n : BackgroundTaskManager) (k : Text)
    (e : BackgroundEntry)
    → Reached Recovered m n
    → Dict.get k m.entries ≡ some e
    → is_terminal e.rec.status ≡ true
    → (x : BackgroundEntry) × (Dict.get k n.entries ≡ some x) × (x.rec.status ≡ e.rec.status)
Reached-terminal P m n k e r h t =
    let v = Reached-Evolved P m n k e r h in (v.after, v.present, Reaches-terminal v.legal t)
