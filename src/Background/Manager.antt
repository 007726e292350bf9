-- ===== src/Background/Manager.antt =====
-- packages/agent-runtime/src/runtime/background-task-manager.ts: the state of the manager, its slots and
-- its scheduler. `now` is the clock as an ISO text. What the manager does to the outside is the list
-- of effects: events (their prose left out), persisted records and calls of the runtime. An operation
-- runs to its end before the next one starts. `runtime_throws` says with which message the runtime
-- refuses to start a run, if it does.
pub mod Progress
pub mod Launch
pub mod Fairness
pub mod Waiting
use ai_desktop.Base.{
  ℕ, ◌+◌, Bool, true, false, ◌&&◌, ◌||◌, Option, none, some, List, [], ◌∷◌, ◌++◌, Text, codes,
  count, leb, if◌then◌else◌, or_else, text_eq,
}
use ai_desktop.Base.Dict
use ai_desktop.Secrets.{has_secrets}
use ai_desktop.Background.Task.{
  BackgroundTaskStatus, BackgroundTaskRecord, BackgroundEventType, is_legal_background_transition,
  same_status, truncate, max_background_error_length,
}

pub record BackgroundEntry : Type 0 where
  pub rec : BackgroundTaskRecord
  pub project_id : Text
  pub aborted : Bool
  pub pause_requested : Bool
  pub cancel_requested : Bool
  pub pending_permission : Bool
  pub pending_input : Bool
  pub model_id : Option Text
  pub system_prompt : Option Text
  pub max_node_iterations : Option ℕ
  pub runtime_task_id : Option Text
  pub settled : Bool

pub record RunTaskInput : Type 0 where
  pub conversation_id : Text
  pub goal : Text
  pub project_id : Text
  pub model_id : Option Text
  pub system_prompt : Option Text
  pub max_node_iterations : Option ℕ

pub data Effect : Type 0 where
  emitted : BackgroundEventType → Text → BackgroundTaskStatus → Effect
  persisted : BackgroundTaskRecord → Effect
  run_task : RunTaskInput → Effect
  cancel_task resume_task : Text → Effect

pub record BackgroundTaskManager : Type 0 where
  pub entries : List (Text × BackgroundEntry)
  pub max_tasks : ℕ
  pub max_per_project : ℕ
  pub max_queue : ℕ
  pub effects : List Effect

-- `ACTIVE_STATUSES`.
abbrev pub is_active : BackgroundTaskStatus → Bool
is_active BackgroundTaskStatus.running = true
is_active BackgroundTaskStatus.waiting_permission = true
is_active BackgroundTaskStatus.waiting_input = true
is_active BackgroundTaskStatus.cancelling = true
is_active _ = false

-- `TERMINAL_STATUSES`.
abbrev pub is_terminal : BackgroundTaskStatus → Bool
is_terminal BackgroundTaskStatus.completed = true
is_terminal BackgroundTaskStatus.failed = true
is_terminal BackgroundTaskStatus.cancelled = true
is_terminal _ = false

abbrev pub is_queued : BackgroundTaskStatus → Bool
is_queued BackgroundTaskStatus.queued = true
is_queued _ = false

abbrev pub holds_slot : BackgroundEntry → Bool
holds_slot e = is_active e.rec.status

abbrev pub holds_slot_of : Text → BackgroundEntry → Bool
holds_slot_of p e = text_eq e.project_id p && is_active e.rec.status

abbrev pub waits_in_queue : BackgroundEntry → Bool
waits_in_queue e = is_queued e.rec.status

unfoldable pub active_count : BackgroundTaskManager → ℕ
active_count m = count holds_slot (Dict.values m.entries)

unfoldable pub active_count_for_project : Text → BackgroundTaskManager → ℕ
active_count_for_project p m = count (holds_slot_of p) (Dict.values m.entries)

unfoldable pub queued_count : BackgroundTaskManager → ℕ
queued_count m = count waits_in_queue (Dict.values m.entries)

unfoldable pub can_launch : Text → BackgroundTaskManager → Bool
can_launch p m =
    if leb m.max_tasks (active_count m)
    then false
    else (if leb m.max_per_project (active_count_for_project p m) then false else true)

unfoldable pub update : Text → BackgroundEntry → BackgroundTaskManager → BackgroundTaskManager
update k e m = record m { entries = Dict.set k e m.entries }

unfoldable pub log : List Effect → BackgroundTaskManager → BackgroundTaskManager
log es m = record m { effects = m.effects ++ es }

-- `_emit` and `_persist` of an entry that was just written.
unfoldable pub commit :
    Text → BackgroundEventType → BackgroundEntry → BackgroundTaskManager → BackgroundTaskManager
unfolding update log
commit k type e m =
    log (Effect.emitted type e.rec.task_id e.rec.status ∷ Effect.persisted e.rec ∷ [])
      (update k e m)

-- `safePersistError` and `safePersistSummary`.
unfoldable pub safe_persist : Text → Text
safe_persist value = if has_secrets value then codes "[redacted: secret-refused]" else value

unfoldable pub launched : Text → BackgroundEntry → BackgroundEntry
launched now e = record e {
  rec = record (e.rec) {
    status = BackgroundTaskStatus.running;
    updated_at = now;
    started_at = some (or_else e.rec.started_at now);
    attempt = e.rec.attempt + 1;
  };
  pause_requested = false;
  settled = false;
  aborted = false;
}

unfoldable pub run_input : BackgroundEntry → RunTaskInput
run_input e = record {
  conversation_id = e.rec.conversation_id;
  goal = e.rec.goal;
  project_id = e.project_id;
  model_id = e.model_id;
  system_prompt = e.system_prompt;
  max_node_iterations = e.max_node_iterations;
}

unfoldable pub failed_entry : Text → Text → BackgroundEntry → BackgroundEntry
failed_entry now message e = record e {
  rec = record (e.rec) {
    status = BackgroundTaskStatus.failed;
    updated_at = now;
    completed_at = some now;
    last_error = some (safe_persist (truncate message max_background_error_length));
  };
  settled = true;
}

-- `_handleLaunchThrow`, up to its first `await`; the `_schedule` behind the awaits is a later call.
unfoldable pub handle_launch_throw :
    Text → Text → Text → BackgroundEntry → BackgroundTaskManager → BackgroundTaskManager
handle_launch_throw now message k e m =
    if e.settled || is_terminal e.rec.status
    then m
    else if same_status e.rec.status BackgroundTaskStatus.paused
    then update k (record e { settled = true }) m
    else (if is_legal_background_transition e.rec.status BackgroundTaskStatus.failed
        then commit k BackgroundEventType.failed (failed_entry now message e) m
        else m)

module _ (runtime_throws : RunTaskInput → Option Text) where
  unfoldable pub launch :
      Text → Text → BackgroundEntry → BackgroundTaskManager → BackgroundTaskManager
  launch now k e m =
      let e' = launched now e in
      let m' =
        log (Effect.run_task (run_input e') ∷ []) (commit k BackgroundEventType.started e' m) in
      elim (runtime_throws (run_input e')) [
        | none ↦ m'
        | some message ↦ handle_launch_throw now message k e' m'
      ]

  -- One round of `_schedule`: the entry is launched if it is queued and there is a slot.
  unfoldable pub try_launch : Text → Text → BackgroundTaskManager → BackgroundTaskManager
  try_launch now k m = elim (Dict.get k m.entries) [
    | none ↦ m
    | some e ↦ if is_queued e.rec.status && can_launch e.project_id m then launch now k e m else m
  ]

  unfoldable pub schedule_loop :
      Text → List (Text × BackgroundEntry) → BackgroundTaskManager → BackgroundTaskManager
  schedule_loop now [] m = m
  schedule_loop now ((k, _) ∷ rest) m = schedule_loop now rest (try_launch now k m)

  -- `_schedule`: oldest first, over a snapshot of the entries.
  unfoldable pub schedule : Text → BackgroundTaskManager → BackgroundTaskManager
  schedule now m = schedule_loop now m.entries m
