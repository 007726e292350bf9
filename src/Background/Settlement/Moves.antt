-- ===== src/Background/Settlement/Moves.antt =====
-- A settled run of background-task-manager.ts moves its task legally, and never wakes a parked one.
use ai_desktop.Base.{
  ◌≡◌, refl, inl, inr, Bool, true, false, not, ◌&&◌, ◌||◌, Option, some, Text, arith, if◌then◌else◌,
  Option-cases,
}
use ai_desktop.Base.Dict
use ai_desktop.Background.Task.{
  BackgroundTaskStatus, BackgroundEventType, is_legal_background_transition, same_status,
}
use ai_desktop.Background.Task.Status.{is_status}
use ai_desktop.Background.Manager.{
  BackgroundEntry, BackgroundTaskManager, RunTaskInput, is_terminal, update, commit, schedule,
}
use ai_desktop.Background.Manager.Progress.{
  Good, Good-refl, Good-trans, Good-if, here, update-Good, commit-Good,
}
use ai_desktop.Background.Manager.Launch.{schedule-Good, no_slot}
use ai_desktop.Background.Operations.Moves.{commit_from}
use ai_desktop.Background.Settlement.{
  AgentTaskResult, completed, failed, cancelled, is_parked, named_run, ended, failed_with,
  completed_with, end_cancelling, end_running, parked, rejected_status, end_rejected, settle_open,
  handle_runtime_settled, reject_open, handle_runtime_rejected,
}

named_run-rec : (r : AgentTaskResult) (e : BackgroundEntry) → (named_run r e).rec ≡ e.rec
unfolding named_run
named_run-rec r e = ground arith

named_run-project_id :
    (r : AgentTaskResult) (e : BackgroundEntry) → (named_run r e).project_id ≡ e.project_id
unfolding named_run
named_run-project_id r e = ground arith

end_cancelling-Good :
    (r : AgentTaskResult) (now k : Text) (e e' : BackgroundEntry) (m : BackgroundTaskManager)
    → Dict.get k m.entries ≡ some e
    → e.rec.status ≡ BackgroundTaskStatus.cancelling
    → e'.project_id ≡ e.project_id
    → Good m (end_cancelling r now k e' m)
unfolding end_cancelling ended failed_with
end_cancelling-Good (completed _ _) now k e e' m h is b =
    commit_from k BackgroundEventType.cancelled e (ended BackgroundTaskStatus.cancelled now e') m
      BackgroundTaskStatus.cancelling h is refl b no_slot
end_cancelling-Good (failed _ error) now k e e' m h is b =
    commit_from k BackgroundEventType.failed e (failed_with error now e') m
      BackgroundTaskStatus.cancelling h is refl b no_slot
end_cancelling-Good (cancelled _ _) now k e e' m h is b =
    commit_from k BackgroundEventType.cancelled e (ended BackgroundTaskStatus.cancelled now e') m
      BackgroundTaskStatus.cancelling h is refl b no_slot

end_running-Good :
    (r : AgentTaskResult) (now k : Text) (e e' : BackgroundEntry) (m : BackgroundTaskManager)
    → Dict.get k m.entries ≡ some e
    → e.rec.status ≡ BackgroundTaskStatus.running
    → e'.project_id ≡ e.project_id
    → Good m (end_running r now k e' m)
unfolding end_running ended failed_with completed_with
end_running-Good (completed _ summary) now k e e' m h is b =
    commit_from k BackgroundEventType.completed e (completed_with summary now e') m
      BackgroundTaskStatus.running h is refl b no_slot
end_running-Good (failed _ error) now k e e' m h is b =
    commit_from k BackgroundEventType.failed e (failed_with error now e') m
      BackgroundTaskStatus.running h is refl b no_slot
end_running-Good (cancelled _ _) now k e e' m h is b =
    commit_from k BackgroundEventType.cancelled e (ended BackgroundTaskStatus.cancelled now e') m
      BackgroundTaskStatus.running h is refl b no_slot

-- A write that keeps the status.
kept-Good :
    (k : Text) (e e' : BackgroundEntry) (m : BackgroundTaskManager)
    → Dict.get k m.entries ≡ some e
    → e'.rec ≡ e.rec
    → e'.project_id ≡ e.project_id
    → Good m (update k e' m)
kept-Good k e e' m h same b = update-Good k e e' m h (rw same here) b (λ x. rw (← same) x)

-- A task that is being cancelled may end either way, so the guard admits legal moves only.
may_reject :
    (s : BackgroundTaskStatus) (asked : Bool)
    → let t = if asked then BackgroundTaskStatus.cancelled else BackgroundTaskStatus.failed in
      not (is_legal_background_transition s t)
          && not (same_status s BackgroundTaskStatus.cancelling)
        ≡ false
      → is_legal_background_transition s t ≡ true
may_reject s true h = ground (arith, is_status s BackgroundTaskStatus.cancelling)
may_reject s false h = ground (arith, is_status s BackgroundTaskStatus.cancelling)

end_rejected-Good :
    (message now k : Text) (e : BackgroundEntry) (m : BackgroundTaskManager)
    → Dict.get k m.entries ≡ some e
    → is_legal_background_transition e.rec.status (rejected_status e) ≡ true
    → Good m (end_rejected message now k e m)
unfolding end_rejected rejected_status ended failed_with
end_rejected-Good message now k e m h legal =
    let gone = ended BackgroundTaskStatus.cancelled now e in
    let failing = failed_with message now e in
    Good-if (e.cancel_requested || e.aborted) (commit k BackgroundEventType.cancelled gone m)
      (commit k BackgroundEventType.failed failing m)
      (λ t. commit-Good k BackgroundEventType.cancelled e gone m h (ground arith) refl no_slot)
      (λ t. commit-Good k BackgroundEventType.failed e failing m h (ground arith) refl no_slot)

module _ (runtime_throws : RunTaskInput → Option Text) where
  settle_open-Good :
      (r : AgentTaskResult) (now k : Text) (e : BackgroundEntry) (m : BackgroundTaskManager)
      → Dict.get k m.entries ≡ some e
      → Good m (settle_open runtime_throws r now k e m)
  unfolding settle_open parked
  settle_open-Good r now k e m h =
      let e' = named_run r e in
      let cancelling = schedule runtime_throws now (end_cancelling r now k e' m) in
      let running = schedule runtime_throws now (end_running r now k e' m) in
      let is_cancelling = same_status e.rec.status BackgroundTaskStatus.cancelling in
      let is_running = same_status e.rec.status BackgroundTaskStatus.running in
      let b = named_run-project_id r e in
      Good-if (is_parked e.rec.status) (parked k e' m)
        (if is_cancelling then cancelling else (if is_running then running else update k e' m))
        (λ _. kept-Good k e (record e' { settled = true }) m h (named_run-rec r e) b)
        (λ _.
          Good-if is_cancelling cancelling (if is_running then running else update k e' m)
            (λ t.
              Good-trans (end_cancelling-Good r now k e e' m h (is_status _ _ t) b)
                (schedule-Good runtime_throws now _))
            (λ _.
              Good-if is_running running (update k e' m)
                (λ t.
                  Good-trans (end_running-Good r now k e e' m h (is_status _ _ t) b)
                    (schedule-Good runtime_throws now _))
                (λ _. kept-Good k e e' m h (named_run-rec r e) b)))

  pub handle_runtime_settled-Good :
      (r : AgentTaskResult) (now k : Text) (m : BackgroundTaskManager)
      → Good m (handle_runtime_settled runtime_throws r now k m)
  unfolding handle_runtime_settled
  handle_runtime_settled-Good r now k m = elim (Option-cases (Dict.get k m.entries)) [
    | inl absent ↦ rw (absent, handle_runtime_settled) (Good-refl m)
    | inr (e, h) ↦
        rw (h, handle_runtime_settled)
          (Good-if (e.settled || is_terminal e.rec.status) m
            (settle_open runtime_throws r now k e m) (λ _. Good-refl m)
            (λ _. settle_open-Good r now k e m h))
  ]

  reject_open-Good :
      (message now k : Text) (e : BackgroundEntry) (m : BackgroundTaskManager)
      → Dict.get k m.entries ≡ some e
      → Good m (reject_open runtime_throws message now k e m)
  unfolding reject_open parked rejected_status
  reject_open-Good message now k e m h =
      let ends = schedule runtime_throws now (end_rejected message now k e m) in
      let stuck =
        not (is_legal_background_transition e.rec.status (rejected_status e))
        && not (same_status e.rec.status BackgroundTaskStatus.cancelling) in
      Good-if (is_parked e.rec.status) (parked k e m) (if stuck then m else ends)
        (λ _. kept-Good k e (record e { settled = true }) m h refl refl)
        (λ _.
          Good-if stuck m ends (λ _. Good-refl m)
            (λ f.
              Good-trans
                (end_rejected-Good message now k e m h
                  (may_reject e.rec.status (e.cancel_requested || e.aborted) f))
                (schedule-Good runtime_throws now _)))

  pub handle_runtime_rejected-Good :
      (message now k : Text) (m : BackgroundTaskManager)
      → Good m (handle_runtime_rejected runtime_throws message now k m)
  unfolding handle_runtime_rejected
  handle_runtime_rejected-Good message now k m = elim (Option-cases (Dict.get k m.entries)) [
    | inl absent ↦ rw (absent, handle_runtime_rejected) (Good-refl m)
    | inr (e, h) ↦
        rw (h, handle_runtime_rejected)
          (Good-if (e.settled || is_terminal e.rec.status) m
            (reject_open runtime_throws message now k e m) (λ _. Good-refl m)
            (λ _. reject_open-Good message now k e m h))
  ]
