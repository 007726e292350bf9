-- ===== src/Background/Operations.antt =====
-- packages/agent-runtime/src/runtime/background-task-manager.ts: the calls on one task. Each answers the
-- task's record or an error, and runs to its end before the next call; it reads the clock once.
pub mod Moves
pub mod Cancel
pub mod Twice
use ai_desktop.Base.{
  ℕ, Bool, true, false, not, ◌&&◌, ◌||◌, Option, none, some, List, [], ◌∷◌, Text, length, ltb, ◌==◌,
  if◌then◌else◌, trim, take,
}
use ai_desktop.Secrets.{has_secrets}
use ai_desktop.Background.Task.{
  BackgroundTaskStatus, BackgroundEventType, BackgroundTaskErrorCode,
  is_legal_background_transition, same_status, truncate, max_background_error_length,
  max_background_input_length,
}
use ai_desktop.Background.Manager.{
  BackgroundEntry, BackgroundTaskManager, Effect, RunTaskInput, is_terminal, update, log, commit,
  schedule,
}
use ai_desktop.Background.Lookup.{
  Unknown, string, not_string, Answer, refuse, answer, on_found, vet,
}

-- `{ ...entry.record, status, updatedAt }`.
unfoldable pub with_status : BackgroundTaskStatus → Text → BackgroundEntry → BackgroundEntry
with_status s now e = record e { rec = record (e.rec) { status = s; updated_at = now } }

-- `entry.runtimeTaskId ?? entry.record.taskId`.
unfoldable pub target : BackgroundEntry → Text
target e = elim (e.runtime_task_id) [ none ↦ e.rec.task_id | some t ↦ t ]

unfoldable pub propagated : BackgroundEntry → BackgroundEntry
propagated e =
    if e.settled && same_status e.rec.status BackgroundTaskStatus.cancelled
    then e
    else record e { aborted = true }

-- `_propagateCancel`.
unfoldable pub propagate_cancel :
    Text → BackgroundEntry → BackgroundTaskManager → BackgroundTaskManager
unfolding propagated
propagate_cancel k e m =
    if e.settled && same_status e.rec.status BackgroundTaskStatus.cancelled
    then m
    else log (Effect.cancel_task (target e) ∷ []) (update k (propagated e) m)

-- `detail && detail.length > 0 ? detail : undefined`.
unfoldable pub persist_error : Option Text → Option Text
persist_error none = none
persist_error (some reason) =
    let detail =
      truncate (take max_background_error_length (trim reason)) max_background_error_length in
    if length detail == 0 then none else some detail

unfoldable pub cancelled_entry : Text → Option Text → BackgroundEntry → BackgroundEntry
cancelled_entry now error e = record e {
  rec = record (e.rec) {
    status = BackgroundTaskStatus.cancelled;
    updated_at = now;
    completed_at = some now;
    last_error = elim error [ none ↦ e.rec.last_error | some t ↦ some t ];
  };
  cancel_requested = true;
  settled = true;
}

-- `Cannot pause task in status`.
unfoldable pub cannot_pause : BackgroundTaskStatus → Bool
cannot_pause s =
    is_terminal s
    || same_status s BackgroundTaskStatus.queued
    || same_status s BackgroundTaskStatus.cancelling
    || not (is_legal_background_transition s BackgroundTaskStatus.paused)

unfoldable pub paused_entry : Text → BackgroundEntry → BackgroundEntry
unfolding with_status
paused_entry now e = record (with_status BackgroundTaskStatus.paused now e) {
  pause_requested = true;
}

-- `canDirect`, and the transition is legal.
unfoldable pub can_cancel_directly : BackgroundTaskStatus → Bool
can_cancel_directly s =
    (same_status s BackgroundTaskStatus.waiting_permission
      || same_status s BackgroundTaskStatus.waiting_input
      || same_status s BackgroundTaskStatus.paused
      || same_status s BackgroundTaskStatus.cancelling)
    && is_legal_background_transition s BackgroundTaskStatus.cancelled

-- The permission park's ends.
unfoldable pub parked_entry : Text → BackgroundEntry → BackgroundEntry
unfolding with_status
parked_entry now e = record (with_status BackgroundTaskStatus.waiting_permission now e) {
  pending_permission = true;
}

unfoldable pub unparked_entry : Text → BackgroundEntry → BackgroundEntry
unfolding with_status
unparked_entry now e = record (with_status BackgroundTaskStatus.running now e) {
  pending_permission = false;
}

-- `notifyPermissionWaiting`.
unfoldable pub notify_permission_waiting :
    Unknown → Text → Option Unknown → Text → BackgroundTaskManager → Answer
notify_permission_waiting id p detail now m = on_found id p m (λ k e.
    if same_status e.rec.status BackgroundTaskStatus.waiting_permission
    then answer k e m
    else (if not (same_status e.rec.status BackgroundTaskStatus.running)
        then refuse BackgroundTaskErrorCode.invalid_transition m
        else vet detail
            (λ d.
              answer k e (commit k BackgroundEventType.waiting_permission (parked_entry now e) m))
            m))

-- `notifyPermissionResolved`.
unfoldable pub notify_permission_resolved :
    Unknown → Text → Option Unknown → Text → BackgroundTaskManager → Answer
notify_permission_resolved id p detail now m = on_found id p m (λ k e.
    if not (same_status e.rec.status BackgroundTaskStatus.waiting_permission)
    then refuse BackgroundTaskErrorCode.invalid_transition m
    else vet detail
        (λ d. answer k e (commit k BackgroundEventType.resumed (unparked_entry now e) m)) m)

unfoldable pub input_entry : Text → BackgroundEntry → BackgroundEntry
unfolding with_status
input_entry now e = record (with_status BackgroundTaskStatus.running now e) {
  pending_input = false;
}

-- The answer to a request for input, once the text is accepted.
unfoldable pub receive_input : Unknown → Text → Text → BackgroundTaskManager → Answer
receive_input id p now m = on_found id p m (λ k e.
    if not (same_status e.rec.status BackgroundTaskStatus.waiting_input)
    then refuse BackgroundTaskErrorCode.invalid_transition m
    else answer k e (
        log (Effect.resume_task (target e) ∷ [])
          (commit k BackgroundEventType.resumed (input_entry now e) m)))

-- `respondInput`.
unfoldable pub respond_input : Unknown → Text → Unknown → Text → BackgroundTaskManager → Answer
respond_input id p not_string now m = refuse BackgroundTaskErrorCode.validation_error m
respond_input id p (string response) now m =
    let trimmed = trim response in
    if length trimmed == 0 || ltb max_background_input_length (length trimmed)
    then refuse BackgroundTaskErrorCode.validation_error m
    else (if has_secrets trimmed
        then refuse BackgroundTaskErrorCode.secret_refused m
        else receive_input id p now m)

module _ (runtime_throws : RunTaskInput → Option Text) where
  -- `_schedule`, and the record after it.
  unfoldable pub scheduled : Text → Text → BackgroundEntry → BackgroundTaskManager → Answer
  scheduled now k e m = answer k e (schedule runtime_throws now m)

  -- `pause`.
  unfoldable pub pause : Unknown → Text → Text → BackgroundTaskManager → Answer
  pause id p now m = on_found id p m (λ k e.
      if same_status e.rec.status BackgroundTaskStatus.paused
      then answer k e m
      else (if cannot_pause e.rec.status
          then refuse BackgroundTaskErrorCode.invalid_transition m
          else scheduled now k e (commit k BackgroundEventType.paused (paused_entry now e) m)))

  -- `resume`.
  unfoldable pub resume : Unknown → Text → Text → BackgroundTaskManager → Answer
  resume id p now m = on_found id p m (λ k e.
      if not (same_status e.rec.status BackgroundTaskStatus.paused)
      then refuse BackgroundTaskErrorCode.invalid_transition m
      else scheduled now k e (
          commit k BackgroundEventType.resumed
            (record (with_status BackgroundTaskStatus.queued now e) { pause_requested = false }) m))

  -- The task runs: cancelling first, then cancelled.
  unfoldable pub cancel_running :
      Text → Option Text → Text → BackgroundEntry → BackgroundTaskManager → Answer
  cancel_running now error k e m =
      let e' = record (with_status BackgroundTaskStatus.cancelling now e) {
        cancel_requested = true;
      } in
      scheduled now k e (
        commit k BackgroundEventType.cancelled (cancelled_entry now error (propagated e'))
          (propagate_cancel k e' (update k e' m)))

  -- The task waits, is paused or is being cancelled.
  unfoldable pub cancel_directly :
      Text → Option Text → Text → BackgroundEntry → BackgroundTaskManager → Answer
  cancel_directly now error k e m =
      let e' = record e { cancel_requested = true } in
      scheduled now k e (
        commit k BackgroundEventType.cancelled (cancelled_entry now error (propagated e'))
          (propagate_cancel k e' (update k e' m)))

  -- A task that has not ended, with the error to keep.
  unfoldable pub cancel_open :
      Text → Option Text → Text → BackgroundEntry → BackgroundTaskManager → Answer
  cancel_open now error k e m =
      if same_status e.rec.status BackgroundTaskStatus.queued
      then scheduled now k e
          (commit k BackgroundEventType.cancelled (cancelled_entry now error e) m)
      else (if same_status e.rec.status BackgroundTaskStatus.running
          then cancel_running now error k e m
          else (if can_cancel_directly e.rec.status
              then cancel_directly now error k e m
              else refuse BackgroundTaskErrorCode.invalid_transition m))

  -- `cancel`.
  unfoldable pub cancel : Unknown → Text → Option Unknown → Text → BackgroundTaskManager → Answer
  cancel id p reason now m = on_found id p m (λ k e.
      if same_status e.rec.status BackgroundTaskStatus.cancelled
      then answer k e m
      else (if is_terminal e.rec.status
          then refuse BackgroundTaskErrorCode.invalid_transition m
          else vet reason (λ r. cancel_open now (persist_error r) k e m) m))
