-- ===== src/Background/Settlement.antt =====
-- packages/agent-runtime/src/runtime/background-task-manager.ts: what the manager does when a run it
-- started settles. An entry is never removed, so the key stands for the entry object that the run holds.
pub mod Moves
use ai_desktop.Base.{
  ℕ, Bool, true, false, not, ◌&&◌, ◌||◌, Option, none, some, List, [], ◌∷◌, Text, if◌then◌else◌,
}
use ai_desktop.Base.Dict
use ai_desktop.Background.Task.{
  BackgroundTaskStatus, BackgroundEventType, is_legal_background_transition, same_status, truncate,
  max_background_error_length, max_background_result_length,
}
use ai_desktop.Background.Manager.{
  BackgroundEntry, BackgroundTaskManager, RunTaskInput, is_terminal, update, commit, safe_persist,
  schedule,
}

pub data AgentTaskResult : Type 0 where
  completed : (task_id summary : Text) → AgentTaskResult
  failed : (task_id error : Text) → AgentTaskResult
  cancelled : (task_id : Text) (reason : Option Text) → AgentTaskResult

abbrev task_id_of : AgentTaskResult → Text
task_id_of (completed id _) = id
task_id_of (failed id _) = id
task_id_of (cancelled id _) = id

-- A paused or waiting task keeps its park.
unfoldable pub is_parked : BackgroundTaskStatus → Bool
is_parked s =
    same_status s BackgroundTaskStatus.paused
    || same_status s BackgroundTaskStatus.waiting_permission
    || same_status s BackgroundTaskStatus.waiting_input

-- `if (result.taskId) entry.runtimeTaskId = result.taskId`.
unfoldable pub named_run : AgentTaskResult → BackgroundEntry → BackgroundEntry
named_run r e = elim (task_id_of r) [
  | [] ↦ e
  | c ∷ id ↦ record e { runtime_task_id = some (c ∷ id) }
]

-- The record of an entry at its end.
unfoldable pub ended : BackgroundTaskStatus → Text → BackgroundEntry → BackgroundEntry
ended s now e = record e {
  rec = record (e.rec) { status = s; updated_at = now; completed_at = some now };
  settled = true;
}

unfoldable pub failed_with : Text → Text → BackgroundEntry → BackgroundEntry
failed_with error now e = record e {
  rec = record (e.rec) {
    status = BackgroundTaskStatus.failed;
    updated_at = now;
    completed_at = some now;
    last_error = some (safe_persist (truncate error max_background_error_length));
  };
  settled = true;
}

unfoldable pub completed_with : Text → Text → BackgroundEntry → BackgroundEntry
completed_with summary now e = record e {
  rec = record (e.rec) {
    status = BackgroundTaskStatus.completed;
    updated_at = now;
    completed_at = some now;
    result_summary = some (safe_persist (truncate summary max_background_result_length));
  };
  settled = true;
}

-- The task was being cancelled when its run settled: it failed, or else it is cancelled.
unfoldable pub end_cancelling :
    AgentTaskResult → Text → Text → BackgroundEntry → BackgroundTaskManager → BackgroundTaskManager
end_cancelling (failed _ error) now k e m =
    commit k BackgroundEventType.failed (failed_with error now e) m
end_cancelling _ now k e m =
    commit k BackgroundEventType.cancelled (ended BackgroundTaskStatus.cancelled now e) m

unfoldable pub end_running :
    AgentTaskResult → Text → Text → BackgroundEntry → BackgroundTaskManager → BackgroundTaskManager
end_running (completed _ summary) now k e m =
    commit k BackgroundEventType.completed (completed_with summary now e) m
end_running (failed _ error) now k e m =
    commit k BackgroundEventType.failed (failed_with error now e) m
end_running (cancelled _ _) now k e m =
    commit k BackgroundEventType.cancelled (ended BackgroundTaskStatus.cancelled now e) m

unfoldable pub parked : Text → BackgroundEntry → BackgroundTaskManager → BackgroundTaskManager
parked k e m = update k (record e { settled = true }) m

-- `terminal` of `_handleRuntimeRejected`.
unfoldable pub rejected_status : BackgroundEntry → BackgroundTaskStatus
rejected_status e =
    if e.cancel_requested || e.aborted
    then BackgroundTaskStatus.cancelled
    else BackgroundTaskStatus.failed

unfoldable pub end_rejected :
    Text → Text → Text → BackgroundEntry → BackgroundTaskManager → BackgroundTaskManager
end_rejected message now k e m =
    if e.cancel_requested || e.aborted
    then commit k BackgroundEventType.cancelled (ended BackgroundTaskStatus.cancelled now e) m
    else commit k BackgroundEventType.failed (failed_with message now e) m

module _ (runtime_throws : RunTaskInput → Option Text) where
  -- The run of this entry settled, and the entry has not ended.
  unfoldable pub settle_open :
      AgentTaskResult
      → Text
      → Text
      → BackgroundEntry
      → BackgroundTaskManager
      → BackgroundTaskManager
  settle_open r now k e m =
      let e' = named_run r e in
      if is_parked e.rec.status
      then parked k e' m
      else (if same_status e.rec.status BackgroundTaskStatus.cancelling
          then schedule runtime_throws now (end_cancelling r now k e' m)
          else (if same_status e.rec.status BackgroundTaskStatus.running
              then schedule runtime_throws now (end_running r now k e' m)
              else update k e' m))

  -- `_handleRuntimeSettled`.
  unfoldable pub handle_runtime_settled :
      AgentTaskResult → Text → Text → BackgroundTaskManager → BackgroundTaskManager
  handle_runtime_settled r now k m = elim (Dict.get k m.entries) [
    | none ↦ m
    | some e ↦ if e.settled || is_terminal e.rec.status then m else settle_open r now k e m
  ]

  unfoldable pub reject_open :
      Text → Text → Text → BackgroundEntry → BackgroundTaskManager → BackgroundTaskManager
  reject_open message now k e m =
      if is_parked e.rec.status
      then parked k e m
      else (if not (is_legal_background_transition e.rec.status (rejected_status e))
            && not (same_status e.rec.status BackgroundTaskStatus.cancelling)
          then m
          else schedule runtime_throws now (end_rejected message now k e m))

  -- `_handleRuntimeRejected`, of a rejection with this message.
  unfoldable pub handle_runtime_rejected :
      Text → Text → Text → BackgroundTaskManager → BackgroundTaskManager
  handle_runtime_rejected message now k m = elim (Dict.get k m.entries) [
    | none ↦ m
    | some e ↦ if e.settled || is_terminal e.rec.status then m else reject_open message now k e m
  ]
