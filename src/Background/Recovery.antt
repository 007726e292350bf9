-- ===== src/Background/Recovery.antt =====
-- packages/agent-runtime/src/runtime/background-task-manager.ts: `recover`. A persisted value without the
-- fields of a record is `none`.
pub mod Restored
pub mod Replay
use ai_desktop.Base.{
  ℕ, ◌+◌, Bool, true, false, ◌||◌, Option, none, some, List, [], ◌∷◌, ◌++◌, Text, if◌then◌else◌,
  includes,
}
use ai_desktop.Base.Dict
use ai_desktop.Secrets.{has_secrets, field_has_secrets}
use ai_desktop.Background.Task.{
  BackgroundTaskStatus, BackgroundTaskRecord, BackgroundEventType, RecoveryDisposition,
  classify_recovery, parse_record, same_status,
}
use ai_desktop.Background.Manager.{BackgroundEntry, BackgroundTaskManager, commit}

pub record BackgroundRecoverSummary : Type 0 where
  pub resumed : ℕ
  pub awaiting_approval : ℕ
  pub abandoned : ℕ
  pub rejected : ℕ

-- What one value adds to the summary.
pub data Bucket : Type 0 where
  resumed awaiting_approval abandoned rejected : Bucket

unfoldable pub tally : Bucket → BackgroundRecoverSummary → BackgroundRecoverSummary
tally resumed s = record s { resumed = s.resumed + 1 }
tally awaiting_approval s = record s { awaiting_approval = s.awaiting_approval + 1 }
tally abandoned s = record s { abandoned = s.abandoned + 1 }
tally rejected s = record s { rejected = s.rejected + 1 }

unfoldable pub keeps_secret : BackgroundTaskRecord → Bool
keeps_secret r =
    has_secrets r.title
    || has_secrets r.goal
    || field_has_secrets r.last_error
    || field_has_secrets r.result_summary

-- `restoreStatus`.
unfoldable pub restore_status : BackgroundTaskStatus → BackgroundTaskStatus
restore_status s =
    if same_status s BackgroundTaskStatus.running
      || same_status s BackgroundTaskStatus.queued
      || same_status s BackgroundTaskStatus.cancelling
    then BackgroundTaskStatus.paused
    else s

-- The entry of a restored record with this status.
unfoldable pub restored : BackgroundTaskStatus → Text → BackgroundTaskRecord → BackgroundEntry
restored s now r = record {
  rec = record r { status = s; updated_at = now };
  project_id = r.project_id;
  aborted = false;
  pause_requested = same_status s BackgroundTaskStatus.paused;
  cancel_requested = false;
  pending_permission = same_status s BackgroundTaskStatus.waiting_permission;
  pending_input = same_status s BackgroundTaskStatus.waiting_input;
  model_id = none;
  system_prompt = none;
  max_node_iterations = none;
  runtime_task_id = none;
  settled = false;
}

-- The record under a key that the manager has already, or has not.
unfoldable pub restore :
    BackgroundTaskStatus
    → Text
    → BackgroundTaskRecord
    → BackgroundTaskManager
    → BackgroundTaskManager
restore s now r m = elim (Dict.get r.task_id m.entries) [
  | some e ↦ m
  | none ↦ commit r.task_id BackgroundEventType.recovered (restored s now r) m
]

-- A record that was read, and its key is new in this batch.
unfoldable pub recover_record :
    Text → BackgroundTaskRecord → BackgroundTaskManager → Bucket × BackgroundTaskManager
recover_record now r m =
    if keeps_secret r then (rejected, m) else elim (classify_recovery r.status r.attempt) [
      | RecoveryDisposition.abandoned ↦ (abandoned, m)
      | RecoveryDisposition.resumable ↦ (resumed, restore BackgroundTaskStatus.queued now r m)
      | RecoveryDisposition.requires_approval ↦
          (awaiting_approval, restore (restore_status r.status) now r m)
    ]

-- One round of the loop of `recover`.
unfoldable pub recover_one :
    Text
    → Option BackgroundTaskRecord
    → List Text
    → BackgroundTaskManager
    → Bucket × List Text × BackgroundTaskManager
recover_one now none seen m = (rejected, seen, m)
recover_one now (some raw) seen m = elim (parse_record raw) [
  | none ↦ (rejected, seen, m)
  | some r ↦
      if includes seen r.task_id
      then (rejected, seen, m)
      else let (bucket, m') = recover_record now r m in (bucket, seen ++ r.task_id ∷ [], m')
]

unfoldable pub recover_loop :
    Text
    → List (Option BackgroundTaskRecord)
    → List Text
    → BackgroundRecoverSummary
    → BackgroundTaskManager
    → BackgroundRecoverSummary × BackgroundTaskManager
recover_loop now [] seen s m = (s, m)
recover_loop now (raw ∷ rest) seen s m =
    let (bucket, seen', m') = recover_one now raw seen m in
    recover_loop now rest seen' (tally bucket s) m'

-- `recover`; `none` is a value that is no array.
unfoldable pub recover :
    Text
    → Option (List (Option BackgroundTaskRecord))
    → BackgroundTaskManager
    → BackgroundRecoverSummary × BackgroundTaskManager
recover now persisted m =
    let summary : BackgroundRecoverSummary = record {
      resumed = 0;
      awaiting_approval = 0;
      abandoned = 0;
      rejected = 0;
    } in
    elim persisted [ none ↦ (summary, m) | some raws ↦ recover_loop now raws [] summary m ]
