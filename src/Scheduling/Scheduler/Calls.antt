-- ===== src/Scheduling/Scheduler/Calls.antt =====
-- background-scheduler.ts: `runNow`, `settleRun` and `setEnabled`. Where the code reads the clock twice, the
-- second reading is an argument of its own.
mod Run
mod Settle
unfoldable pub use Run.*
unfoldable pub use Settle.*
use ai_desktop.Base.{
  ℕ, suc, Bool, true, false, not, Option, none, some, List, Text, codes, take, trim, if◌then◌else◌,
  text_eq,
}
use ai_desktop.Base.Dict
use ai_desktop.Background.Lookup.{Unknown, string, not_string, is_task_id, is_project_id}
use ai_desktop.Scheduling.Contract.{
  OverlapPolicy, ScheduleTrigger, ScheduledRunStatus, ScheduledTaskRecord, ScheduledRunRecord,
  ScheduleErrorCode, ScheduleEventType, parse_schedule, max_schedule_error_length,
}
use ai_desktop.Scheduling.Store.{ScheduleStorePort}
use ai_desktop.Scheduling.Scheduler.{
  started, refused, SchedulerOptions, BackgroundScheduler, SchedulerResult, ok, err,
  is_terminal_run, schedule_has_secrets, find_run_in, best_effort, emit, new_run, count_run,
  active_run_id, remember_active, parked_run_id, remember_parked, find_run, prune_runs, begin_run,
  running_run, failed_run, release_slot,
}
use ai_desktop.Scheduling.Scheduler.Tick.{launch_recorded_run}

module _ {S : Type 0} (port : ScheduleStorePort S) (o : SchedulerOptions) where
  abbrev enabled_event : Bool → ScheduleEventType
  enabled_event true = ScheduleEventType.enabled
  enabled_event false = ScheduleEventType.disabled

  abbrev pub same_flag : Bool → Bool → Bool
  same_flag a b = if a then b else not b

  unfoldable pub set_enabled :
      Unknown
      → Unknown
      → Bool
      → ℕ
      → BackgroundScheduler S
      → BackgroundScheduler S × SchedulerResult ScheduledTaskRecord
  set_enabled schedule_id project_id enabled now m =
      elim (find_schedule port o schedule_id project_id m) [
        | err code ↦ (m, err code)
        | ok schedule ↦
            if same_flag schedule.enabled enabled
            then (m, ok schedule)
            else (let updated = record schedule { enabled = enabled; updated_at = o.to_iso now } in
                elim (port.save_schedule updated m.store) [
                  | none ↦ (m, err ScheduleErrorCode.storage_error)
                  | some s ↦ (
                    emit port o schedule (enabled_event enabled) none none (record m { store = s }),
                    ok updated,
                  )
                ])
      ]
