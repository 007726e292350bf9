-- ===== src/Scheduling/Scheduler/Calls/Run.antt =====
-- background-scheduler.ts: the checks at the head of a call, and `runNow`.
use ai_desktop.Base.{ℕ, suc, Bool, true, false, Option, none, some, Text, if◌then◌else◌, text_eq}
use ai_desktop.Base.Dict
use ai_desktop.Background.Lookup.{Unknown, string, not_string, is_task_id, is_project_id}
use ai_desktop.Scheduling.Contract.{
  OverlapPolicy, ScheduleTrigger, ScheduledRunStatus, ScheduledTaskRecord, ScheduledRunRecord,
  ScheduleErrorCode, ScheduleEventType, parse_schedule,
}
use ai_desktop.Scheduling.Store.{ScheduleStorePort}
use ai_desktop.Scheduling.Scheduler.{
  started, refused, SchedulerOptions, BackgroundScheduler, SchedulerResult, ok, err,
  schedule_has_secrets, best_effort, emit, new_run, count_run, active_run_id, remember_active,
  parked_run_id, remember_parked, prune_runs, begin_run, running_run, failed_run, release_slot,
}

-- `validateId` and `validateProjectId`.
unfoldable pub valid_id : Unknown → Option Text
valid_id not_string = none
valid_id (string id) = if is_task_id id then some id else none

unfoldable pub valid_project_id : Unknown → Option Text
valid_project_id not_string = none
valid_project_id (string id) = if is_project_id id then some id else none

module _ {S : Type 0} (port : ScheduleStorePort S) (o : SchedulerOptions) where
  -- The stored schedule, parsed.
  unfoldable pub load_schedule : Text → BackgroundScheduler S → SchedulerResult ScheduledTaskRecord
  load_schedule id m = elim (port.get_schedule id m.store) [
    | none ↦ err ScheduleErrorCode.storage_error
    | some stored ↦ elim stored [
      | none ↦ err ScheduleErrorCode.not_found
      | some raw ↦ elim (parse_schedule o.intl raw) [
        | none ↦ err ScheduleErrorCode.validation_error
        | some schedule ↦ ok schedule
      ]
    ]
  ]

  abbrev pub of_project :
      Text → SchedulerResult ScheduledTaskRecord → SchedulerResult ScheduledTaskRecord
  of_project project (err code) = err code
  of_project project (ok schedule) =
      if text_eq schedule.project_id project
      then ok schedule
      else err ScheduleErrorCode.project_mismatch

  -- The checks at the head of `runNow` and `setEnabled`.
  unfoldable pub find_schedule :
      Unknown → Unknown → BackgroundScheduler S → SchedulerResult ScheduledTaskRecord
  find_schedule schedule_id project_id m = elim (valid_id schedule_id) [
    | none ↦ err ScheduleErrorCode.validation_error
    | some id ↦ elim (valid_project_id project_id) [
      | none ↦ err ScheduleErrorCode.validation_error
      | some project ↦ of_project project (load_schedule id m)
    ]
  ]

  abbrev pub RunAnswer : Type 0
  RunAnswer = BackgroundScheduler S × SchedulerResult ScheduledRunRecord

  -- `_launchNewRun`, with the snapshot that `runNow` returns.
  unfoldable pub launch_new_run :
      ScheduledTaskRecord
      → ScheduledRunRecord
      → Text
      → BackgroundScheduler S
      → BackgroundScheduler S × ScheduledRunRecord × Bool
  launch_new_run schedule run launch_iso m =
      let (m1, outcome) = begin_run port o schedule run m in
      elim outcome [
        | started task ↦
            let running = running_run port o run task launch_iso in
            let m2 =
              prune_runs port o schedule.id (best_effort port o (port.save_run running) m1) in
            (
              emit port o schedule ScheduleEventType.run_started (some run.run_id)
                  (some ScheduledRunStatus.running) (record m2 { last_launched = some running }),
              running,
              true,
            )
        | refused code message ↦
            let lost = failed_run port o run code message launch_iso in
            let m2 =
              release_slot port o schedule.id
                (prune_runs port o schedule.id (best_effort port o (port.save_run lost) m1)) in
            (
              emit port o schedule ScheduleEventType.run_failed (some run.run_id)
                  (some ScheduledRunStatus.failed) (record m2 { last_launched = some lost }),
              lost,
              false,
            )
      ]

  -- No run is active.
  unfoldable pub run_fresh :
      ScheduledTaskRecord → ScheduleTrigger → Text → Text → BackgroundScheduler S → RunAnswer
  run_fresh schedule trigger now_iso launch_iso m =
      let (m1, run, launched) =
        launch_new_run schedule (new_run port o schedule trigger now_iso m) launch_iso
          (count_run port o m) in
      if launched
      then (
        best_effort port o
            (port.save_schedule (record schedule {
              updated_at = now_iso;
              run_count = suc schedule.run_count;
              last_run_status = some ScheduledRunStatus.running;
            }))
            m1,
        ok run,
      )
      else (m1, ok run)

  -- A run is active: the new one waits, if overlaps may wait and none waits yet.
  unfoldable pub park_now :
      ScheduledTaskRecord → ScheduleTrigger → Text → BackgroundScheduler S → RunAnswer
  park_now schedule trigger now_iso m = elim (parked_run_id port o schedule.id m) [
    | some run ↦ (remember_parked port o schedule.id m, err ScheduleErrorCode.task_active)
    | none ↦
        let run = new_run port o schedule trigger now_iso m in
        let m1 = count_run port o m in
        elim (port.save_run run m1.store) [
          | none ↦ (m1, err ScheduleErrorCode.storage_error)
          | some s ↦
              let m2 = prune_runs port o schedule.id (record m1 { store = s }) in
              (
                best_effort port o (port.set_queued_run_id schedule.id (some run.run_id))
                    (record m2 { parked_runs = Dict.set schedule.id run.run_id m2.parked_runs }),
                ok run,
              )
        ]
  ]

  unfoldable pub run_schedule :
      ScheduledTaskRecord → ScheduleTrigger → Text → Text → BackgroundScheduler S → RunAnswer
  run_schedule schedule trigger now_iso launch_iso m =
      if schedule_has_secrets schedule
      then (m, err ScheduleErrorCode.secret_refused)
      else elim (active_run_id port o schedule.id m) [
        | none ↦ run_fresh schedule trigger now_iso launch_iso m
        | some active ↦
            let m' = remember_active port o schedule.id m in
            elim schedule.overlap_policy [
              | OverlapPolicy.skip ↦ (m', err ScheduleErrorCode.task_active)
              | OverlapPolicy.queue_one ↦ park_now schedule trigger now_iso m'
            ]
      ]

  unfoldable pub run_now :
      Unknown → Unknown → ScheduleTrigger → ℕ → ℕ → BackgroundScheduler S → RunAnswer
  run_now schedule_id project_id trigger now launch_now m =
      elim (find_schedule schedule_id project_id m) [
        | err code ↦ (m, err code)
        | ok schedule ↦ run_schedule schedule trigger (o.to_iso now) (o.to_iso launch_now) m
      ]
