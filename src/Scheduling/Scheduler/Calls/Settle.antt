-- ===== src/Scheduling/Scheduler/Calls/Settle.antt =====
-- background-scheduler.ts: `settleRun`.
use ai_desktop.Base.{
  ℕ, Bool, true, false, not, Option, none, some, List, Text, codes, take, trim, if◌then◌else◌,
  text_eq,
}
use ai_desktop.Base.Dict
use ai_desktop.Background.Lookup.{Unknown, string, not_string}
use ai_desktop.Scheduling.Contract.{
  ScheduledRunStatus, ScheduledTaskRecord, ScheduledRunRecord, ScheduleErrorCode, ScheduleEventType,
  parse_schedule, max_schedule_error_length,
}
use ai_desktop.Scheduling.Store.{ScheduleStorePort}
use ai_desktop.Scheduling.Scheduler.{
  started, refused, SchedulerOptions, BackgroundScheduler, SchedulerResult, ok, err,
  is_terminal_run, find_run_in, best_effort, emit, active_run_id, remember_active, parked_run_id,
  remember_parked, find_run, prune_runs, begin_run, running_run, failed_run, release_slot,
}
use ai_desktop.Scheduling.Scheduler.Tick.{launch_recorded_run}
use ai_desktop.Scheduling.Scheduler.Calls.Run.{valid_id}

pub data SettleOutcome : Type 0 where
  completed failed cancelled : SettleOutcome

abbrev pub status_of : SettleOutcome → ScheduledRunStatus
status_of SettleOutcome.completed = ScheduledRunStatus.completed
status_of SettleOutcome.failed = ScheduledRunStatus.failed
status_of SettleOutcome.cancelled = ScheduledRunStatus.cancelled

-- A cancelled run leaves no trace on its schedule.
abbrev pub last_status : SettleOutcome → Option ScheduledRunStatus → Option ScheduledRunStatus
last_status SettleOutcome.completed old = some ScheduledRunStatus.completed
last_status SettleOutcome.failed old = some ScheduledRunStatus.failed
last_status SettleOutcome.cancelled old = old

-- `detail ?? run.error ?? …`.
abbrev or_error : Option Text → Option Text → Text → Option Text
or_error (some d) e fallback = some d
or_error none (some e) fallback = some e
or_error none none fallback = some fallback

unfoldable pub settled_run :
    ScheduledRunRecord → SettleOutcome → Option Text → Text → ScheduledRunRecord
settled_run run outcome detail now_iso =
    let ended = record run { status = status_of outcome; finished_at = some now_iso } in
    elim outcome [
      | SettleOutcome.completed ↦ ended
      | SettleOutcome.failed ↦ record ended {
        error = or_error detail run.error (codes "Run failed.");
      }
      | SettleOutcome.cancelled ↦ record ended {
        error = or_error detail run.error (codes "Run cancelled.");
      }
    ]

-- The detail of a settlement: `none` if it is not a string.
unfoldable pub detail_of : Option Unknown → Option (Option Text)
detail_of none = some none
detail_of (some not_string) = none
detail_of (some (string s)) = some (some (take max_schedule_error_length (trim s)))

module _ {S : Type 0} (port : ScheduleStorePort S) (o : SchedulerOptions) where
  -- The slot of the settled run is free, unless another run holds it.
  unfoldable pub free_slot : Text → Text → BackgroundScheduler S → BackgroundScheduler S
  free_slot id run m = elim (active_run_id port o id m) [
    | none ↦ m
    | some active ↦
        let m' = remember_active port o id m in
        if text_eq active run then release_slot port o id m' else m'
  ]

  abbrev pub settled_event :
      ScheduledTaskRecord → Text → SettleOutcome → BackgroundScheduler S → BackgroundScheduler S
  settled_event r run SettleOutcome.completed m =
      emit port o r ScheduleEventType.run_completed (some run) (some ScheduledRunStatus.completed) m
  settled_event r run SettleOutcome.failed m =
      emit port o r ScheduleEventType.run_failed (some run) (some ScheduledRunStatus.failed) m
  settled_event r run SettleOutcome.cancelled m = m

  unfoldable pub forget_parked : Text → BackgroundScheduler S → BackgroundScheduler S
  forget_parked id m =
      best_effort port o (port.set_queued_run_id id none)
        (record m { parked_runs = Dict.delete id m.parked_runs })

  -- A due time that names no instant makes `toISOString` throw once the run is launched.
  unfoldable pub launch_parked :
      ScheduledTaskRecord
      → ScheduledRunRecord
      → ℕ
      → BackgroundScheduler S
      → BackgroundScheduler S × Bool
  launch_parked schedule run now m = elim (o.date_parse run.scheduled_for) [
    | some t ↦ (
      (launch_recorded_run port o schedule run now
          (record { count = 1; earliest_ms = t; latest_ms = t }) m).0,
      true,
    )
    | none ↦
        let (m1, outcome) = begin_run port o schedule run m in
        elim outcome [
          | started task ↦ (
            prune_runs port o schedule.id (
                best_effort port o (port.save_run (running_run port o run task (o.to_iso now))) m1),
            false,
          )
          | refused code message ↦ (
            release_slot port o schedule.id (
                prune_runs port o schedule.id (
                  best_effort port o
                    (port.save_run (failed_run port o run code message (o.to_iso now))) m1)),
            false,
          )
        ]
  ]

  abbrev is_waiting : Option ScheduledRunRecord → Bool
  is_waiting none = false
  is_waiting (some run) = elim run.status [ ScheduledRunStatus.pending ↦ true | _ ↦ false ]

  unfoldable pub promote :
      ScheduledTaskRecord
      → Option ScheduledRunRecord
      → ℕ
      → BackgroundScheduler S
      → BackgroundScheduler S × Bool
  promote schedule none now m = (forget_parked schedule.id m, true)
  promote schedule (some run) now m =
      if is_waiting (some run)
      then launch_parked schedule run now (forget_parked schedule.id m)
      else (forget_parked schedule.id m, true)

  -- The parked run takes the slot that is free now.
  unfoldable pub launch_waiting :
      ScheduledTaskRecord → ℕ → BackgroundScheduler S → BackgroundScheduler S × Bool
  launch_waiting schedule now m = elim (parked_run_id port o schedule.id m) [
    | none ↦ (m, true)
    | some parked ↦
        let m' = remember_parked port o schedule.id m in
        promote schedule (find_run port o schedule.id parked m') now m'
  ]

  unfoldable pub end_run :
      ScheduledTaskRecord
      → ScheduledRunRecord
      → SettleOutcome
      → Option Text
      → ℕ
      → ℕ
      → BackgroundScheduler S
      → BackgroundScheduler S × Option (SchedulerResult ScheduledRunRecord)
  end_run r run outcome detail now launch_now m =
      let now_iso = o.to_iso now in
      let settled = settled_run run outcome detail now_iso in
      elim (port.save_run settled m.store) [
        | none ↦ (m, some (err ScheduleErrorCode.storage_error))
        | some s ↦
            let m1 = free_slot r.id run.run_id (prune_runs port o r.id (record m { store = s })) in
            let updated = record r {
              updated_at = now_iso;
              last_run_status = last_status outcome r.last_run_status;
            } in
            let m2 =
              settled_event r run.run_id outcome
                (best_effort port o (port.save_schedule updated) m1) in
            let (m3, returned) = launch_waiting r launch_now m2 in
            (m3, if returned then some (ok settled) else none)
      ]

  -- The project is checked only if it is given.
  abbrev pub in_project : Option Text → ScheduledTaskRecord → Bool
  in_project none r = true
  in_project (some project) r = text_eq r.project_id project

  unfoldable pub settle_found :
      ScheduledTaskRecord
      → Option ScheduledRunRecord
      → SettleOutcome
      → Option Unknown
      → ℕ
      → ℕ
      → BackgroundScheduler S
      → BackgroundScheduler S × Option (SchedulerResult ScheduledRunRecord)
  settle_found r none outcome detail now launch_now m = (m, some (err ScheduleErrorCode.not_found))
  settle_found r (some run) outcome detail now launch_now m =
      if not (text_eq run.schedule_id r.id)
      then (m, some (err ScheduleErrorCode.not_found))
      else (if is_terminal_run run.status then (m, some (ok run)) else elim (detail_of detail) [
        | none ↦ (m, some (err ScheduleErrorCode.validation_error))
        | some text ↦ end_run r run outcome text now launch_now m
      ])

  -- The stored runs are read only where the schedule is there.
  unfoldable pub load_runs :
      Text → BackgroundScheduler S → SchedulerResult (List ScheduledRunRecord)
  load_runs id m = elim (port.list_runs id m.store) [
    | none ↦ err ScheduleErrorCode.storage_error
    | some runs ↦ ok runs
  ]

  unfoldable pub settle_checked :
      Text
      → Text
      → SettleOutcome
      → Option Text
      → Option Unknown
      → ℕ
      → ℕ
      → BackgroundScheduler S
      → BackgroundScheduler S × Option (SchedulerResult ScheduledRunRecord)
  settle_checked id run outcome project detail now launch_now m =
      elim (port.get_schedule id m.store) [
        | none ↦ (m, some (err ScheduleErrorCode.storage_error))
        | some stored ↦ elim stored [
          | none ↦ (m, some (err ScheduleErrorCode.not_found))
          | some raw ↦ elim (load_runs id m) [
            | err code ↦ (m, some (err code))
            | ok runs ↦ elim (parse_schedule o.intl raw) [
              | none ↦ (m, some (err ScheduleErrorCode.validation_error))
              | some r ↦
                  if in_project project r
                  then settle_found r (find_run_in run runs) outcome detail now launch_now m
                  else (m, some (err ScheduleErrorCode.project_mismatch))
            ]
          ]
        ]
      ]

  -- `none` is a throw.
  unfoldable pub settle_run :
      Unknown
      → Unknown
      → SettleOutcome
      → Option Text
      → Option Unknown
      → ℕ
      → ℕ
      → BackgroundScheduler S
      → BackgroundScheduler S × Option (SchedulerResult ScheduledRunRecord)
  settle_run schedule_id run_id outcome project detail now launch_now m =
      elim (valid_id schedule_id) [
        | none ↦ (m, some (err ScheduleErrorCode.validation_error))
        | some id ↦ elim (valid_id run_id) [
          | none ↦ (m, some (err ScheduleErrorCode.validation_error))
          | some run ↦ settle_checked id run outcome project detail now launch_now m
        ]
      ]
