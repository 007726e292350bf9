-- ===== src/Scheduling/Scheduler/Tick.antt =====
-- background-scheduler.ts: `tick`. A tick plans from the record alone and
-- then does what the plan says; it launches one run of a schedule at most.
mod Plan
mod Launch
unfoldable pub use Plan.*
unfoldable pub use Launch.*
use ai_desktop.Base.{
  ℕ, zero, suc, ◌+◌, ◌-◌, Bool, true, false, not, ◌&&◌, Option, none, some, List, [], ◌∷◌, Text,
  codes, ltb, if◌then◌else◌, text_eq,
}
use ai_desktop.Base.Dict
use ai_desktop.Scheduling.Contract.{
  ScheduleKind, ScheduleConfig, MissedPolicy, OverlapPolicy, ScheduleTrigger, ScheduledRunStatus,
  ScheduledTaskRecord, ScheduledRunRecord, ScheduleEventType, is_one_shot, max_catch_up_runs,
  parse_schedule,
}
use ai_desktop.Scheduling.Calculator.{
  DueWindow, DueResult, count_due_occurrences, next_pointer_after_now,
}
use ai_desktop.Scheduling.Store.{ScheduleStorePort}
use ai_desktop.Scheduling.Scheduler.{
  started, refused, SchedulerOptions, BackgroundScheduler, schedule_has_secrets, query_of,
  best_effort, emit, new_run, count_run, active_run_id, remember_active, parked_run_id,
  remember_parked, find_run, prune_runs, pointer_after, begin_run, running_run, failed_run,
  release_slot,
}

module _ {S : Type 0} (port : ScheduleStorePort S) (o : SchedulerOptions) where
  -- A run that is never launched.
  abbrev pub skipped_run : ScheduledRunRecord → Text → ScheduledRunRecord
  skipped_run run now_iso = record run {
    status = ScheduledRunStatus.skipped;
    finished_at = some now_iso;
  }

  unfoldable pub do_refuse : ScheduledTaskRecord → ℕ → BackgroundScheduler S → Step port o
  do_refuse schedule now m =
      let now_iso = o.to_iso now in
      let run = record (new_run port o schedule ScheduleTrigger.scheduled now_iso m) {
        status = ScheduledRunStatus.failed;
        started_at = some now_iso;
        finished_at = some now_iso;
        error = some (codes "secret-refused: schedule text appears to contain secret material");
      } in
      let disabled = record schedule {
        enabled = false;
        updated_at = now_iso;
        last_run_status = some ScheduledRunStatus.failed;
      } in
      after_write port o (port.save_run run) (count_run port o m) (λ m1.
        after_write port o (port.save_schedule disabled) m1 (λ m2. (
          emit_disabled port o schedule (
              emit port o schedule ScheduleEventType.run_failed (some run.run_id)
                (some ScheduledRunStatus.failed) m2),
          some TickOutcome.failed,
        )))

  unfoldable pub do_consume : ScheduledTaskRecord → ℕ → BackgroundScheduler S → Step port o
  do_consume schedule now m =
      after_write port o
        (port.save_schedule (record schedule { enabled = false; updated_at = o.to_iso now })) m
        (λ m1. (emit_disabled port o schedule m1, some TickOutcome.quiet))

  -- `_fixPointer`; `expected` is the calculator's answer.
  unfoldable pub fix_pointer :
      ScheduledTaskRecord → ℕ → ℕ → BackgroundScheduler S → BackgroundScheduler S
  fix_pointer schedule anchor now m =
      elim (next_pointer_after_now o.intl o.date_parse o.min_interval_ms
        (query_of o.date_parse schedule) anchor (is_consumed o.date_parse schedule) now) [
          | none ↦ m
          | some none ↦ m
          | some (some t) ↦
              let expected = o.to_iso t in
              if text_eq expected schedule.next_run_at
              then m
              else best_effort port o
                  (port.save_schedule
                    (record schedule { updated_at = o.to_iso now; next_run_at = expected }))
                  m
        ]

  unfoldable pub do_drop : ScheduledTaskRecord → ℕ → Batch → BackgroundScheduler S → Step port o
  do_drop schedule now batch m =
      let now_iso = o.to_iso now in
      let fire_iso = o.to_iso batch.latest_ms in
      let run =
        skipped_run (new_run port o schedule ScheduleTrigger.scheduled fire_iso m) now_iso in
      let updated =
        record (handled schedule now_iso fire_iso fire_iso (some ScheduledRunStatus.skipped) 1) {
          enabled = false;
        } in
      after_write port o (port.save_run run) (count_run port o m) (λ m1.
        after_write port o (port.save_schedule updated) (prune_runs port o schedule.id m1) (λ m2. (
          emit_disabled port o schedule (
              emit port o schedule ScheduleEventType.run_skipped (some run.run_id)
                (some ScheduledRunStatus.skipped)
                (emit port o schedule ScheduleEventType.due none none m2)),
          some TickOutcome.skipped,
        )))

  -- The previous run is active and overlaps are skipped.
  unfoldable pub do_skip : ScheduledTaskRecord → ℕ → Batch → BackgroundScheduler S → Step port o
  do_skip schedule now batch m =
      let now_iso = o.to_iso now in
      let run =
        skipped_run
          (new_run port o schedule ScheduleTrigger.scheduled
            (o.to_iso (chosen_ms schedule.missed_policy batch)) m)
          now_iso in
      let updated =
        handled schedule now_iso (o.to_iso (pointer_after port o schedule batch.latest_ms now))
          (o.to_iso batch.latest_ms) (some ScheduledRunStatus.skipped) (excess batch) in
      after_write port o (port.save_run run) (count_run port o m) (λ m1.
        after_write port o (port.save_schedule updated) (prune_runs port o schedule.id m1) (λ m2. (
          emit port o schedule ScheduleEventType.run_skipped (some run.run_id)
              (some ScheduledRunStatus.skipped)
              (emit port o schedule ScheduleEventType.due none none m2),
          some TickOutcome.skipped,
        )))

  -- The previous run is active and one occurrence waits for it.
  unfoldable pub do_park : ScheduledTaskRecord → ℕ → Batch → BackgroundScheduler S → Step port o
  do_park schedule now batch m =
      let run =
        new_run port o schedule ScheduleTrigger.scheduled
          (o.to_iso (chosen_ms schedule.missed_policy batch)) m in
      let updated =
        handled schedule (o.to_iso now)
          (o.to_iso (pointer_after port o schedule batch.latest_ms now)) (o.to_iso batch.latest_ms)
          (some ScheduledRunStatus.pending) (excess batch) in
      after_write port o (port.save_run run) (count_run port o m) (λ m1.
        let m2 = prune_runs port o schedule.id m1 in
        after_write port o (port.set_queued_run_id schedule.id (some run.run_id))
          (record m2 { parked_runs = Dict.set schedule.id run.run_id m2.parked_runs })
          (λ m3. after_write port o (port.save_schedule updated) m3 (λ m4.
            (emit port o schedule ScheduleEventType.due none none m4, some TickOutcome.queued))))

  -- One occurrence waits already.
  unfoldable pub do_collapse : ScheduledTaskRecord → ℕ → Batch → BackgroundScheduler S → Step port o
  do_collapse schedule now batch m =
      after_write port o
        (port.save_schedule (
          handled schedule (o.to_iso now)
            (o.to_iso (pointer_after port o schedule batch.latest_ms now))
            (o.to_iso batch.latest_ms) schedule.last_run_status (excess batch + 1)))
        m (λ m1. (m1, some TickOutcome.skipped))

  unfoldable pub do_overlap : ScheduledTaskRecord → ℕ → Batch → BackgroundScheduler S → Step port o
  do_overlap schedule now batch m = elim schedule.overlap_policy [
    | OverlapPolicy.skip ↦ do_skip schedule now batch m
    | OverlapPolicy.queue_one ↦ elim (parked_run_id port o schedule.id m) [
      | none ↦ do_park schedule now batch m
      | some run ↦ do_collapse schedule now batch (remember_parked port o schedule.id m)
    ]
  ]

  abbrev pub launching : BackgroundScheduler S × TickOutcome → Step port o
  launching (m, outcome) = (m, some outcome)

  -- A pending run without a task is taken for one whose launch was lost, and is launched now.
  unfoldable pub is_adoptable : Option ScheduledRunRecord → Bool
  is_adoptable none = false
  is_adoptable (some run) = elim run.status [
    | ScheduledRunStatus.pending ↦ not (is_some run.background_task_id)
    | _ ↦ false
  ]

  unfoldable pub do_busy :
      ScheduledTaskRecord
      → ℕ
      → Batch
      → Option ScheduledRunRecord
      → BackgroundScheduler S
      → Step port o
  do_busy schedule now batch none m = do_overlap schedule now batch m
  do_busy schedule now batch (some active) m =
      if is_adoptable (some active)
      then launching (launch_recorded_run port o schedule active now batch m)
      else do_overlap schedule now batch m

  unfoldable pub do_fire : ScheduledTaskRecord → ℕ → Batch → BackgroundScheduler S → Step port o
  do_fire schedule now batch m = elim (active_run_id port o schedule.id m) [
    | some active ↦
        let m' = remember_active port o schedule.id m in
        do_busy schedule now batch (find_run port o schedule.id active m') m'
    | none ↦ launching (
        launch_recorded_run port o schedule
          (new_run port o schedule ScheduleTrigger.scheduled
            (o.to_iso (chosen_ms schedule.missed_policy batch)) m)
          now batch (count_run port o m))
  ]

  unfoldable pub run_plan : ScheduledTaskRecord → ℕ → TickPlan → BackgroundScheduler S → Step port o
  run_plan schedule now refuse m = do_refuse schedule now m
  run_plan schedule now consume m = do_consume schedule now m
  run_plan schedule now idle m = (m, some TickOutcome.quiet)
  run_plan schedule now (repair anchor) m =
      (fix_pointer schedule anchor now m, some TickOutcome.quiet)
  run_plan schedule now (drop batch) m = do_drop schedule now batch m
  run_plan schedule now (fire batch) m = do_fire schedule now batch m

  unfoldable pub tick_one : ScheduledTaskRecord → ℕ → BackgroundScheduler S → Step port o
  tick_one schedule now m = run_plan schedule now (tick_plan port o schedule now) m

  abbrev pub count_outcome : Option TickOutcome → TickSummary → TickSummary
  count_outcome none t = t
  count_outcome (some outcome) t = add_outcome outcome t

  -- The loop: invalid and disabled records are passed over, and a throw ends only its own schedule.
  unfoldable pub tick_loop :
      List ScheduledTaskRecord
      → ℕ
      → BackgroundScheduler S
      → TickSummary
      → BackgroundScheduler S × TickSummary
  tick_loop [] now m summary = (m, summary)
  tick_loop (raw ∷ rest) now m summary = elim (parse_schedule o.intl raw) [
    | none ↦ tick_loop rest now m summary
    | some schedule ↦ elim schedule.enabled [
      | false ↦ tick_loop rest now m summary
      | true ↦
          let (m', outcome) = tick_one schedule now m in
          tick_loop rest now m' (count_outcome outcome summary)
    ]
  ]

  abbrev pub no_outcomes : TickSummary
  no_outcomes = record { launched = 0; skipped = 0; queued = 0; failed = 0 }

  unfoldable pub tick : ℕ → BackgroundScheduler S → BackgroundScheduler S × TickSummary
  tick now m = elim (port.load_enabled m.store) [
    | none ↦ (m, no_outcomes)
    | some schedules ↦ tick_loop schedules now m no_outcomes
  ]
