-- ===== src/Scheduling/Scheduler/Tick/Launch.antt =====
-- background-scheduler.ts: `_launchRecordedRun`, with what a tick writes after a launch.
use ai_desktop.Base.{ℕ, suc, ◌+◌, false, Option, none, some, Text, if◌then◌else◌}
use ai_desktop.Scheduling.Contract.{
  ScheduledRunStatus, ScheduledTaskRecord, ScheduledRunRecord, ScheduleEventType, is_one_shot,
}
use ai_desktop.Scheduling.Calculator.{}
use ai_desktop.Scheduling.Store.{ScheduleStorePort}
use ai_desktop.Scheduling.Scheduler.{
  started, refused, SchedulerOptions, BackgroundScheduler, best_effort, emit, prune_runs,
  pointer_after, begin_run, running_run, failed_run, release_slot,
}
use ai_desktop.Scheduling.Scheduler.Tick.Plan.{TickOutcome, Batch, excess}

-- A schedule whose due times up to `latest` are handled.
unfoldable pub handled :
    ScheduledTaskRecord → Text → Text → Text → Option ScheduledRunStatus → ℕ → ScheduledTaskRecord
handled r now_iso next_iso latest_iso status missed = record r {
  updated_at = now_iso;
  next_run_at = next_iso;
  last_run_at = some latest_iso;
  last_run_status = status;
  missed_count = r.missed_count + missed;
}

-- One-shot schedules are disabled once they ran.
unfoldable pub retire : ScheduledTaskRecord → ScheduledTaskRecord → ScheduledTaskRecord
retire schedule r = if is_one_shot schedule.kind then record r { enabled = false } else r

module _ {S : Type 0} (port : ScheduleStorePort S) (o : SchedulerOptions) where
  -- The state after a call, and `none` for a throw.
  abbrev pub Step : Type 0
  Step = BackgroundScheduler S × Option TickOutcome

  -- The rest of a call after an unguarded write.
  abbrev pub after_write :
      (S → Option S) → BackgroundScheduler S → (BackgroundScheduler S → Step) → Step
  after_write write m k = elim (write m.store) [
    | none ↦ (m, none)
    | some s ↦ k (record m { store = s })
  ]

  -- The event at the end of an automatic disabling.
  unfoldable pub emit_disabled : ScheduledTaskRecord → BackgroundScheduler S → BackgroundScheduler S
  emit_disabled schedule m = emit port o schedule ScheduleEventType.disabled none none m

  -- The aftermath of a launch that succeeded.
  unfoldable pub after_launch :
      ScheduledTaskRecord
      → ScheduledRunRecord
      → ℕ
      → Batch
      → Text
      → BackgroundScheduler S
      → BackgroundScheduler S
  after_launch schedule run now batch task m =
      let now_iso = o.to_iso now in
      let running = running_run port o run task now_iso in
      let updated =
        retire schedule
          (record (handled schedule now_iso
            (o.to_iso (pointer_after port o schedule batch.latest_ms now))
            (o.to_iso batch.latest_ms) (some ScheduledRunStatus.running) (excess batch)) {
              run_count = suc schedule.run_count;
            }) in
      let m' =
        best_effort port o (port.save_schedule updated)
          (prune_runs port o schedule.id (best_effort port o (port.save_run running) m)) in
      let m'' =
        emit port o schedule ScheduleEventType.run_started (some run.run_id)
          (some ScheduledRunStatus.running)
          (emit port o schedule ScheduleEventType.due none none m') in
      if is_one_shot schedule.kind then emit_disabled schedule m'' else m''

  -- The aftermath of a launch that failed: the due times are handled all the same.
  unfoldable pub after_failure :
      ScheduledTaskRecord
      → ScheduledRunRecord
      → ℕ
      → Batch
      → Text
      → Text
      → BackgroundScheduler S
      → BackgroundScheduler S
  after_failure schedule run now batch code message m =
      let now_iso = o.to_iso now in
      let failed = failed_run port o run code message now_iso in
      let updated = retire schedule (
        handled schedule now_iso (o.to_iso (pointer_after port o schedule batch.latest_ms now))
          (o.to_iso batch.latest_ms) (some ScheduledRunStatus.failed) (excess batch)) in
      emit port o schedule ScheduleEventType.run_failed (some run.run_id)
        (some ScheduledRunStatus.failed)
        (best_effort port o (port.save_schedule updated) (
          release_slot port o schedule.id
            (prune_runs port o schedule.id (best_effort port o (port.save_run failed) m))))

  unfoldable pub launch_recorded_run :
      ScheduledTaskRecord
      → ScheduledRunRecord
      → ℕ
      → Batch
      → BackgroundScheduler S
      → BackgroundScheduler S × TickOutcome
  launch_recorded_run schedule run now batch m =
      let (m', outcome) = begin_run port o schedule run m in
      elim outcome [
        | started task ↦ (after_launch schedule run now batch task m', TickOutcome.launched)
        | refused code message ↦
            (after_failure schedule run now batch code message m', TickOutcome.failed)
      ]
