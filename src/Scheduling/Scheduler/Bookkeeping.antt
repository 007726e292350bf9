-- ===== src/Scheduling/Scheduler/Bookkeeping.antt =====
-- background-scheduler.ts over the in-memory store: each plan with a batch ends in a stored schedule that has
-- the batch handled.
use ai_desktop.Base.{
  ℕ, ◌+◌, ◌≡◌, refl, sym, ap, subst, Bool, true, false, Option, none, some, [], Text, inl, inr,
  arith, Bool-cases, Option-cases, if◌then◌else◌,
}
use ai_desktop.Base.Dict
use ai_desktop.Scheduling.Contract.{
  ScheduleTrigger, ScheduleEventType, ScheduledRunStatus, ScheduledTaskRecord, ScheduledRunRecord,
  is_one_shot,
}
use ai_desktop.Scheduling.Calculator.Due.{Within}
use ai_desktop.Scheduling.Store.{InMemoryScheduleStore, in_memory_store}
use ai_desktop.Scheduling.Scheduler.{
  SchedulerOptions, BackgroundScheduler, best_effort, emit, active_run_id, remember_active,
  parked_run_id, remember_parked, find_run, begin_run, pointer_after, new_run, count_run,
}
use ai_desktop.Scheduling.Scheduler.Tick.{
  Batch, TickPlan, refuse, consume, idle, repair, drop, fire, tick_plan, handled, retire, excess,
  chosen_ms, emit_disabled, after_launch, after_failure, launch_recorded_run, do_drop, do_skip,
  do_park, do_collapse, do_overlap, is_adoptable, do_busy, do_fire, run_plan, tick_one,
}
use ai_desktop.Scheduling.Scheduler.Launches.{OverlapPolicy-cases, LaunchOutcome-cases}
use ai_desktop.Scheduling.Scheduler.Twice.{Handled, IsQuiet, batch_in, tick_plan-Handled}

module _ (o : SchedulerOptions) where
  abbrev State : Type 0
  State = BackgroundScheduler InMemoryScheduleStore

  -- The schedule is stored with the batch handled.
  abbrev pub IsBooked : ScheduledTaskRecord → ℕ → State → Type 0
  IsBooked r latest m =
      (r' : ScheduledTaskRecord) × (Dict.get r.id m.store.schedules ≡ some r')
      × Handled o.to_iso r latest r'

  emit_keeps :
      (r : ScheduledTaskRecord) (latest : ℕ) (s : ScheduledTaskRecord) (type : ScheduleEventType)
      (run : Option Text) (status : Option ScheduledRunStatus) (m : State)
      → IsBooked r latest m
      → IsBooked r latest (emit in_memory_store o s type run status m)
  unfolding emit
  emit_keeps r latest s type run status m (r', e, h) = (r', ground (arith, e), h)

  handled-Handled :
      (r : ScheduledTaskRecord) (now_iso next_iso : Text) (latest : ℕ)
      (status : Option ScheduledRunStatus) (missed : ℕ)
      → Handled o.to_iso r latest (handled r now_iso next_iso (o.to_iso latest) status missed)
  unfolding handled
  handled-Handled r now_iso next_iso latest status missed =
      (r.enabled, now_iso, next_iso, status, r.run_count, r.missed_count + missed, refl)

  retire-Handled :
      (r s : ScheduledTaskRecord) (latest : ℕ)
      → Handled o.to_iso r latest s
      → Handled o.to_iso r latest (retire r s)
  unfolding retire
  retire-Handled r s latest (enabled, updated, next, status, runs, missed, e) =
      elim (Bool-cases (is_one_shot r.kind)) [
        | inl once ↦ (false, updated, next, status, runs, missed, ground (arith, e))
        | inr repeated ↦ (enabled, updated, next, status, runs, missed, ground (arith, e))
      ]

  -- Saving a handled schedule books it.
  save_books :
      (r s : ScheduledTaskRecord) (latest : ℕ) (m : State)
      → Handled o.to_iso r latest s
      → IsBooked r latest (best_effort in_memory_store o (in_memory_store.save_schedule s) m)
  save_books r s latest m (enabled, updated, next, status, runs, missed, e) = (
    s,
    subst (λ x. Dict.get r.id (Dict.set x.id x m.store.schedules) ≡ some x) (sym e)
        (Dict.get-set_self r.id _ m.store.schedules),
    (enabled, updated, next, status, runs, missed, e),
  )

  disable-Handled :
      (r s : ScheduledTaskRecord) (latest : ℕ)
      → Handled o.to_iso r latest s
      → Handled o.to_iso r latest (record s { enabled = false })
  disable-Handled r s latest (enabled, updated, next, status, runs, missed, e) = (
    false,
    updated,
    next,
    status,
    runs,
    missed,
    ap {A = ScheduledTaskRecord} {B = ScheduledTaskRecord} (λ x. record x { enabled = false }) e,
  )

  counted-Handled :
      (r s : ScheduledTaskRecord) (latest n : ℕ)
      → Handled o.to_iso r latest s
      → Handled o.to_iso r latest (record s { run_count = n })
  counted-Handled r s latest n (enabled, updated, next, status, runs, missed, e) = (
    enabled,
    updated,
    next,
    status,
    n,
    missed,
    ap {A = ScheduledTaskRecord} {B = ScheduledTaskRecord} (λ x. record x { run_count = n }) e,
  )

  if_books :
      (r : ScheduledTaskRecord) (latest : ℕ) (t : Bool) (m n : State)
      → IsBooked r latest m
      → IsBooked r latest n
      → IsBooked r latest (if t then m else n)
  if_books r latest true m n h k = h
  if_books r latest false m n h k = k

  ruleset books_rules = (
    emit_keeps, handled-Handled, retire-Handled, disable-Handled, counted-Handled, if_books,
    save_books,
  )

  module _ (r : ScheduledTaskRecord) (now : ℕ) (b : Batch) where
    collapse_books :
        (m : State) → IsBooked r b.latest_ms (do_collapse in_memory_store o r now b m).0
    unfolding do_collapse
    collapse_books m = save_books r _ b.latest_ms m (
        handled-Handled r (o.to_iso now)
          (o.to_iso (pointer_after in_memory_store o r b.latest_ms now)) b.latest_ms
          r.last_run_status (excess b + 1))

    drop_books : (m : State) → IsBooked r b.latest_ms (do_drop in_memory_store o r now b m).0
    unfolding do_drop emit_disabled
    drop_books m =
        let s =
          record (handled r (o.to_iso now) (o.to_iso b.latest_ms) (o.to_iso b.latest_ms)
            (some ScheduledRunStatus.skipped) 1) { enabled = false } in
        let h : Handled o.to_iso r b.latest_ms s = search books_rules in
        search (emit_keeps, save_books r s b.latest_ms _ h)

    skip_books : (m : State) → IsBooked r b.latest_ms (do_skip in_memory_store o r now b m).0
    unfolding do_skip
    skip_books m = search books_rules

    park_books : (m : State) → IsBooked r b.latest_ms (do_park in_memory_store o r now b m).0
    unfolding do_park
    park_books m = search books_rules

    after_launch_books :
        (run : ScheduledRunRecord) (task : Text) (m : State)
        → IsBooked r b.latest_ms (after_launch in_memory_store o r run now b task m)
    unfolding after_launch emit_disabled
    after_launch_books run task m = search books_rules depth 8

    after_failure_books :
        (run : ScheduledRunRecord) (code message : Text) (m : State)
        → IsBooked r b.latest_ms (after_failure in_memory_store o r run now b code message m)
    unfolding after_failure
    after_failure_books run code message m = search books_rules depth 8

    launch_books :
        (run : ScheduledRunRecord) (m : State)
        → IsBooked r b.latest_ms (launch_recorded_run in_memory_store o r run now b m).0
    unfolding launch_recorded_run
    launch_books run m = elim (LaunchOutcome-cases (begin_run in_memory_store o r run m).1) [
      | inl (task, e) ↦
          let (r', stored, h) =
            after_launch_books run task (begin_run in_memory_store o r run m).0 in
          (r', ground (arith, stored), h)
      | inr (code, message, e) ↦
          let (r', stored, h) =
            after_failure_books run code message (begin_run in_memory_store o r run m).0 in
          (r', ground (arith, stored), h)
    ]

    overlap_books : (m : State) → IsBooked r b.latest_ms (do_overlap in_memory_store o r now b m).0
    unfolding do_overlap
    overlap_books m = elim (OverlapPolicy-cases r.overlap_policy) [
      | inl skips ↦ let (r', stored, h) = skip_books m in (r', ground (arith, stored), h)
      | inr queues ↦ elim (Option-cases (parked_run_id in_memory_store o r.id m)) [
        | inl missing ↦ let (r', stored, h) = park_books m in (r', ground (arith, stored), h)
        | inr (t, q) ↦
            let (r', stored, h) = collapse_books (remember_parked in_memory_store o r.id m) in
            (r', ground (arith, stored), h)
      ]
    ]

    busy_books :
        (active : Option ScheduledRunRecord) (m : State)
        → IsBooked r b.latest_ms (do_busy in_memory_store o r now b active m).0
    unfolding do_busy
    busy_books none m = overlap_books m
    busy_books (some active) m = elim (Bool-cases (is_adoptable in_memory_store o (some active))) [
      | inl adopts ↦ let (r', stored, h) = launch_books active m in (r', ground (arith, stored), h)
      | inr held ↦ let (r', stored, h) = overlap_books m in (r', ground (arith, stored), h)
    ]

    fire_books : (m : State) → IsBooked r b.latest_ms (do_fire in_memory_store o r now b m).0
    unfolding do_fire
    fire_books m = elim (Option-cases (active_run_id in_memory_store o r.id m)) [
      | inl free ↦
          let (r', stored, h) =
            launch_books
              (new_run in_memory_store o r ScheduleTrigger.scheduled
                (o.to_iso (chosen_ms r.missed_policy b)) m)
              (count_run in_memory_store o m) in
          (r', ground (arith, stored), h)
      | inr (run, p) ↦
          let n = remember_active in_memory_store o r.id m in
          let (r', stored, h) = busy_books (find_run in_memory_store o r.id run n) n in
          (r', ground (arith, stored), h)
    ]

    plan_books :
        (plan : TickPlan) (m : State)
        → batch_in plan ≡ some b
        → IsBooked r b.latest_ms (run_plan in_memory_store o r now plan m).0
    unfolding run_plan
    plan_books refuse m e = cc
    plan_books consume m e = cc
    plan_books idle m e = cc
    plan_books (repair anchor) m e = cc
    plan_books (drop b') m e =
        subst (λ x. IsBooked r b.latest_ms (run_plan in_memory_store o r now (drop x) m).0)
          (ground arith) (drop_books m)
    plan_books (fire b') m e =
        subst (λ x. IsBooked r b.latest_ms (run_plan in_memory_store o r now (fire x) m).0)
          (ground arith) (fire_books m)

  -- Ticking a schedule twice at the same time handles its due times once: over the in-memory store, when a tick
  -- has a batch of due times to launch, skip, park or drop, the schedule is stored afterwards, whatever the
  -- launcher answered, and a further tick at the same time plans neither to launch nor to drop anything for
  -- what is stored. It is assumed that `Date.parse` reads back what `toISOString` writes for the batch's last time,
  -- and that an interval is not 0.
  pub tick_one-IsQuiet :
      (r : ScheduledTaskRecord) (now : ℕ) (b : Batch) (m : State)
      → Within r.config []
      → o.date_parse (o.to_iso b.latest_ms) ≡ some b.latest_ms
      → batch_in (tick_plan in_memory_store o r now) ≡ some b
      → (r' : ScheduledTaskRecord) × (Dict.get r.id
            (tick_one in_memory_store o r now m).0.store.schedules
          ≡ some r')
        × IsQuiet (tick_plan in_memory_store o r' now)
  unfolding tick_one
  tick_one-IsQuiet r now b m h parses planned =
      let (r', stored, done) = plan_books r now b (tick_plan in_memory_store o r now) m planned in
      (r', stored, tick_plan-Handled in_memory_store o r r' now b h parses planned done)
