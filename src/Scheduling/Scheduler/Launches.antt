-- ===== src/Scheduling/Scheduler/Launches.antt =====
-- background-scheduler.ts: the calls of the launcher that a tick makes.
pub mod Once
use ai_desktop.Base.{
  ℕ, zero, suc, ◌+◌, ◌≤◌, ◌≡◌, refl, sym, ap, ◌∙◌, Bool, true, false, if◌then◌else◌, Option, none,
  some, List, [], ◌∷◌, ◌++◌, Text, ◌⊎◌, inl, inr, arith, Bool-cases, Option-cases,
}
use ai_desktop.Base.Dict
use ai_desktop.Scheduling.Contract.{
  OverlapPolicy, ScheduleTrigger, ScheduleEventType, ScheduledRunStatus, ScheduledTaskRecord,
  ScheduledRunRecord, parse_schedule, is_one_shot,
}
use ai_desktop.Scheduling.Calculator.{next_pointer_after_now}
use ai_desktop.Scheduling.Store.{ScheduleStorePort}
use ai_desktop.Scheduling.Scheduler.{
  LaunchInput, LaunchOutcome, started, refused, SchedulerOptions, BackgroundScheduler,
  schedule_has_secrets, best_effort, emit, count_run, active_run_id, remember_active, parked_run_id,
  remember_parked, find_run, delete_all, victims, prune_runs, begin_run, release_slot, new_run,
  query_of,
}
use ai_desktop.Scheduling.Scheduler.Tick.{
  TickSummary, TickOutcome, TickPlan, refuse, consume, idle, repair, drop, fire, Batch, Step,
  tick_plan, after_write, emit_disabled, after_launch, after_failure, launch_recorded_run,
  do_refuse, do_consume, fix_pointer, do_drop, do_skip, do_park, do_collapse, do_overlap,
  is_adoptable, do_busy, do_fire, run_plan, tick_one, tick_loop, tick, is_consumed, chosen_ms,
}

-- What a schedule asks of the launcher.
abbrev pub input_of : ScheduledTaskRecord → LaunchInput
input_of r = record { project_id = r.project_id; goal = r.prompt; title = r.name }

pub OverlapPolicy-cases :
    (p : OverlapPolicy) → (p ≡ OverlapPolicy.skip) ⊎ (p ≡ OverlapPolicy.queue_one)
OverlapPolicy-cases OverlapPolicy.skip = inl refl
OverlapPolicy-cases OverlapPolicy.queue_one = inr refl

pub LaunchOutcome-cases :
    (a : LaunchOutcome)
    → ((task : Text) × (a ≡ started task)) ⊎ ((code message : Text) × (a ≡ refused code message))
LaunchOutcome-cases (started task) = inl (task, refl)
LaunchOutcome-cases (refused code message) = inr (code, message, refl)

module _ {S : Type 0} (port : ScheduleStorePort S) (o : SchedulerOptions) where
  pub best_effort-launches :
      (write : S → Option S) (m : BackgroundScheduler S)
      → (best_effort port o write m).launches ≡ m.launches
  best_effort-launches write m = elim (Option-cases (write m.store)) [
    | inl missing ↦ ground arith
    | inr (s, p) ↦ ground arith
  ]

  pub emit-launches :
      (r : ScheduledTaskRecord) (type : ScheduleEventType) (run : Option Text)
      (status : Option ScheduledRunStatus) (m : BackgroundScheduler S)
      → (emit port o r type run status m).launches ≡ m.launches
  unfolding emit
  emit-launches r type run status m = ground arith

  pub remember_active-launches :
      (id : Text) (m : BackgroundScheduler S) → (remember_active port o id m).launches ≡ m.launches
  unfolding remember_active
  remember_active-launches id m = elim (Option-cases (active_run_id port o id m)) [
    | inl missing ↦ ground arith
    | inr (s, p) ↦ ground arith
  ]

  pub remember_parked-launches :
      (id : Text) (m : BackgroundScheduler S) → (remember_parked port o id m).launches ≡ m.launches
  unfolding remember_parked
  remember_parked-launches id m = elim (Option-cases (parked_run_id port o id m)) [
    | inl missing ↦ ground arith
    | inr (s, p) ↦ ground arith
  ]

  delete_all-launches :
      (rs : List ScheduledRunRecord) (m : BackgroundScheduler S)
      → (delete_all port o rs m).launches ≡ m.launches
  unfolding delete_all
  delete_all-launches [] m = refl
  delete_all-launches (r ∷ rs) m =
      delete_all-launches rs (best_effort port o (port.delete_run r.run_id) m)
      ∙ best_effort-launches (port.delete_run r.run_id) m

  pub prune_runs-launches :
      (id : Text) (m : BackgroundScheduler S) → (prune_runs port o id m).launches ≡ m.launches
  unfolding prune_runs
  prune_runs-launches id m = elim (Option-cases (port.list_runs id m.store)) [
    | inl missing ↦ ground arith
    | inr (runs, p) ↦ ground (
      arith,
      delete_all-launches
          (victims o.max_runs (Dict.get id m.active_runs) (Dict.get id m.parked_runs) runs) m,
    )
  ]

  pub release_slot-launches :
      (id : Text) (m : BackgroundScheduler S) → (release_slot port o id m).launches ≡ m.launches
  unfolding release_slot
  release_slot-launches id m =
      best_effort-launches (port.set_active_run_id id none)
        (record m { active_runs = Dict.delete id m.active_runs })

  abbrev pub Launched : List LaunchInput → BackgroundScheduler S → Type 0
  Launched l m = m.launches ≡ l

  module _ (l : List LaunchInput) where
    emit_keeps :
        (r : ScheduledTaskRecord) (type : ScheduleEventType) (run : Option Text)
        (status : Option ScheduledRunStatus) (m : BackgroundScheduler S)
        → Launched l m
        → Launched l (emit port o r type run status m)
    emit_keeps r type run status m h = emit-launches r type run status m ∙ h

    best_effort_keeps :
        (write : S → Option S) (m : BackgroundScheduler S)
        → Launched l m
        → Launched l (best_effort port o write m)
    best_effort_keeps write m h = best_effort-launches write m ∙ h

    prune_keeps :
        (id : Text) (m : BackgroundScheduler S) → Launched l m → Launched l (prune_runs port o id m)
    prune_keeps id m h = prune_runs-launches id m ∙ h

    release_keeps :
        (id : Text) (m : BackgroundScheduler S)
        → Launched l m
        → Launched l (release_slot port o id m)
    release_keeps id m h = release_slot-launches id m ∙ h

    parked_keeps :
        (id : Text) (m : BackgroundScheduler S)
        → Launched l m
        → Launched l (remember_parked port o id m)
    parked_keeps id m h = remember_parked-launches id m ∙ h

    count_keeps : (m : BackgroundScheduler S) → Launched l m → Launched l (count_run port o m)
    unfolding count_run
    count_keeps m h = h

    -- A write that throws changes nothing, and one that does not keeps what comes after it.
    after_write_keeps :
        (write : S → Option S) (m : BackgroundScheduler S) (k : BackgroundScheduler S → Step port o)
        → Launched l m
        → ((n : BackgroundScheduler S) → Launched l n → Launched l (k n).0)
        → Launched l (after_write port o write m k).0
    after_write_keeps write m k h kept = elim (Option-cases (write m.store)) [
      | inl missing ↦ ground arith
      | inr (s, p) ↦ ground (arith, kept (record m { store = s }) h)
    ]

    ruleset keeps_rules = (
      emit_keeps, best_effort_keeps, prune_keeps, release_keeps, parked_keeps, count_keeps,
      after_write_keeps,
    )

    pub refuse_keeps :
        (r : ScheduledTaskRecord) (now : ℕ) (m : BackgroundScheduler S)
        → Launched l m
        → Launched l (do_refuse port o r now m).0
    unfolding do_refuse emit_disabled
    refuse_keeps r now m h = search keeps_rules

    park_keeps :
        (r : ScheduledTaskRecord) (now : ℕ) (b : Batch) (m : BackgroundScheduler S)
        → Launched l m
        → Launched l (do_park port o r now b m).0
    unfolding do_park
    park_keeps r now b m h = search keeps_rules

    pub fix_keeps :
        (r : ScheduledTaskRecord) (anchor now : ℕ) (m : BackgroundScheduler S)
        → Launched l m
        → Launched l (fix_pointer port o r anchor now m)
    unfolding fix_pointer
    fix_keeps r anchor now m h =
        elim (Option-cases (
          next_pointer_after_now o.intl o.date_parse o.min_interval_ms (query_of o.date_parse r)
            anchor (is_consumed o.date_parse r) now)) [
              | inl missing ↦ ground (arith, h)
              | inr (expected, p) ↦ elim (Option-cases expected) [
                | inl missing ↦ ground (arith, h)
                | inr (t, q) ↦ ground (
                  arith,
                  best_effort_keeps
                      (port.save_schedule
                        (record r { updated_at = o.to_iso now; next_run_at = o.to_iso t }))
                      m h,
                )
              ]
            ]

    skip_keeps :
        (r : ScheduledTaskRecord) (now : ℕ) (b : Batch) (m : BackgroundScheduler S)
        → Launched l m
        → Launched l (do_skip port o r now b m).0
    unfolding do_skip
    skip_keeps r now b m h = search keeps_rules

    pub drop_keeps :
        (r : ScheduledTaskRecord) (now : ℕ) (b : Batch) (m : BackgroundScheduler S)
        → Launched l m
        → Launched l (do_drop port o r now b m).0
    unfolding do_drop emit_disabled
    drop_keeps r now b m h = search keeps_rules

    pub consume_keeps :
        (r : ScheduledTaskRecord) (now : ℕ) (m : BackgroundScheduler S)
        → Launched l m
        → Launched l (do_consume port o r now m).0
    unfolding do_consume emit_disabled
    consume_keeps r now m h = search keeps_rules

    collapse_keeps :
        (r : ScheduledTaskRecord) (now : ℕ) (b : Batch) (m : BackgroundScheduler S)
        → Launched l m
        → Launched l (do_collapse port o r now b m).0
    unfolding do_collapse
    collapse_keeps r now b m h = search keeps_rules

    pub overlap_keeps :
        (r : ScheduledTaskRecord) (now : ℕ) (b : Batch) (m : BackgroundScheduler S)
        → Launched l m
        → Launched l (do_overlap port o r now b m).0
    unfolding do_overlap
    overlap_keeps r now b m h = elim (OverlapPolicy-cases r.overlap_policy) [
      | inl skips ↦ ground (arith, skip_keeps r now b m h)
      | inr queues ↦ elim (Option-cases (parked_run_id port o r.id m)) [
        | inl missing ↦ ground (arith, park_keeps r now b m h)
        | inr (t, q) ↦
            ground (
              arith,
              collapse_keeps r now b (remember_parked port o r.id m) (parked_keeps r.id m h),
            )
      ]
    ]

    if_keeps :
        (t : Bool) (m n : BackgroundScheduler S)
        → Launched l m
        → Launched l n
        → Launched l (if t then m else n)
    if_keeps true m n h k = h
    if_keeps false m n h k = k

    after_launch_keeps :
        (r : ScheduledTaskRecord) (run : ScheduledRunRecord) (now : ℕ) (b : Batch) (task : Text)
        (m : BackgroundScheduler S)
        → Launched l m
        → Launched l (after_launch port o r run now b task m)
    unfolding after_launch emit_disabled
    after_launch_keeps r run now b task m h = search (keeps_rules, if_keeps) depth 8

    after_failure_keeps :
        (r : ScheduledTaskRecord) (run : ScheduledRunRecord) (now : ℕ) (b : Batch)
        (code message : Text) (m : BackgroundScheduler S)
        → Launched l m
        → Launched l (after_failure port o r run now b code message m)
    unfolding after_failure
    after_failure_keeps r run now b code message m h = search keeps_rules

    launch_keeps :
        (r : ScheduledTaskRecord) (run : ScheduledRunRecord) (now : ℕ) (b : Batch)
        (m : BackgroundScheduler S)
        → Launched l (begin_run port o r run m).0
        → Launched l (launch_recorded_run port o r run now b m).0
    unfolding launch_recorded_run
    launch_keeps r run now b m h = elim (LaunchOutcome-cases (begin_run port o r run m).1) [
      | inl (task, e) ↦
          ground (arith, after_launch_keeps r run now b task (begin_run port o r run m).0 h)
      | inr (code, message, e) ↦
          ground
            (arith, after_failure_keeps r run now b code message (begin_run port o r run m).0 h)
    ]

  -- A launch is one call of the launcher at most, with what the schedule asks.
  begin_run-launches :
      (r : ScheduledTaskRecord) (run : ScheduledRunRecord) (m : BackgroundScheduler S)
      → Launched m.launches (begin_run port o r run m).0
        ⊎ Launched (m.launches ++ input_of r ∷ []) (begin_run port o r run m).0
  unfolding begin_run
  begin_run-launches r run m = elim (Option-cases (port.save_run run m.store)) [
    | inl missing ↦ inl (ground arith)
    | inr (s, p) ↦ inr (
        ground (
          arith,
          best_effort-launches (port.set_active_run_id r.id (some run.run_id))
              (record m { store = s; active_runs = Dict.set r.id run.run_id m.active_runs }),
        ))
  ]

  pub launch_recorded_run-launches :
      (r : ScheduledTaskRecord) (run : ScheduledRunRecord) (now : ℕ) (b : Batch)
      (m : BackgroundScheduler S)
      → Launched m.launches (launch_recorded_run port o r run now b m).0
        ⊎ Launched (m.launches ++ input_of r ∷ []) (launch_recorded_run port o r run now b m).0
  unfolding launch_recorded_run
  launch_recorded_run-launches r run now b m = elim (begin_run-launches r run m) [
    | inl h ↦ inl (launch_keeps m.launches r run now b m h)
    | inr h ↦ inr (launch_keeps (m.launches ++ input_of r ∷ []) r run now b m h)
  ]
