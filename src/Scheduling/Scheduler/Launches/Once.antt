-- ===== src/Scheduling/Scheduler/Launches/Once.antt =====
-- background-scheduler.ts: how many runs a tick launches, and of which schedules.
use mathlib.Core.List.{Sublistᴰ, append_assoc, append-nil}
use ai_desktop.Base.{
  ℕ, ◌≡◌, refl, sym, ap, ◌∙◌, subst, true, false, not, ◌&&◌, if◌then◌else◌, Option, none, some,
  List, [], ◌∷◌, ◌++◌, Text, ◌⊎◌, inl, inr, arith, Bool-cases, Option-cases,
}
use ai_desktop.Scheduling.Contract.{
  ScheduleTrigger, ScheduledRunStatus, ScheduledTaskRecord, ScheduledRunRecord, parse_schedule,
}
use ai_desktop.Scheduling.Store.{ScheduleStorePort}
use ai_desktop.Scheduling.Scheduler.{
  LaunchInput, SchedulerOptions, BackgroundScheduler, schedule_has_secrets, count_run,
  active_run_id, remember_active, find_run, new_run,
}
use ai_desktop.Scheduling.Scheduler.Tick.{
  is_some, TickSummary, TickPlan, refuse, consume, idle, repair, drop, fire, Batch, tick_plan,
  is_adoptable, do_busy, do_fire, run_plan, tick_one, tick_loop, tick, chosen_ms, count_outcome,
  no_outcomes,
}
use ai_desktop.Scheduling.Scheduler.Launches.{
  input_of, remember_active-launches, refuse_keeps, fix_keeps, drop_keeps, consume_keeps,
  overlap_keeps, launch_recorded_run-launches,
}

module _ {S : Type 0} (port : ScheduleStorePort S) (o : SchedulerOptions) where
  -- A stored run that is pending and has no task.
  abbrev pub IsUnstarted : Option ScheduledRunRecord → Type 0
  IsUnstarted found =
      (run : ScheduledRunRecord) × (found ≡ some run)
      × (run.status ≡ ScheduledRunStatus.pending)
      × (run.background_task_id ≡ none)

  -- No run is active, or the active one is stored as pending and without a task.
  abbrev pub IsFree : ScheduledTaskRecord → BackgroundScheduler S → Type 0
  IsFree r m =
      (active_run_id port o r.id m ≡ none)
      ⊎ ((run : Text) × (active_run_id port o r.id m ≡ some run)
          × IsUnstarted (find_run port o r.id run m))

  pending_without_task :
      (status : ScheduledRunStatus) (task : Option Text)
      → (elim status [ ScheduledRunStatus.pending ↦ not (is_some task) | _ ↦ false ]) ≡ true
      → (status ≡ ScheduledRunStatus.pending) × (task ≡ none)
  pending_without_task ScheduledRunStatus.pending none h = (refl, refl)
  pending_without_task ScheduledRunStatus.pending (some t) h = cc
  pending_without_task ScheduledRunStatus.running task h = cc
  pending_without_task ScheduledRunStatus.completed task h = cc
  pending_without_task ScheduledRunStatus.failed task h = cc
  pending_without_task ScheduledRunStatus.skipped task h = cc
  pending_without_task ScheduledRunStatus.cancelled task h = cc

  is_adoptable-IsUnstarted :
      (found : Option ScheduledRunRecord) → is_adoptable port o found ≡ true → IsUnstarted found
  unfolding is_adoptable
  is_adoptable-IsUnstarted none h = cc
  is_adoptable-IsUnstarted (some run) h =
      let (waits, blank) = pending_without_task run.status run.background_task_id h in
      (run, refl, waits, blank)

  -- Nothing was launched, or one run of this schedule, which has no secret and was free.
  abbrev pub OneLaunch :
      ScheduledTaskRecord → BackgroundScheduler S → BackgroundScheduler S → Type 0
  OneLaunch r m n =
      (n.launches ≡ m.launches)
      ⊎ ((n.launches ≡ m.launches ++ input_of r ∷ [])
          × (schedule_has_secrets r ≡ false)
          × IsFree r m)

  do_busy-launches :
      (r : ScheduledTaskRecord) (now : ℕ) (b : Batch) (active : Option ScheduledRunRecord)
      (m : BackgroundScheduler S)
      → ((do_busy port o r now b active m).0.launches ≡ m.launches)
        ⊎ (((do_busy port o r now b active m).0.launches ≡ m.launches ++ input_of r ∷ [])
            × (is_adoptable port o active ≡ true))
  unfolding do_busy
  do_busy-launches r now b none m = inl (overlap_keeps port o m.launches r now b m refl)
  do_busy-launches r now b (some active) m = elim (Bool-cases (is_adoptable port o (some active))) [
    | inl adopts ↦ elim (launch_recorded_run-launches port o r active now b m) [
      | inl h ↦ inl (ground (arith, h))
      | inr h ↦ inr (ground (arith, h), adopts)
    ]
    | inr held ↦ inl (ground (arith, overlap_keeps port o m.launches r now b m refl))
  ]

  remember_active-find_run :
      (id key run : Text) (m : BackgroundScheduler S)
      → find_run port o id run (remember_active port o key m) ≡ find_run port o id run m
  unfolding find_run remember_active
  remember_active-find_run id key run m = elim (Option-cases (active_run_id port o key m)) [
    | inl missing ↦ ground arith
    | inr (a, p) ↦ ground arith
  ]

  do_fire-launches :
      (r : ScheduledTaskRecord) (now : ℕ) (b : Batch) (m : BackgroundScheduler S)
      → schedule_has_secrets r ≡ false
      → OneLaunch r m (do_fire port o r now b m).0
  unfolding do_fire count_run
  do_fire-launches r now b m clean = elim (Option-cases (active_run_id port o r.id m)) [
    | inl free ↦
        elim (launch_recorded_run-launches port o r
          (new_run port o r ScheduleTrigger.scheduled (o.to_iso (chosen_ms r.missed_policy b)) m)
          now b (count_run port o m)) [
            | inl h ↦ inl (ground (arith, h))
            | inr h ↦ inr (ground (arith, h), clean, inl free)
          ]
    | inr (run, p) ↦
        let n = remember_active port o r.id m in
        elim (do_busy-launches r now b (find_run port o r.id run n) n) [
          | inl h ↦ inl (ground (arith, h, remember_active-launches port o r.id m))
          | inr (h, adopted) ↦ inr (
            ground (arith, h, remember_active-launches port o r.id m),
            clean,
            inr (
              run,
              p,
              is_adoptable-IsUnstarted (find_run port o r.id run m) (
                  ap (is_adoptable port o) (sym (remember_active-find_run r.id r.id run m))
                  ∙ adopted),
            ),
          )
        ]
  ]

  -- The plan fires for a schedule without secrets only.
  tick_plan-fire :
      (r : ScheduledTaskRecord) (now : ℕ) (b : Batch)
      → tick_plan port o r now ≡ fire b
      → schedule_has_secrets r ≡ false
  unfolding tick_plan
  tick_plan-fire r now b e = elim (Bool-cases (schedule_has_secrets r)) [
    | inl secret ↦ absurd (ground arith)
    | inr clean ↦ clean
  ]

  run_plan-launches :
      (r : ScheduledTaskRecord) (now : ℕ) (plan : TickPlan) (m : BackgroundScheduler S)
      → ((b : Batch) → plan ≡ fire b → schedule_has_secrets r ≡ false)
      → OneLaunch r m (run_plan port o r now plan m).0
  unfolding run_plan
  run_plan-launches r now refuse m clean = inl (refuse_keeps port o m.launches r now m refl)
  run_plan-launches r now consume m clean = inl (consume_keeps port o m.launches r now m refl)
  run_plan-launches r now idle m clean = inl refl
  run_plan-launches r now (repair anchor) m clean =
      inl (fix_keeps port o m.launches r anchor now m refl)
  run_plan-launches r now (drop b) m clean = inl (drop_keeps port o m.launches r now b m refl)
  run_plan-launches r now (fire b) m clean = do_fire-launches r now b m (clean b refl)

  -- A tick of one schedule launches nothing, or one run with the schedule's project, prompt and name; in the
  -- second case none of its texts has a secret, and either no run of it was active, or the active one was
  -- stored as pending and without a task.
  pub tick_one-OneLaunch :
      (r : ScheduledTaskRecord) (now : ℕ) (m : BackgroundScheduler S)
      → OneLaunch r m (tick_one port o r now m).0
  unfolding tick_one
  tick_one-OneLaunch r now m =
      run_plan-launches r now (tick_plan port o r now) m (tick_plan-fire r now)

  -- What the listed schedules may ask: those that are valid, enabled and without secrets.
  pub launchable : List ScheduledTaskRecord → List LaunchInput
  launchable [] = []
  launchable (raw ∷ rest) =
      let others = launchable rest in
      elim (parse_schedule o.intl raw) [
        | none ↦ others
        | some r ↦ if r.enabled && not (schedule_has_secrets r) then input_of r ∷ others else others
      ]

  abbrev pub listed : Option (List ScheduledTaskRecord) → List ScheduledTaskRecord
  listed none = []
  listed (some rs) = rs

  -- The launches that came after those of `l` are among these, in the same order and each once.
  abbrev pub Adds : List LaunchInput → List LaunchInput → BackgroundScheduler S → Type 0
  Adds among l n = (us : List LaunchInput) × Sublistᴰ us among × (n.launches ≡ l ++ us)

  weaken :
      (raw r : ScheduledTaskRecord) (rest : List ScheduledTaskRecord) (us : List LaunchInput)
      → parse_schedule o.intl raw ≡ some r
      → Sublistᴰ us (launchable rest)
      → Sublistᴰ us (launchable (raw ∷ rest))
  unfolding launchable
  weaken raw r rest us p sub = elim (Bool-cases (r.enabled && not (schedule_has_secrets r))) [
    | inl may ↦ subst (Sublistᴰ us) (ground arith) (Sublistᴰ.cons {a = input_of r} sub)
    | inr never ↦ subst (Sublistᴰ us) (ground arith) sub
  ]

  tick_loop-Adds :
      (rs : List ScheduledTaskRecord) (now : ℕ) (m : BackgroundScheduler S) (t : TickSummary)
      → Adds (launchable rs) m.launches (tick_loop port o rs now m t).0
  unfolding tick_loop launchable
  tick_loop-Adds [] now m t = ([], Sublistᴰ.slnil, sym (append-nil m.launches))
  tick_loop-Adds (raw ∷ rest) now m t = elim (Option-cases (parse_schedule o.intl raw)) [
    | inl invalid ↦
        let (us, sub, e) = tick_loop-Adds rest now m t in
        (us, subst (Sublistᴰ us) (ground arith) sub, ground (arith, e))
    | inr (r, p) ↦ elim (Bool-cases r.enabled) [
      | inl enabled ↦
          let n = (tick_one port o r now m).0 in
          let (us, sub, e) =
            tick_loop-Adds rest now n (count_outcome port o (tick_one port o r now m).1 t) in
          elim (tick_one-OneLaunch r now m) [
            | inl same ↦ (us, weaken raw r rest us p sub, ground (arith, e, same))
            | inr (more, clean, free) ↦ (
              input_of r ∷ us,
              subst (Sublistᴰ (input_of r ∷ us)) (ground arith) (Sublistᴰ.cons-cons refl sub),
              ground (arith, e, more, append_assoc m.launches (input_of r ∷ []) us),
            )
          ]
      | inr disabled ↦
          let (us, sub, e) = tick_loop-Adds rest now m t in
          (us, weaken raw r rest us p sub, ground (arith, e))
    ]
  ]

  -- The launches of a tick are those of enabled schedules that the store lists, that are valid and hold no
  -- secret, each launched once at most and in the order of the list; a store that fails launches nothing.
  pub tick-Adds :
      (now : ℕ) (m : BackgroundScheduler S)
      → Adds (launchable (listed (port.load_enabled m.store))) m.launches (tick port o now m).0
  unfolding tick launchable
  tick-Adds now m = elim (Option-cases (port.load_enabled m.store)) [
    | inl missing ↦ (
      [],
      subst (Sublistᴰ []) (ap launchable (ap listed (sym missing))) Sublistᴰ.slnil,
      ground (arith, append-nil m.launches),
    )
    | inr (rs, p) ↦
        let (us, sub, e) = tick_loop-Adds rs now m (no_outcomes port o) in
        (us, subst (Sublistᴰ us) (ap launchable (ap listed (sym p))) sub, ground (arith, e))
  ]
