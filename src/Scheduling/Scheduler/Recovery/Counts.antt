-- ===== src/Scheduling/Scheduler/Recovery/Counts.antt =====
-- background-scheduler.ts: the summary of `recover`, and that it launches nothing.
use ai_desktop.Base.{
  ℕ, suc, ◌+◌, ◌≤◌, ◌≡◌, refl, Option, some, List, [], ◌∷◌, ◌++◌, Text, inl, inr, arith, Bool-cases,
  Option-cases, length, includes, text_eq,
}
use ai_desktop.Base.Dict
use ai_desktop.Secrets.{field_has_secrets}
use ai_desktop.Scheduling.Contract.{
  ScheduledRunStatus, ScheduleEventType, ScheduledTaskRecord, ScheduledRunRecord, parse_schedule,
  parse_run,
}
use ai_desktop.Scheduling.Store.{ScheduleStorePort}
use ai_desktop.Scheduling.Scheduler.{
  SchedulerOptions, BackgroundScheduler, schedule_has_secrets, active_run_id,
}
use ai_desktop.Scheduling.Scheduler.Launches.{emit-launches, best_effort-launches}
use ai_desktop.Scheduling.Scheduler.Recovery.{
  RecoverSummary, signature, recompute_pointer, Recovering, store_recomputed, recover_schedule,
  recover_schedules, claim, claim_active, claim_parked, emit_run_recovered, recover_run,
  recover_runs, recover, is_same, parse_value, is_open_run,
}

-- The values that the summary accounts for.
abbrev pub counted : RecoverSummary → ℕ
counted t = t.validated + t.rejected + t.recovered_runs

module _ {S : Type 0} (port : ScheduleStorePort S) (o : SchedulerOptions) where
  -- From `m` and `t` on, nothing was launched and `n` more values are counted, the recomputed ones among the valid.
  abbrev pub Counts : BackgroundScheduler S → RecoverSummary → ℕ → Recovering port o → Type 0
  Counts m t n (m', t') =
      (m'.launches ≡ m.launches)
      × (counted t' ≡ n + counted t)
      × (t'.recomputed + t.validated ≤ t'.validated + t.recomputed)

  store_recomputed-Counts :
      (r updated : ScheduledTaskRecord) (m : BackgroundScheduler S) (t : RecoverSummary)
      → Counts m t 1 (store_recomputed port o r updated m t)
  unfolding store_recomputed
  store_recomputed-Counts r updated m t = elim (Option-cases (port.get_schedule r.id m.store)) [
    | inl fails ↦ ground arith
    | inr (stored, p) ↦ elim (Bool-cases (is_same port o stored updated)) [
      | inl same ↦ ground arith
      | inr differs ↦ elim (Option-cases (port.save_schedule updated m.store)) [
        | inl fails ↦ ground arith
        | inr (s, q) ↦ elim (Bool-cases (text_eq updated.next_run_at r.next_run_at)) [
          | inl kept ↦ ground arith
          | inr moved ↦ ground arith
        ]
      ]
    ]
  ]

  recover_schedule-Counts :
      (r : ScheduledTaskRecord) (now : ℕ) (m : BackgroundScheduler S) (t : RecoverSummary)
      → Counts m t 1 (recover_schedule port o r now m t)
  unfolding recover_schedule
  recover_schedule-Counts r now m t = elim (Bool-cases (schedule_has_secrets r)) [
    | inl secret ↦ ground arith
    | inr clean ↦ elim (Bool-cases (includes m.recovered_sigs (signature r))) [
      | inl again ↦ ground arith
      | inr first ↦ elim (Option-cases (recompute_pointer port o r now)) [
        | inl throws ↦ ground arith
        | inr (updated, p) ↦ ground (arith, store_recomputed-Counts r updated m t)
      ]
    ]
  ]

  recover_schedules-Counts :
      (rs : List (Option ScheduledTaskRecord)) (now : ℕ) (seen : List Text)
      (m : BackgroundScheduler S) (t : RecoverSummary)
      → Counts m t (length rs) (recover_schedules port o rs now seen m t)
  unfolding recover_schedules
  recover_schedules-Counts [] now seen m t = ground arith
  recover_schedules-Counts (raw ∷ rest) now seen m t =
      elim (Option-cases (parse_value port o (parse_schedule o.intl) raw)) [
        | inl invalid ↦ ground (
          arith,
          recover_schedules-Counts rest now seen m (record t { rejected = suc t.rejected }),
        )
        | inr (r, p) ↦ elim (Bool-cases (includes seen r.id)) [
          | inl again ↦ ground (
            arith,
            recover_schedules-Counts rest now seen m (record t { rejected = suc t.rejected }),
          )
          | inr first ↦
              let (m', t') = recover_schedule port o r now m t in
              ground (
                arith,
                recover_schedule-Counts r now m t,
                recover_schedules-Counts rest now (seen ++ r.id ∷ []) m' t',
              )
        ]
      ]

  claim_active-launches :
      (run : ScheduledRunRecord) (m : BackgroundScheduler S)
      → (claim_active port o run m).launches ≡ m.launches
  claim_active-launches run m =
      best_effort-launches port o (port.set_active_run_id run.schedule_id (some run.run_id))
        (record m { active_runs = Dict.set run.schedule_id run.run_id m.active_runs })

  claim_parked-launches :
      (run : ScheduledRunRecord) (m : BackgroundScheduler S)
      → (claim_parked port o run m).launches ≡ m.launches
  claim_parked-launches run m = elim (Bool-cases (Dict.has run.schedule_id m.parked_runs)) [
    | inl waits ↦ ground arith
    | inr free ↦ ground (
      arith,
      best_effort-launches port o (port.set_queued_run_id run.schedule_id (some run.run_id))
          (record m { parked_runs = Dict.set run.schedule_id run.run_id m.parked_runs }),
    )
  ]

  claim_as :
      (status : ScheduledRunStatus) (run : ScheduledRunRecord) (m : BackgroundScheduler S)
      → run.status ≡ status
      → (claim port o run m).launches ≡ m.launches
  unfolding claim
  claim_as ScheduledRunStatus.pending run m e =
      elim (Option-cases (active_run_id port o run.schedule_id m)) [
        | inl free ↦ ground (arith, claim_active-launches run m)
        | inr (active, p) ↦ ground (arith, claim_parked-launches run m)
      ]
  claim_as ScheduledRunStatus.running run m e =
      elim (Bool-cases (Dict.has run.schedule_id m.active_runs)) [
        | inl held ↦ ground arith
        | inr free ↦ ground (arith, claim_active-launches run m)
      ]
  claim_as ScheduledRunStatus.completed run m e = ground arith
  claim_as ScheduledRunStatus.failed run m e = ground arith
  claim_as ScheduledRunStatus.skipped run m e = ground arith
  claim_as ScheduledRunStatus.cancelled run m e = ground arith

  claim-launches :
      (run : ScheduledRunRecord) (m : BackgroundScheduler S)
      → (claim port o run m).launches ≡ m.launches
  claim-launches run m = claim_as run.status run m refl

  emit_run_recovered-launches :
      (run : ScheduledRunRecord) (m : BackgroundScheduler S)
      → (emit_run_recovered port o run m).launches ≡ m.launches
  unfolding emit_run_recovered
  emit_run_recovered-launches run m = elim (Bool-cases (is_open_run port o run.status)) [
    | inr ended ↦ ground arith
    | inl opened ↦ elim (Option-cases (port.get_schedule run.schedule_id m.store)) [
      | inl fails ↦ ground arith
      | inr (stored, p) ↦ elim (Option-cases (parse_value port o (parse_schedule o.intl) stored)) [
        | inl invalid ↦ ground arith
        | inr (r, q) ↦ ground (
          arith,
          emit-launches port o r ScheduleEventType.run_recovered (some run.run_id) (some run.status)
              m,
        )
      ]
    ]
  ]

  recover_run-Counts :
      (run : ScheduledRunRecord) (m : BackgroundScheduler S) (t : RecoverSummary)
      → Counts m t 1 (recover_run port o run m t)
  unfolding recover_run
  recover_run-Counts run m t = elim (Bool-cases (field_has_secrets run.error)) [
    | inl secret ↦ ground arith
    | inr clean ↦ elim (Bool-cases (includes m.known_run_ids run.run_id)) [
      | inl again ↦ ground arith
      | inr first ↦ elim (Option-cases (port.save_run run m.store)) [
        | inl fails ↦ ground arith
        | inr (s, p) ↦
            let n = record m { known_run_ids = m.known_run_ids ++ run.run_id ∷ []; store = s } in
            ground
              (arith, claim-launches run n, emit_run_recovered-launches run (claim port o run n))
      ]
    ]
  ]

  recover_runs-Counts :
      (rs : List (Option ScheduledRunRecord)) (seen : List Text) (m : BackgroundScheduler S)
      (t : RecoverSummary)
      → Counts m t (length rs) (recover_runs port o rs seen m t)
  unfolding recover_runs
  recover_runs-Counts [] seen m t = ground arith
  recover_runs-Counts (raw ∷ rest) seen m t =
      elim (Option-cases (parse_value port o parse_run raw)) [
        | inl invalid ↦
            ground (arith, recover_runs-Counts rest seen m (record t { rejected = suc t.rejected }))
        | inr (run, p) ↦ elim (Bool-cases (includes seen run.run_id)) [
          | inl again ↦
              ground
                (arith, recover_runs-Counts rest seen m (record t { rejected = suc t.rejected }))
          | inr first ↦
              let (m', t') = recover_run port o run m t in
              ground (
                arith,
                recover_run-Counts run m t,
                recover_runs-Counts rest (seen ++ run.run_id ∷ []) m' t',
              )
        ]
      ]

  -- A recovery launches nothing, and its summary accounts for each persisted value once: as a valid schedule,
  -- as a recovered run or as rejected; the recomputed schedules are among the valid ones.
  pub recover-Counts :
      (schedules : List (Option ScheduledTaskRecord)) (runs : List (Option ScheduledRunRecord))
      (now : ℕ) (m : BackgroundScheduler S)
      → let (m', t) = recover port o schedules runs now m in
        (m'.launches ≡ m.launches)
        × (t.validated + t.rejected + t.recovered_runs ≡ length schedules + length runs)
        × (t.recomputed ≤ t.validated)
  unfolding recover
  recover-Counts schedules runs now m =
      let zeros : RecoverSummary = record {
        validated = 0;
        rejected = 0;
        recomputed = 0;
        recovered_runs = 0;
      } in
      let (m', t') = recover_schedules port o schedules now [] m zeros in
      ground (
        arith,
        recover_schedules-Counts schedules now [] m zeros,
        recover_runs-Counts runs [] m' t',
      )
