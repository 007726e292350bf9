-- ===== src/Scheduling/Scheduler/Recovery.antt =====
-- background-scheduler.ts: `recover`, on persisted values that are records of the right types or not (`none`).
pub mod Counts
use ai_desktop.Base.{
  ℕ, suc, Bool, true, false, not, ◌&&◌, ◌||◌, Option, none, some, List, [], ◌∷◌, ◌++◌, Text, codes,
  if◌then◌else◌, text_eq, includes,
}
use ai_desktop.Base.Dict
use ai_desktop.Secrets.{field_has_secrets}
use ai_desktop.Scheduling.Contract.{
  MissedPolicy, ScheduledRunStatus, ScheduledTaskRecord, ScheduledRunRecord, ScheduleEventType,
  parse_schedule, parse_run,
}
use ai_desktop.Scheduling.Calculator.{DueResult, count_due_occurrences, next_pointer_after_now}
use ai_desktop.Scheduling.Store.{ScheduleStorePort}
use ai_desktop.Scheduling.Scheduler.{
  SchedulerOptions, BackgroundScheduler, schedule_has_secrets, query_of, best_effort, emit,
  active_run_id,
}
use ai_desktop.Scheduling.Scheduler.Tick.{
  Batch, batch_of, chosen_ms, anchor_of, is_consumed, window_of,
}

pub record RecoverSummary : Type 0 where
  pub validated : ℕ
  pub rejected : ℕ
  pub recomputed : ℕ
  pub recovered_runs : ℕ

abbrev pub reject : RecoverSummary → RecoverSummary
reject t = record t { rejected = suc t.rejected }

abbrev pub validate : RecoverSummary → RecoverSummary
validate t = record t { validated = suc t.validated }

abbrev pub recovered : RecoverSummary → RecoverSummary
recovered t = record t { recovered_runs = suc t.recovered_runs }

-- `${key}:${schedule.updatedAt}`.
abbrev pub signature : ScheduledTaskRecord → Text
signature r = r.id ++ (b':' ∷ r.updated_at)

module _ {S : Type 0} (port : ScheduleStorePort S) (o : SchedulerOptions) where
  unfoldable pub with_pointer : ScheduledTaskRecord → ℕ → ScheduledTaskRecord
  with_pointer r t = record r { next_run_at = o.to_iso t }

  -- Nothing is due: the next time, if there is one.
  unfoldable pub point_ahead : ScheduledTaskRecord → ℕ → ℕ → Option ScheduledTaskRecord
  point_ahead r anchor now =
      elim (next_pointer_after_now o.intl o.date_parse o.min_interval_ms (query_of o.date_parse r)
        anchor (is_consumed o.date_parse r) now) [
          | none ↦ none
          | some next ↦ elim next [ none ↦ some r | some t ↦ some (with_pointer r t) ]
        ]

  unfoldable pub point : ScheduledTaskRecord → ℕ → ℕ → Option DueResult → Option ScheduledTaskRecord
  point r anchor now none = none
  point r anchor now (some due) = elim (batch_of due.count due.earliest_ms due.latest_ms) [
    | some batch ↦ some (with_pointer r (chosen_ms r.missed_policy batch))
    | none ↦ point_ahead r anchor now
  ]

  -- `_recomputePointer`; `none` is a throw. Writing the same pointer changes nothing.
  unfoldable pub recompute_pointer : ScheduledTaskRecord → ℕ → Option ScheduledTaskRecord
  recompute_pointer r now =
      if is_consumed o.date_parse r then some r else elim (anchor_of o.date_parse r) [
        | none ↦ none
        | some anchor ↦ point r anchor now (
            count_due_occurrences o.intl o.date_parse o.min_interval_ms
              (window_of o.date_parse r anchor now))
      ]

  abbrev pub Recovering : Type 0
  Recovering = BackgroundScheduler S × RecoverSummary

  abbrev remember_sig : ScheduledTaskRecord → BackgroundScheduler S → BackgroundScheduler S
  remember_sig r m = record m { recovered_sigs = m.recovered_sigs ++ signature r ∷ [] }

  abbrev pub is_same : Option ScheduledTaskRecord → ScheduledTaskRecord → Bool
  is_same none r = false
  is_same (some stored) r = text_eq (o.stringify stored) (o.stringify r)

  -- The store's version, and the write if it is another one.
  unfoldable pub store_recomputed :
      ScheduledTaskRecord
      → ScheduledTaskRecord
      → BackgroundScheduler S
      → RecoverSummary
      → Recovering
  store_recomputed r updated m t = elim (port.get_schedule r.id m.store) [
    | none ↦ (m, reject t)
    | some stored ↦
        if is_same stored updated
        then (remember_sig r m, validate t)
        else elim (port.save_schedule updated m.store) [
          | none ↦ (m, reject t)
          | some s ↦ (
            remember_sig r (record m { store = s }),
            (if text_eq updated.next_run_at r.next_run_at
                then validate t
                else record (validate t) { recomputed = suc t.recomputed }),
          )
        ]
  ]

  unfoldable pub recover_schedule :
      ScheduledTaskRecord → ℕ → BackgroundScheduler S → RecoverSummary → Recovering
  recover_schedule r now m t =
      if schedule_has_secrets r
      then (m, reject t)
      else (if includes m.recovered_sigs (signature r)
          then (m, validate t)
          else elim (recompute_pointer r now) [
            | none ↦ (m, reject t)
            | some updated ↦ store_recomputed r updated m t
          ])

  abbrev pub parse_value {ℓ κ} : {A : Type ℓ} {B : Type κ} → (A → Option B) → Option A → Option B
  parse_value parse none = none
  parse_value parse (some a) = parse a

  -- The loop over the schedules; `seen` are the ids of the batch.
  unfoldable pub recover_schedules :
      List (Option ScheduledTaskRecord)
      → ℕ
      → List Text
      → BackgroundScheduler S
      → RecoverSummary
      → Recovering
  recover_schedules [] now seen m t = (m, t)
  recover_schedules (raw ∷ rest) now seen m t = elim (parse_value (parse_schedule o.intl) raw) [
    | none ↦ recover_schedules rest now seen m (reject t)
    | some r ↦ elim (includes seen r.id) [
      | true ↦ recover_schedules rest now seen m (reject t)
      | false ↦
          let (m', t') = recover_schedule r now m t in
          recover_schedules rest now (seen ++ r.id ∷ []) m' t'
    ]
  ]

  abbrev pub claim_active : ScheduledRunRecord → BackgroundScheduler S → BackgroundScheduler S
  claim_active run m =
      best_effort port o (port.set_active_run_id run.schedule_id (some run.run_id))
        (record m { active_runs = Dict.set run.schedule_id run.run_id m.active_runs })

  abbrev pub claim_parked : ScheduledRunRecord → BackgroundScheduler S → BackgroundScheduler S
  claim_parked run m =
      if Dict.has run.schedule_id m.parked_runs
      then m
      else best_effort port o (port.set_queued_run_id run.schedule_id (some run.run_id))
          (record m { parked_runs = Dict.set run.schedule_id run.run_id m.parked_runs })

  -- A running run takes the free slot; a pending one takes it or waits.
  unfoldable pub claim : ScheduledRunRecord → BackgroundScheduler S → BackgroundScheduler S
  claim run m = elim run.status [
    | ScheduledRunStatus.running ↦
        if Dict.has run.schedule_id m.active_runs then m else claim_active run m
    | ScheduledRunStatus.pending ↦ elim (active_run_id port o run.schedule_id m) [
      | none ↦ claim_active run m
      | some active ↦ claim_parked run m
    ]
    | _ ↦ m
  ]

  abbrev pub is_open_run : ScheduledRunStatus → Bool
  is_open_run ScheduledRunStatus.pending = true
  is_open_run ScheduledRunStatus.running = true
  is_open_run _ = false

  -- `_emitRunRecovered`.
  unfoldable pub emit_run_recovered :
      ScheduledRunRecord → BackgroundScheduler S → BackgroundScheduler S
  emit_run_recovered run m =
      if is_open_run run.status
      then elim (port.get_schedule run.schedule_id m.store) [
        | none ↦ m
        | some stored ↦ elim (parse_value (parse_schedule o.intl) stored) [
          | none ↦ m
          | some r ↦
              emit port o r ScheduleEventType.run_recovered (some run.run_id) (some run.status) m
        ]
      ]
      else m

  unfoldable pub recover_run :
      ScheduledRunRecord → BackgroundScheduler S → RecoverSummary → Recovering
  recover_run run m t =
      if field_has_secrets run.error
      then (m, reject t)
      else (if includes m.known_run_ids run.run_id
          then (m, recovered t)
          else (let m1 = record m { known_run_ids = m.known_run_ids ++ run.run_id ∷ [] } in
              elim (port.save_run run m1.store) [
                | none ↦ (m1, reject t)
                | some s ↦
                    (emit_run_recovered run (claim run (record m1 { store = s })), recovered t)
              ]))

  unfoldable pub recover_runs :
      List (Option ScheduledRunRecord)
      → List Text
      → BackgroundScheduler S
      → RecoverSummary
      → Recovering
  recover_runs [] seen m t = (m, t)
  recover_runs (raw ∷ rest) seen m t = elim (parse_value parse_run raw) [
    | none ↦ recover_runs rest seen m (reject t)
    | some run ↦ elim (includes seen run.run_id) [
      | true ↦ recover_runs rest seen m (reject t)
      | false ↦
          let (m', t') = recover_run run m t in recover_runs rest (seen ++ run.run_id ∷ []) m' t'
    ]
  ]

  unfoldable pub recover :
      List (Option ScheduledTaskRecord)
      → List (Option ScheduledRunRecord)
      → ℕ
      → BackgroundScheduler S
      → Recovering
  recover schedules runs now m =
      let (m', t) =
        recover_schedules schedules now [] m
          (record { validated = 0; rejected = 0; recomputed = 0; recovered_runs = 0 }) in
      recover_runs runs [] m' t
