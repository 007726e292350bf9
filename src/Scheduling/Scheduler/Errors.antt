-- ===== src/Scheduling/Scheduler/Errors.antt =====
-- background-scheduler.ts: the answers with an error of `runNow`, `settleRun` and `setEnabled`.
use ai_desktop.Base.{
  ℕ, ◌≡◌, ◌≢◌, refl, Bool, Option, none, some, Text, ◌⊎◌, inl, inr, arith, Bool-cases, Option-cases,
  text_eq,
}
use ai_desktop.Background.Lookup.{Unknown}
use ai_desktop.Scheduling.Contract.{
  ScheduleTrigger, ScheduledTaskRecord, ScheduledRunRecord, ScheduleErrorCode, parse_schedule,
}
use ai_desktop.Scheduling.Store.{ScheduleStorePort}
use ai_desktop.Scheduling.Scheduler.{
  SchedulerOptions, BackgroundScheduler, SchedulerResult, ok, err, is_terminal_run,
  schedule_has_secrets, find_run_in, active_run_id, remember_active, parked_run_id, remember_parked,
  new_run, count_run, prune_runs, best_effort,
}
use ai_desktop.Scheduling.Scheduler.Launches.{OverlapPolicy-cases}
use ai_desktop.Scheduling.Scheduler.Calls.{
  SettleOutcome, valid_id, detail_of, find_schedule, load_runs, launch_new_run, run_fresh, park_now,
  run_schedule, run_now, settled_run, end_run, launch_waiting, settle_found, settle_checked,
  settle_run, same_flag, set_enabled, in_project, free_slot, settled_event, last_status,
}

-- The calls of the scheduler's user, with the clock's readings.
pub data SchedulerCall : Type 0 where
  run_it :
      (schedule project : Unknown) (trigger : ScheduleTrigger) (now launch_now : ℕ) → SchedulerCall
  settle_it :
      (schedule run : Unknown) (outcome : SettleOutcome) (project : Option Text)
      (detail : Option Unknown) (now launch_now : ℕ)
      → SchedulerCall
  enable_it : (schedule project : Unknown) (enabled : Bool) (now : ℕ) → SchedulerCall

-- The error of an answer.
abbrev pub error_of {ℓ} : {A : Type ℓ} → SchedulerResult A → Option ScheduleErrorCode
error_of (ok a) = none
error_of (err code) = some code

abbrev pub thrown_or_error {ℓ} :
    {A : Type ℓ} → Option (SchedulerResult A) → Option ScheduleErrorCode
thrown_or_error none = none
thrown_or_error (some a) = error_of a

SchedulerResult-cases {ℓ} :
    {A : Type ℓ} (r : SchedulerResult A)
    → ((a : A) × (r ≡ ok a)) ⊎ ((code : ScheduleErrorCode) × (r ≡ err code))
SchedulerResult-cases (ok a) = inl (a, refl)
SchedulerResult-cases (err code) = inr (code, refl)

module _ {S : Type 0} (port : ScheduleStorePort S) (o : SchedulerOptions) where
  unfoldable pub perform :
      SchedulerCall → BackgroundScheduler S → BackgroundScheduler S × Option ScheduleErrorCode
  perform (run_it schedule project trigger now launch_now) m =
      let (m', answer) = run_now port o schedule project trigger now launch_now m in
      (m', error_of answer)
  perform (settle_it schedule run outcome project detail now launch_now) m =
      let (m', answer) = settle_run port o schedule run outcome project detail now launch_now m in
      (m', thrown_or_error answer)
  perform (enable_it schedule project enabled now) m =
      let (m', answer) = set_enabled port o schedule project enabled now m in (m', error_of answer)

  -- The store, the launcher's calls and the events are as before.
  abbrev pub Unmoved : BackgroundScheduler S → BackgroundScheduler S → Type 0
  Unmoved m n = (n.store ≡ m.store) × (n.launches ≡ m.launches) × (n.events ≡ m.events)

  remember_active-Unmoved :
      (id : Text) (m : BackgroundScheduler S) → Unmoved m (remember_active port o id m)
  unfolding remember_active
  remember_active-Unmoved id m = elim (Option-cases (active_run_id port o id m)) [
    | inl missing ↦ ground arith
    | inr (s, p) ↦ ground arith
  ]

  remember_parked-Unmoved :
      (id : Text) (m : BackgroundScheduler S) → Unmoved m (remember_parked port o id m)
  unfolding remember_parked
  remember_parked-Unmoved id m = elim (Option-cases (parked_run_id port o id m)) [
    | inl missing ↦ ground arith
    | inr (s, p) ↦ ground arith
  ]

  module _ (code : ScheduleErrorCode) where
    park_error :
        (r : ScheduledTaskRecord) (trigger : ScheduleTrigger) (now_iso : Text)
        (m : BackgroundScheduler S)
        → error_of (park_now port o r trigger now_iso m).1 ≡ some code
        → Unmoved m (park_now port o r trigger now_iso m).0
    unfolding park_now count_run
    park_error r trigger now_iso m e = elim (Option-cases (parked_run_id port o r.id m)) [
      | inl missing ↦
          elim (Option-cases (port.save_run (new_run port o r trigger now_iso m) m.store)) [
            | inl fails ↦ ground arith
            | inr (s, p) ↦ absurd (ground arith)
          ]
      | inr (run, p) ↦ ground (arith, remember_parked-Unmoved r.id m)
    ]

    fresh_error :
        (r : ScheduledTaskRecord) (trigger : ScheduleTrigger) (now_iso launch_iso : Text)
        (m : BackgroundScheduler S)
        → error_of (run_fresh port o r trigger now_iso launch_iso m).1 ≢ some code
    unfolding run_fresh
    fresh_error r trigger now_iso launch_iso m e =
        elim (Bool-cases
          (launch_new_run port o r (new_run port o r trigger now_iso m) launch_iso
            (count_run port o m)).2) [
              | inl launched ↦ absurd (ground arith)
              | inr lost ↦ absurd (ground arith)
            ]

    run_error :
        (r : ScheduledTaskRecord) (trigger : ScheduleTrigger) (now_iso launch_iso : Text)
        (m : BackgroundScheduler S)
        → error_of (run_schedule port o r trigger now_iso launch_iso m).1 ≡ some code
        → Unmoved m (run_schedule port o r trigger now_iso launch_iso m).0
    unfolding run_schedule
    run_error r trigger now_iso launch_iso m e = elim (Bool-cases (schedule_has_secrets r)) [
      | inl secret ↦ ground arith
      | inr clean ↦ elim (Option-cases (active_run_id port o r.id m)) [
        | inl free ↦ absurd (fresh_error r trigger now_iso launch_iso m (ground arith))
        | inr (run, p) ↦
            let n = remember_active port o r.id m in
            let kept = remember_active-Unmoved r.id m in
            elim (OverlapPolicy-cases r.overlap_policy) [
              | inl skips ↦ ground (arith, kept)
              | inr queues ↦
                  let parked = park_error r trigger now_iso n (ground arith) in
                  ground (arith, kept, parked)
            ]
      ]
    ]

    end_error :
        (r : ScheduledTaskRecord) (run : ScheduledRunRecord) (outcome : SettleOutcome)
        (detail : Option Text) (now launch_now : ℕ) (m : BackgroundScheduler S)
        → thrown_or_error (end_run port o r run outcome detail now launch_now m).1 ≡ some code
        → Unmoved m (end_run port o r run outcome detail now launch_now m).0
    unfolding end_run
    end_error r run outcome detail now launch_now m e =
        elim (Option-cases
          (port.save_run (settled_run run outcome detail (o.to_iso now)) m.store)) [
            | inl fails ↦ ground arith
            | inr (s, p) ↦
                let settled = settled_run run outcome detail (o.to_iso now) in
                let m1 =
                  free_slot port o r.id run.run_id
                    (prune_runs port o r.id (record m { store = s })) in
                let updated = record r {
                  updated_at = o.to_iso now;
                  last_run_status = last_status outcome r.last_run_status;
                } in
                let m2 =
                  settled_event port o r run.run_id outcome
                    (best_effort port o (port.save_schedule updated) m1) in
                elim (Bool-cases (launch_waiting port o r launch_now m2).1) [
                  | inl returns ↦ absurd (ground arith)
                  | inr throws ↦ absurd (ground arith)
                ]
          ]

    found_error :
        (r : ScheduledTaskRecord) (run : Option ScheduledRunRecord) (outcome : SettleOutcome)
        (detail : Option Unknown) (now launch_now : ℕ) (m : BackgroundScheduler S)
        → thrown_or_error (settle_found port o r run outcome detail now launch_now m).1 ≡ some code
        → Unmoved m (settle_found port o r run outcome detail now launch_now m).0
    unfolding settle_found
    found_error r none outcome detail now launch_now m e = (refl, refl, refl)
    found_error r (some run) outcome detail now launch_now m e =
        elim (Bool-cases (text_eq run.schedule_id r.id)) [
          | inr other ↦ ground arith
          | inl same ↦ elim (Bool-cases (is_terminal_run run.status)) [
            | inl ended ↦ ground arith
            | inr open_run ↦ elim (Option-cases (detail_of detail)) [
              | inl bad ↦ ground arith
              | inr (text, p) ↦
                  ground (arith, end_error r run outcome text now launch_now m (ground arith))
            ]
          ]
        ]

    settle_error :
        (schedule run : Unknown) (outcome : SettleOutcome) (project : Option Text)
        (detail : Option Unknown) (now launch_now : ℕ) (m : BackgroundScheduler S)
        → thrown_or_error (settle_run port o schedule run outcome project detail now launch_now m).1
          ≡ some code
        → Unmoved m (settle_run port o schedule run outcome project detail now launch_now m).0
    unfolding settle_run settle_checked
    settle_error schedule run outcome project detail now launch_now m e =
        elim (Option-cases (valid_id schedule)) [
          | inl bad ↦ ground arith
          | inr (id, p) ↦ elim (Option-cases (valid_id run)) [
            | inl bad ↦ ground arith
            | inr (run_id, q) ↦ elim (Option-cases (port.get_schedule id m.store)) [
              | inl fails ↦ ground arith
              | inr (stored, g) ↦ elim (Option-cases stored) [
                | inl missing ↦ ground arith
                | inr (raw, there) ↦ elim (SchedulerResult-cases (load_runs port o id m)) [
                  | inr (error, f) ↦ ground arith
                  | inl (runs, l) ↦ elim (Option-cases (parse_schedule o.intl raw)) [
                    | inl invalid ↦ ground arith
                    | inr (r, valid) ↦ elim (Bool-cases (in_project port o project r)) [
                      | inr foreign ↦ ground arith
                      | inl own ↦ ground (
                        arith,
                        found_error r (find_run_in run_id runs) outcome detail now launch_now m
                            (ground arith),
                      )
                    ]
                  ]
                ]
              ]
            ]
          ]
        ]

    enable_error :
        (schedule project : Unknown) (enabled : Bool) (now : ℕ) (m : BackgroundScheduler S)
        → error_of (set_enabled port o schedule project enabled now m).1 ≡ some code
        → Unmoved m (set_enabled port o schedule project enabled now m).0
    unfolding set_enabled
    enable_error schedule project enabled now m e =
        elim (SchedulerResult-cases (find_schedule port o schedule project m)) [
          | inr (error, p) ↦ ground arith
          | inl (r, p) ↦ elim (Bool-cases (same_flag port o r.enabled enabled)) [
            | inl same ↦ ground arith
            | inr changed ↦
                elim (Option-cases (
                  port.save_schedule (record r { enabled = enabled; updated_at = o.to_iso now })
                    m.store)) [ inl fails ↦ ground arith | inr (s, q) ↦ absurd (ground arith) ]
          ]
        ]

  -- A call that answers with an error writes nothing to the store, launches nothing and emits nothing.
  pub perform-Unmoved :
      (c : SchedulerCall) (code : ScheduleErrorCode) (m : BackgroundScheduler S)
      → (perform c m).1 ≡ some code
      → Unmoved m (perform c m).0
  unfolding perform run_now
  perform-Unmoved (run_it schedule project trigger now launch_now) code m e =
      elim (SchedulerResult-cases (find_schedule port o schedule project m)) [
        | inr (error, p) ↦ ground arith
        | inl (r, p) ↦
            ground (
              arith,
              run_error code r trigger (o.to_iso now) (o.to_iso launch_now) m (ground arith),
            )
      ]
  perform-Unmoved (settle_it schedule run outcome project detail now launch_now) code m e =
      settle_error code schedule run outcome project detail now launch_now m e
  perform-Unmoved (enable_it schedule project enabled now) code m e =
      enable_error code schedule project enabled now m e
