-- ===== src/Scheduling/Scheduler/Twice.antt =====
-- background-scheduler.ts: what is left to do once a tick has handled the due times of a schedule.
use ai_desktop.Base.{
  ℕ, zero, suc, ◌<◌, ◌≡◌, sym, ap, ◌∙◌, subst, Bool, true, false, Option, none, some, [], Text, ◌⊎◌,
  inl, inr, arith, Bool-cases, Option-cases, leb-cases,
}
use ai_desktop.Scheduling.Contract.{ScheduledRunStatus, ScheduledTaskRecord, is_one_shot}
use ai_desktop.Scheduling.Calculator.{empty, DueWindow, DueResult, count_due_occurrences}
use ai_desktop.Scheduling.Calculator.Due.{Within, count_due_occurrences-handled}
use ai_desktop.Scheduling.Store.{ScheduleStorePort}
use ai_desktop.Scheduling.Scheduler.{SchedulerOptions, schedule_has_secrets, query_of}
use ai_desktop.Scheduling.Scheduler.Tick.{
  Batch, TickPlan, consume, repair, drop, fire, anchor_of, is_consumed, window_of, batch_of,
  plan_due, is_dropped, tick_plan,
}

-- The schedule, with its due times up to `latest` handled: the bookkeeping differs, the rest does not.
abbrev pub Handled : (ℕ → Text) → ScheduledTaskRecord → ℕ → ScheduledTaskRecord → Type 0
Handled to_iso r latest r' =
    (enabled : Bool) × (updated next : Text) × (status : Option ScheduledRunStatus) × (runs
      missed : ℕ)
    × (r' ≡ record r {
      enabled = enabled;
      updated_at = updated;
      next_run_at = next;
      last_run_at = some (to_iso latest);
      last_run_status = status;
      run_count = runs;
      missed_count = missed;
    })

-- No occurrence is left.
abbrev pub IsQuiet : TickPlan → Type 0
IsQuiet plan = (plan ≡ consume) ⊎ ((anchor : ℕ) × (plan ≡ repair anchor))

-- The batch that a plan handles.
abbrev pub batch_in : TickPlan → Option Batch
batch_in (drop b) = some b
batch_in (fire b) = some b
batch_in _ = none

batch_of-latest :
    (n : ℕ) (earliest latest : Option ℕ) (b : Batch)
    → batch_of n earliest latest ≡ some b
    → latest ≡ some b.latest_ms
unfolding batch_of
batch_of-latest zero earliest latest b e = cc
batch_of-latest (suc n) none latest b e = cc
batch_of-latest (suc n) (some x) none b e = cc
batch_of-latest (suc n) (some x) (some y) b e = ground arith

plan_due-batch :
    (r : ScheduledTaskRecord) (anchor : ℕ) (due : DueResult) (b : Batch)
    → batch_in (plan_due r anchor (some due)) ≡ some b
    → due.latest_ms ≡ some b.latest_ms
unfolding plan_due
plan_due-batch r anchor due b e =
    elim (Option-cases (batch_of due.count due.earliest_ms due.latest_ms)) [
      | inl missing ↦ absurd (ground arith)
      | inr (b', p) ↦ elim (Bool-cases (is_dropped r)) [
        | inl dropped ↦ batch_of-latest due.count due.earliest_ms due.latest_ms b (ground arith)
        | inr fired ↦ batch_of-latest due.count due.earliest_ms due.latest_ms b (ground arith)
      ]
    ]

module _ {S : Type 0} (port : ScheduleStorePort S) (o : SchedulerOptions) where
  -- The window in which a plan found its batch.
  tick_plan-batch :
      (r : ScheduledTaskRecord) (now : ℕ) (b : Batch)
      → batch_in (tick_plan port o r now) ≡ some b
      → (anchor : ℕ) × (due : DueResult) × (schedule_has_secrets r ≡ false)
        × (is_consumed o.date_parse r ≡ false)
        × (count_due_occurrences o.intl o.date_parse o.min_interval_ms
              (window_of o.date_parse r anchor now)
            ≡ some due)
        × (due.latest_ms ≡ some b.latest_ms)
  unfolding tick_plan plan_due
  tick_plan-batch r now b e = elim (Bool-cases (schedule_has_secrets r)) [
    | inl secret ↦ absurd (ground arith)
    | inr clean ↦ elim (Bool-cases (is_consumed o.date_parse r)) [
      | inl consumed ↦ absurd (ground arith)
      | inr open_one ↦ elim (Option-cases (anchor_of o.date_parse r)) [
        | inl missing ↦ absurd (ground arith)
        | inr (anchor, p) ↦
            elim (Option-cases (
              count_due_occurrences o.intl o.date_parse o.min_interval_ms
                (window_of o.date_parse r anchor now))) [
                  | inl missing ↦ absurd (ground arith)
                  | inr (due, q) ↦ (
                    anchor,
                    due,
                    clean,
                    open_one,
                    q,
                    plan_due-batch r anchor due b (ground arith),
                  )
                ]
      ]
    ]
  ]

  tick_plan-consumed :
      (r : ScheduledTaskRecord) (now : ℕ)
      → schedule_has_secrets r ≡ false
      → is_consumed o.date_parse r ≡ true
      → tick_plan port o r now ≡ consume
  unfolding tick_plan
  tick_plan-consumed r now clean consumed = ground arith

  -- Without an occurrence left there is nothing to fire or to drop.
  tick_plan-none_due :
      (r : ScheduledTaskRecord) (now anchor : ℕ)
      → schedule_has_secrets r ≡ false
      → is_consumed o.date_parse r ≡ false
      → anchor_of o.date_parse r ≡ some anchor
      → count_due_occurrences o.intl o.date_parse o.min_interval_ms
          (window_of o.date_parse r anchor now)
        ≡ some empty
      → tick_plan port o r now ≡ repair anchor
  unfolding tick_plan plan_due batch_of
  tick_plan-none_due r now anchor clean open_one a c = ground arith

  due_later :
      (w : DueWindow) (due : DueResult) (latest : ℕ)
      → count_due_occurrences o.intl o.date_parse o.min_interval_ms w ≡ some due
      → due.latest_ms ≡ some latest
      → w.anchor_ms < w.now_ms
  unfolding count_due_occurrences
  due_later w due latest c l = elim (leb-cases w.now_ms w.anchor_ms) [
    | inl early ↦ absurd (ground arith)
    | inr later ↦ later
  ]

  -- A batch is handled once: when a tick has a batch to launch, skip, park or drop, and the schedule is stored
  -- with its last run at the last due time of that batch, whatever else is booked, then a tick at the same
  -- time plans neither to launch nor to drop anything for it. It is assumed that `Date.parse` reads what
  -- `toISOString` writes for that time, and that an interval is not 0.
  pub tick_plan-Handled :
      (r r' : ScheduledTaskRecord) (now : ℕ) (b : Batch)
      → Within r.config []
      → o.date_parse (o.to_iso b.latest_ms) ≡ some b.latest_ms
      → batch_in (tick_plan port o r now) ≡ some b
      → Handled o.to_iso r b.latest_ms r'
      → IsQuiet (tick_plan port o r' now)
  unfolding is_consumed anchor_of schedule_has_secrets window_of query_of
  tick_plan-Handled r r' now b h parses planned (enabled, updated, next, status, runs, missed, e) =
      let (anchor, due, clean, open_one, c, l) = tick_plan-batch r now b planned in
      let w = window_of o.date_parse r anchor now in
      let later = due_later w due b.latest_ms c l in
      let s : ScheduledTaskRecord = record r {
        enabled = enabled;
        updated_at = updated;
        next_run_at = next;
        last_run_at = some (o.to_iso b.latest_ms);
        last_run_status = status;
        run_count = runs;
        missed_count = missed;
      } in
      subst (λ x. IsQuiet (tick_plan port o x now)) (sym e)
        (elim (Bool-cases (is_one_shot r.kind)) [
          | inl once ↦ inl (tick_plan-consumed s now clean (ground arith))
          | inr repeated ↦
              let unconsumed : is_consumed o.date_parse s ≡ false = ground arith in
              inr (
                b.latest_ms,
                tick_plan-none_due s now b.latest_ms clean unconsumed (ground arith) (
                    ap
                      (λ x.
                        count_due_occurrences o.intl o.date_parse o.min_interval_ms
                          (record (window_of o.date_parse r b.latest_ms now) { consumed = x }))
                      (unconsumed ∙ sym open_one)
                    ∙ count_due_occurrences-handled o.intl o.date_parse o.min_interval_ms w later
                        due b.latest_ms h c l),
              )
        ])
