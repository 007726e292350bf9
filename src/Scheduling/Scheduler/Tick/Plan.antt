-- ===== src/Scheduling/Scheduler/Tick/Plan.antt =====
-- background-scheduler.ts: what a tick does with one schedule, planned from the record alone.
use ai_desktop.Base.{
  ℕ, zero, suc, ◌-◌, Bool, true, false, ◌&&◌, Option, none, some, Text, ltb, if◌then◌else◌,
}
use ai_desktop.Scheduling.Contract.{
  ScheduleKind, ScheduleConfig, MissedPolicy, ScheduledTaskRecord, is_one_shot, max_catch_up_runs,
}
use ai_desktop.Scheduling.Calculator.{DueWindow, DueResult, count_due_occurrences}
use ai_desktop.Scheduling.Store.{ScheduleStorePort}
use ai_desktop.Scheduling.Scheduler.{SchedulerOptions, schedule_has_secrets, query_of}

pub record TickSummary : Type 0 where
  pub launched : ℕ
  pub skipped : ℕ
  pub queued : ℕ
  pub failed : ℕ

pub data TickOutcome : Type 0 where
  launched skipped queued failed quiet : TickOutcome

unfoldable pub add_outcome : TickOutcome → TickSummary → TickSummary
add_outcome TickOutcome.launched t = record t { launched = suc t.launched }
add_outcome TickOutcome.skipped t = record t { skipped = suc t.skipped }
add_outcome TickOutcome.queued t = record t { queued = suc t.queued }
add_outcome TickOutcome.failed t = record t { failed = suc t.failed }
add_outcome TickOutcome.quiet t = t

-- The batch of due times: how many, the first and the last.
pub record Batch : Type 0 where
  pub count : ℕ
  pub earliest_ms : ℕ
  pub latest_ms : ℕ

pub data TickPlan : Type 0 where
  -- A secret in the texts; a one-shot schedule that has fired; no usable anchor or a throw of the calculator.
  refuse consume idle : TickPlan
  repair : (anchor_ms : ℕ) → TickPlan
  drop fire : Batch → TickPlan

abbrev min_of : ℕ → ℕ → ℕ
min_of a b = if ltb b a then b else a

-- The fire time of a config of the kind `once`.
abbrev pub run_at_of : (Text → Option ℕ) → ScheduleKind → ScheduleConfig → Option ℕ
run_at_of parse ScheduleKind.once (ScheduleConfig.once run_at) = parse run_at
run_at_of parse _ _ = none

-- `Date.parse` of an optional stamp.
abbrev pub parse_optional : (Text → Option ℕ) → Option Text → Option ℕ
parse_optional parse none = none
parse_optional parse (some t) = parse t

-- The last run's time, else the creation's; for `once` no later than just before the fire time.
unfoldable pub anchor_of : (Text → Option ℕ) → ScheduledTaskRecord → Option ℕ
anchor_of parse r = elim (parse_optional parse r.last_run_at) [
  | some last ↦ some last
  | none ↦ elim (parse r.created_at) [
    | none ↦ none
    | some created ↦ elim (run_at_of parse r.kind r.config) [
      | none ↦ some created
      | some fire_ms ↦ some (min_of created (fire_ms - 1))
    ]
  ]
]

abbrev pub is_some {ℓ} : {A : Type ℓ} → Option A → Bool
is_some none = false
is_some (some a) = true

unfoldable pub is_consumed : (Text → Option ℕ) → ScheduledTaskRecord → Bool
is_consumed parse r = is_one_shot r.kind && is_some (parse_optional parse r.last_run_at)

unfoldable pub window_of : (Text → Option ℕ) → ScheduledTaskRecord → ℕ → ℕ → DueWindow
window_of parse r anchor now = record {
  query = query_of parse r;
  anchor_ms = anchor;
  now_ms = now;
  consumed = is_consumed parse r;
}

abbrev pub is_dropped : ScheduledTaskRecord → Bool
is_dropped r =
    is_one_shot r.kind
    && elim r.missed_policy [ MissedPolicy.skip ↦ true | MissedPolicy.run_once ↦ false ]

-- A batch of at least one.
unfoldable pub batch_of : ℕ → Option ℕ → Option ℕ → Option Batch
batch_of zero earliest latest = none
batch_of (suc count) none latest = none
batch_of (suc count) (some e) none = none
batch_of (suc count) (some e) (some l) =
    some (record { count = suc count; earliest_ms = e; latest_ms = l })

unfoldable pub plan_due : ScheduledTaskRecord → ℕ → Option DueResult → TickPlan
plan_due r anchor none = idle
plan_due r anchor (some due) = elim (batch_of due.count due.earliest_ms due.latest_ms) [
  | none ↦ repair anchor
  | some batch ↦ if is_dropped r then drop batch else fire batch
]

-- The first due time under `run_once`, else the last.
abbrev pub chosen_ms : MissedPolicy → Batch → ℕ
chosen_ms MissedPolicy.run_once b = b.earliest_ms
chosen_ms MissedPolicy.skip b = b.latest_ms

abbrev pub excess : Batch → ℕ
excess b = b.count - max_catch_up_runs

module _ {S : Type 0} (port : ScheduleStorePort S) (o : SchedulerOptions) where
  unfoldable pub tick_plan : ScheduledTaskRecord → ℕ → TickPlan
  tick_plan schedule now =
      if schedule_has_secrets schedule
      then refuse
      else (if is_consumed o.date_parse schedule
          then consume
          else elim (anchor_of o.date_parse schedule) [
            | none ↦ idle
            | some anchor ↦ plan_due schedule anchor (
                count_due_occurrences o.intl o.date_parse o.min_interval_ms
                  (window_of o.date_parse schedule anchor now))
          ])
