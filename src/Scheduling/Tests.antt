-- ===== src/Scheduling/Tests.antt =====
-- The theorems on schedule-calculator.ts and background-scheduler.ts at concrete schedules: a daily one at
-- 09:00 in UTC, and an hourly one that has missed 57 times.
use ai_desktop.Base.{
  ℕ, ◌+◌, ◌-◌, ◌*◌, ◌/◌, ◌%◌, ◌≡◌, ◌≤◌, ◌↔◌, refl, ap, true, false, Option, none, some, List, [],
  ◌∷◌, ◌++◌, Text, codes, length, arith, if◌then◌else◌, ◌==◌, text_eq, trim, includes, starts_with,
}
use ai_desktop.Base.Dict
use ai_desktop.Scheduling.Contract.{
  ScheduleKind, ScheduleConfig, MissedPolicy, OverlapPolicy, ScheduleTrigger, ScheduleErrorCode,
  RawParts, Intl, is_valid_timezone, ScheduledTaskRecord,
}
use ai_desktop.Scheduling.Calendar.{day_of, days_of, date_utc}
use ai_desktop.Scheduling.Calculator.{
  OccurrenceQuery, DueWindow, DueResult, empty, checked_query, count_due_occurrences,
}
use ai_desktop.Scheduling.Calculator.Due.{
  Chain, tally, next_of, count_due_occurrences-Chain, count_due_occurrences-handled,
}
use ai_desktop.Background.Lookup.{string, is_task_id, is_project_id, is_dangerous}
use ai_desktop.Ids.{is_ulid, in_class, index_of, index_in, upper_unit}
use ai_desktop.Secrets.{has_secrets, field_has_secrets}
use ai_desktop.Scheduling.Scheduler.Calls.{
  run_now, find_schedule, valid_id, valid_project_id, load_schedule,
}
use ai_desktop.Scheduling.Scheduler.Launches.Once.{
  OneLaunch, Adds, launchable, tick_one-OneLaunch, tick-Adds,
}
use ai_desktop.Scheduling.Scheduler.Twice.{IsQuiet, batch_in}
use ai_desktop.Scheduling.Scheduler.Bookkeeping.{tick_one-IsQuiet}
use ai_desktop.Scheduling.Scheduler.Errors.{
  SchedulerCall, run_it, perform, Unmoved, perform-Unmoved,
}
use ai_desktop.Scheduling.Scheduler.Recovery.{recover}
use ai_desktop.Scheduling.Scheduler.Recovery.Counts.{recover-Counts}
use ai_desktop.Scheduling.Store.{InMemoryScheduleStore, in_memory_store}
use ai_desktop.Scheduling.Scheduler.{
  started, SchedulerOptions, BackgroundScheduler, schedule_has_secrets, query_of,
}
use ai_desktop.Scheduling.Scheduler.Tick.{
  Batch, fire, tick_plan, tick_one, tick, is_consumed, anchor_of, plan_due, window_of, batch_of,
}

-- `toISOString` and `Date.parse` for the years up to 9999.
abbrev two : ℕ → Text
two n = (48 + n / 10 % 10) ∷ (48 + n % 10) ∷ []

abbrev print_iso : ℕ → Text
print_iso t =
    let d = day_of (t / 86400000) in
    two (d.year / 100)
    ++ two d.year
    ++ codes "-"
    ++ two d.month1
    ++ codes "-"
    ++ two d.day
    ++ codes "T"
    ++ two (t / 3600000 % 24)
    ++ codes ":"
    ++ two (t / 60000 % 60)
    ++ codes ":"
    ++ two (t / 1000 % 60)
    ++ codes "."
    ++ two (t % 1000 / 10)
    ++ (48 + t % 10) ∷ codes "Z"

abbrev digit : ℕ → Text → ℕ
digit i [] = 0
digit i (c ∷ s) = let rest = digit (i - 1) s in if i == 0 then c - 48 else rest

abbrev pair : ℕ → Text → ℕ
pair i s = 10 * digit i s + digit (i + 1) s

abbrev read_iso : Text → Option ℕ
read_iso s =
    if length s == 24
    then some (
        date_utc (record { year = 100 * pair 0 s + pair 2 s; month1 = pair 5 s; day = pair 8 s })
          (pair 11 s) (pair 14 s) (pair 17 s)
        + 10 * pair 20 s
        + digit 22 s)
    else none

abbrev utc_parts : ℕ → RawParts
utc_parts t =
    let d = day_of (t / 86400000) in
    record {
      year = d.year;
      month = d.month1;
      day = d.day;
      hour = t / 3600000 % 24;
      minute = t / 60000 % 60;
      second = t / 1000 % 60;
    }

abbrev utc_only : Intl
utc_only = record {
  supported = codes "UTC" ∷ [];
  formatter = λ tz. if text_eq tz (codes "UTC") then some utc_parts else none;
}

abbrev first_schedule : Text
first_schedule = codes "01ARZ3NDEKTSV4RRFFQ69G5FAV"

abbrev first_run : Text
first_run = codes "01ARZ3NDEKTSV4RRFFQ69G5FAW"

abbrev some_options : SchedulerOptions
some_options = record {
  intl = utc_only;
  date_parse = read_iso;
  to_iso = print_iso;
  launcher = λ n input. started first_run;
  create_run_id = λ n. first_run;
  stringify = λ r. r.updated_at;
  min_interval_ms = none;
  max_runs = 50;
  has_sink = true;
}

abbrev hourly : ScheduledTaskRecord
hourly = record {
  id = first_schedule;
  project_id = codes "p1";
  name = codes "report";
  description = none;
  prompt = codes "write the report";
  kind = ScheduleKind.interval;
  config = ScheduleConfig.interval 3600000;
  timezone = codes "UTC";
  enabled = true;
  missed_policy = MissedPolicy.skip;
  overlap_policy = OverlapPolicy.skip;
  created_at = codes "2026-01-05T00:00:00.000Z";
  updated_at = codes "2026-01-05T00:00:00.000Z";
  next_run_at = codes "2026-01-05T01:00:00.000Z";
  last_run_at = none;
  last_run_status = none;
  run_count = 0;
  missed_count = 0;
}

abbrev jan_7 : ℕ
jan_7 = 63929815200000

abbrev one_schedule : BackgroundScheduler InMemoryScheduleStore
one_schedule = record {
  store = record {
    schedules = (first_schedule, hourly) ∷ [];
    runs = [];
    active = [];
    parked = [];
    schedule_saves = 0;
    run_saves = 0;
  };
  is_running = true;
  active_runs = [];
  parked_runs = [];
  known_run_ids = [];
  recovered_sigs = [];
  last_launched = none;
  created = 0;
  launches = [];
  events = [];
}

abbrev jan_8_nine : ℕ
jan_8_nine = jan_7 + 23 * 3600000

abbrev all_hours : Batch
all_hours = record { count = 58; earliest_ms = jan_7 - 57 * 3600000; latest_ms = jan_7 }

abbrev daily_query : OccurrenceQuery
daily_query = record {
  kind = ScheduleKind.daily;
  config = ScheduleConfig.daily 9 0;
  timezone = codes "UTC";
  created_at_ms = none;
}

abbrev three_days_window : DueWindow
three_days_window = record {
  query = daily_query;
  anchor_ms = jan_7 - 58 * 3600000;
  now_ms = jan_7;
  consumed = false;
}

abbrev three_due : DueResult
three_due = record {
  count = 3;
  earliest_ms = some (jan_7 - 49 * 3600000);
  latest_ms = some (jan_7 - 3600000);
}

query_is_checked : checked_query utc_only none daily_query ≡ true
unfolding checked_query is_valid_timezone trim includes text_eq
query_is_checked = refl

count_due_occurrences-Chain_example :
    (count_due_occurrences utc_only read_iso none three_days_window ≡ some three_due) ↔ (
      (us : List ℕ) × (length us ≤ 4000)
      × Chain
          (next_of utc_only (codes "UTC") (ScheduleConfig.daily 9 0))
          jan_7
          (jan_7 - 58 * 3600000)
          us
      × (three_due ≡ tally empty us))
count_due_occurrences-Chain_example =
    count_due_occurrences-Chain utc_only read_iso none three_days_window (omega arith) three_due
      refl query_is_checked (omega arith)

abbrev hourly_window : DueWindow
hourly_window = record {
  query = record {
    kind = ScheduleKind.interval;
    config = ScheduleConfig.interval 3600000;
    timezone = codes "UTC";
    created_at_ms = none;
  };
  anchor_ms = jan_7 - 58 * 3600000;
  now_ms = jan_7;
  consumed = false;
}

abbrev all_due : DueResult
all_due = record { count = 58; earliest_ms = some (jan_7 - 57 * 3600000); latest_ms = some jan_7 }

all_are_due : count_due_occurrences utc_only read_iso none hourly_window ≡ some all_due
unfolding count_due_occurrences checked_query is_valid_timezone trim includes text_eq
all_are_due = refl

count_due_occurrences-handled_example :
    count_due_occurrences utc_only read_iso none (record hourly_window { anchor_ms = jan_7 })
    ≡ some empty
count_due_occurrences-handled_example =
    count_due_occurrences-handled utc_only read_iso none hourly_window (omega arith) all_due jan_7
      (omega arith) all_are_due refl

all_hours_fire : tick_plan in_memory_store some_options hourly jan_7 ≡ fire all_hours
unfolding tick_plan schedule_has_secrets has_secrets field_has_secrets is_consumed anchor_of
    plan_due count_due_occurrences checked_query is_valid_timezone trim window_of query_of includes
    text_eq date_utc days_of batch_of starts_with
all_hours_fire = refl

tick_one-OneLaunch_example :
    OneLaunch in_memory_store some_options hourly one_schedule
      (tick_one in_memory_store some_options hourly jan_7 one_schedule).0
tick_one-OneLaunch_example =
    tick_one-OneLaunch in_memory_store some_options hourly jan_7 one_schedule

tick-Adds_example :
    Adds in_memory_store some_options
      (launchable in_memory_store some_options (hourly ∷ []))
      []
      (tick in_memory_store some_options jan_7 one_schedule).0
tick-Adds_example = tick-Adds in_memory_store some_options jan_7 one_schedule

stamp_reads : read_iso (print_iso all_hours.latest_ms) ≡ some all_hours.latest_ms
unfolding date_utc days_of day_of
stamp_reads = refl

tick_one-IsQuiet_example :
    (r' : ScheduledTaskRecord) × (Dict.get first_schedule
        (tick_one in_memory_store some_options hourly jan_7 one_schedule).0.store.schedules
      ≡ some r')
    × IsQuiet (tick_plan in_memory_store some_options r' jan_7)
tick_one-IsQuiet_example =
    tick_one-IsQuiet some_options hourly jan_7 all_hours one_schedule (omega arith) stamp_reads
      (ap batch_in all_hours_fire)

-- A run of a schedule that is not there.
abbrev unknown_run : SchedulerCall
unknown_run = run_it (string first_run) (string (codes "p1")) ScheduleTrigger.manual jan_7 jan_7

unknown_run_fails :
    (perform in_memory_store some_options unknown_run one_schedule).1
    ≡ some ScheduleErrorCode.not_found
unfolding perform run_now find_schedule valid_id is_task_id is_dangerous text_eq is_ulid in_class
    index_of index_in upper_unit valid_project_id is_project_id trim load_schedule Dict.get
unknown_run_fails = refl

perform-Unmoved_example :
    Unmoved in_memory_store some_options one_schedule
      (perform in_memory_store some_options unknown_run one_schedule).0
perform-Unmoved_example =
    perform-Unmoved in_memory_store some_options unknown_run ScheduleErrorCode.not_found
      one_schedule unknown_run_fails

recover-Counts_example :
    let (m', t) =
      recover in_memory_store some_options (some hourly ∷ none ∷ []) [] jan_7 one_schedule in
    (m'.launches ≡ [])
    × (t.validated + t.rejected + t.recovered_runs ≡ 2)
    × (t.recomputed ≤ t.validated)
recover-Counts_example =
    recover-Counts in_memory_store some_options (some hourly ∷ none ∷ []) [] jan_7 one_schedule
