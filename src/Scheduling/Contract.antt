-- ===== src/Scheduling/Contract.antt =====
-- packages/ai-core/src/schedules.ts: kinds of schedules, their bounds, the records, and the check of a new
-- schedule. A zod failure is `none`; numbers are the integers that the schemas ask for.
use ai_desktop.Base.{
  ℕ, Bool, true, false, not, ◌&&◌, ◌||◌, Option, none, some, List, Text, codes, length, ltb, leb,
  ◌==◌, if◌then◌else◌, trim, includes,
}
use ai_desktop.Schemas.{fit, optional, ◌>>=◌, ulid_string, timestamp_string, at_most}
use ai_desktop.Secrets.{has_secrets, field_has_secrets}

pub data ScheduleKind : Type 0 where
  once delay interval daily weekly : ScheduleKind

-- The union of the five strict config objects.
pub data ScheduleConfig : Type 0 where
  once : (run_at : Text) → ScheduleConfig
  delay : (delay_ms : ℕ) → ScheduleConfig
  interval : (every_ms : ℕ) → ScheduleConfig
  daily : (hour minute : ℕ) → ScheduleConfig
  weekly : (weekday hour minute : ℕ) → ScheduleConfig

abbrev pub max_delay_ms : ℕ
max_delay_ms = 31536000000

-- `ScheduleConfigSchema`.
unfoldable pub parse_config : ScheduleConfig → Option ScheduleConfig
parse_config (ScheduleConfig.once run_at) = do
  t ← timestamp_string run_at
  some (ScheduleConfig.once t)
parse_config (ScheduleConfig.delay ms) =
    if leb 1 ms && leb ms max_delay_ms then some (ScheduleConfig.delay ms) else none
parse_config (ScheduleConfig.interval ms) =
    if leb 1 ms && leb ms max_delay_ms then some (ScheduleConfig.interval ms) else none
parse_config (ScheduleConfig.daily hour minute) =
    if leb hour 23 && leb minute 59 then some (ScheduleConfig.daily hour minute) else none
parse_config (ScheduleConfig.weekly weekday hour minute) =
    if leb weekday 6 && leb hour 23 && leb minute 59
    then some (ScheduleConfig.weekly weekday hour minute)
    else none

abbrev pub config_matches_kind : ScheduleKind → ScheduleConfig → Bool
config_matches_kind ScheduleKind.once (ScheduleConfig.once _) = true
config_matches_kind ScheduleKind.delay (ScheduleConfig.delay _) = true
config_matches_kind ScheduleKind.interval (ScheduleConfig.interval _) = true
config_matches_kind ScheduleKind.daily (ScheduleConfig.daily _ _) = true
config_matches_kind ScheduleKind.weekly (ScheduleConfig.weekly _ _ _) = true
config_matches_kind _ _ = false

pub data MissedPolicy : Type 0 where
  skip run_once : MissedPolicy

pub data OverlapPolicy : Type 0 where
  skip queue_one : OverlapPolicy

pub data ScheduleTrigger : Type 0 where
  scheduled manual recovery : ScheduleTrigger

pub data ScheduledRunStatus : Type 0 where
  pending running completed failed skipped cancelled : ScheduledRunStatus

abbrev pub is_one_shot : ScheduleKind → Bool
is_one_shot ScheduleKind.once = true
is_one_shot ScheduleKind.delay = true
is_one_shot _ = false

unfoldable pub default_missed_policy_for_kind : ScheduleKind → MissedPolicy
default_missed_policy_for_kind kind =
    if is_one_shot kind then MissedPolicy.run_once else MissedPolicy.skip

abbrev pub min_interval_ms : ℕ
min_interval_ms = 60000

abbrev pub max_runs_per_schedule : ℕ
max_runs_per_schedule = 50

abbrev pub max_catch_up_runs : ℕ
max_catch_up_runs = 1

abbrev pub max_schedule_error_length : ℕ
max_schedule_error_length = 2000

-- What `formatToParts` prints of an instant, as numbers; the weekday is 0 for Sunday.
pub record RawParts : Type 0 where
  pub year : ℕ
  pub month : ℕ
  pub day : ℕ
  pub hour : ℕ
  pub minute : ℕ
  pub second : ℕ

-- The `Intl` of the platform: the list that `supportedValuesOf` returns, empty if there is none, and the
-- formatter of a time zone, `none` if its constructor throws.
pub record Intl : Type 0 where
  pub supported : List Text
  pub formatter : Text → Option (ℕ → RawParts)

abbrev resolves : Option (ℕ → RawParts) → Bool
resolves none = false
resolves (some f) = true

unfoldable pub is_valid_timezone : Intl → Text → Bool
is_valid_timezone intl timezone =
    let tz = trim timezone in
    if length tz == 0 || ltb 128 (length tz)
    then false
    else includes intl.supported tz || resolves (intl.formatter tz)

-- `TimezoneSchema`.
unfoldable pub parse_timezone : Intl → Text → Option Text
parse_timezone intl s = do tz ← fit 128 s; if is_valid_timezone intl tz then some tz else none

pub record ScheduledTaskRecord : Type 0 where
  pub id : Text
  pub project_id : Text
  pub name : Text
  pub description : Option Text
  pub prompt : Text
  pub kind : ScheduleKind
  pub config : ScheduleConfig
  pub timezone : Text
  pub enabled : Bool
  pub missed_policy : MissedPolicy
  pub overlap_policy : OverlapPolicy
  pub created_at : Text
  pub updated_at : Text
  pub next_run_at : Text
  pub last_run_at : Option Text
  pub last_run_status : Option ScheduledRunStatus
  pub run_count : ℕ
  pub missed_count : ℕ

-- `z.string().trim().max(max)`.
trimmed_at_most : ℕ → Text → Option Text
trimmed_at_most max s = at_most max (trim s)

-- `ScheduledTaskRecordSchema.safeParse` of a value with fields of these types.
unfoldable pub parse_schedule : Intl → ScheduledTaskRecord → Option ScheduledTaskRecord
unfolding trimmed_at_most
parse_schedule intl r = do
  id ← ulid_string r.id
  project ← fit 256 r.project_id
  name ← fit 120 r.name
  description ← optional (trimmed_at_most 2000) r.description
  prompt ← fit 4000 r.prompt
  config ← parse_config r.config
  timezone ← parse_timezone intl r.timezone
  created ← timestamp_string r.created_at
  updated ← timestamp_string r.updated_at
  next ← timestamp_string r.next_run_at
  last ← optional timestamp_string r.last_run_at
  some (record r {
    id = id;
    project_id = project;
    name = name;
    description = description;
    prompt = prompt;
    config = config;
    timezone = timezone;
    created_at = created;
    updated_at = updated;
    next_run_at = next;
    last_run_at = last;
  })

pub record ScheduledRunRecord : Type 0 where
  pub run_id : Text
  pub schedule_id : Text
  pub project_id : Text
  pub background_task_id : Option Text
  pub trigger : ScheduleTrigger
  pub status : ScheduledRunStatus
  pub scheduled_for : Text
  pub started_at : Option Text
  pub finished_at : Option Text
  pub error : Option Text

-- `ScheduledRunRecordSchema.safeParse`.
unfoldable pub parse_run : ScheduledRunRecord → Option ScheduledRunRecord
parse_run r = do
  run ← ulid_string r.run_id
  schedule ← ulid_string r.schedule_id
  project ← fit 256 r.project_id
  task ← optional ulid_string r.background_task_id
  due ← timestamp_string r.scheduled_for
  started ← optional timestamp_string r.started_at
  finished ← optional timestamp_string r.finished_at
  error ← optional (at_most max_schedule_error_length) r.error
  some (record r {
    run_id = run;
    schedule_id = schedule;
    project_id = project;
    background_task_id = task;
    scheduled_for = due;
    started_at = started;
    finished_at = finished;
    error = error;
  })

pub record ScheduleInput : Type 0 where
  pub project_id : Text
  pub name : Text
  pub description : Option Text
  pub prompt : Text
  pub kind : ScheduleKind
  pub config : ScheduleConfig
  pub timezone : Option Text
  pub enabled : Option Bool
  pub missed_policy : Option MissedPolicy
  pub overlap_policy : Option OverlapPolicy

pub record ValidatedScheduleInput : Type 0 where
  pub project_id : Text
  pub name : Text
  pub description : Option Text
  pub prompt : Text
  pub kind : ScheduleKind
  pub config : ScheduleConfig
  pub timezone : Text
  pub enabled : Bool
  pub missed_policy : MissedPolicy
  pub overlap_policy : OverlapPolicy

abbrev pub or_default {ℓ} : {A : Type ℓ} → Option A → A → A
or_default none d = d
or_default (some a) d = a

-- The floor on `delayMs` and `everyMs`, of a config that matches its kind.
abbrev pub below_floor : ℕ → ScheduleConfig → Bool
below_floor floor (ScheduleConfig.delay ms) = ltb ms floor
below_floor floor (ScheduleConfig.interval ms) = ltb ms floor
below_floor floor _ = false

-- `superRefine` of the input schema.
unfoldable pub is_refused : ℕ → ScheduleKind → ScheduleConfig → Text → Text → Option Text → Bool
is_refused floor kind config prompt name description =
    not (config_matches_kind kind config)
    || below_floor floor config
    || has_secrets prompt
    || has_secrets name
    || field_has_secrets description

unfoldable pub validate_schedule_input :
    Intl → Option ℕ → ScheduleInput → Option ValidatedScheduleInput
unfolding trimmed_at_most
validate_schedule_input intl min_interval input = do
  project ← fit 256 input.project_id
  name ← fit 120 input.name
  description ← optional (trimmed_at_most 2000) input.description
  prompt ← fit 4000 input.prompt
  config ← parse_config input.config
  timezone ← optional (parse_timezone intl) input.timezone
  if is_refused (or_default min_interval min_interval_ms) input.kind config prompt name description
      then none
      else some (record {
        project_id = project;
        name = name;
        description = description;
        prompt = prompt;
        kind = input.kind;
        config = config;
        timezone = or_default timezone (codes "UTC");
        enabled = or_default input.enabled true;
        missed_policy = or_default input.missed_policy (default_missed_policy_for_kind input.kind);
        overlap_policy = or_default input.overlap_policy OverlapPolicy.skip;
      })

unfoldable pub is_legal_schedule_transition : Bool → Bool → Bool
is_legal_schedule_transition from to = if from then not to else to

pub data ScheduleErrorCode : Type 0 where
  not_found project_mismatch validation_error secret_refused schedule_limit task_active
        storage_error :
      ScheduleErrorCode

pub data ScheduleEventType : Type 0 where
  created updated enabled disabled deleted due run_started run_completed run_failed run_skipped
        run_recovered :
      ScheduleEventType
