-- ===== src/Scheduling/Scheduler.antt =====
-- background-scheduler.ts: the state of `BackgroundScheduler` and the helpers of its calls. A call returns the
-- state after it, also after a throw (`none`). The clock, `Date.parse`, `toISOString`, `JSON.stringify`, the
-- launcher's answer to its n-th call and the n-th fresh id are arguments; the prose of events and errors is left out.
pub mod Tick
pub mod Calls
pub mod Recovery
pub mod Launches
pub mod Twice
pub mod Bookkeeping
pub mod Errors
use ai_desktop.Base.{
  ℕ, zero, suc, ◌+◌, ◌-◌, ◌≤◌, Bool, true, false, not, ◌&&◌, ◌||◌, Option, none, some, List, [],
  ◌∷◌, ◌++◌, Text, codes, length, take, filter, ltb, leb, if◌then◌else◌, text_eq, text_lt, includes,
}
use ai_desktop.Base.Dict
use ai_desktop.Background.Task.{truncate}
use ai_desktop.Secrets.{has_secrets, field_has_secrets}
use ai_desktop.Scheduling.Contract.{
  ScheduleKind, ScheduleConfig, MissedPolicy, ScheduleTrigger, ScheduledRunStatus,
  ScheduledTaskRecord, ScheduledRunRecord, ScheduleErrorCode, ScheduleEventType, Intl, is_one_shot,
  max_schedule_error_length,
}
use ai_desktop.Scheduling.Calculator.{OccurrenceQuery, next_pointer_after_now}
use ai_desktop.Scheduling.Store.{ScheduleStorePort}

pub record LaunchInput : Type 0 where
  pub project_id : Text
  pub goal : Text
  pub title : Text

-- A throw of the launcher is an error with the code `launch-throw`.
pub data LaunchOutcome : Type 0 where
  started : (background_task_id : Text) → LaunchOutcome
  refused : (code message : Text) → LaunchOutcome

pub record ScheduleEvent : Type 0 where
  pub type : ScheduleEventType
  pub schedule_id : Text
  pub run_id : Option Text
  pub status : Option ScheduledRunStatus

-- What the scheduler is built with, and the platform's functions.
pub record SchedulerOptions : Type 0 where
  pub intl : Intl
  pub date_parse : Text → Option ℕ
  pub to_iso : ℕ → Text
  pub launcher : ℕ → LaunchInput → LaunchOutcome
  pub create_run_id : ℕ → Text
  pub stringify : ScheduledTaskRecord → Text
  pub min_interval_ms : Option ℕ
  pub max_runs : ℕ
  pub has_sink : Bool

pub record BackgroundScheduler (S : Type 0) : Type 0 where
  pub store : S
  pub is_running : Bool
  pub active_runs : List (Text × Text)
  pub parked_runs : List (Text × Text)
  pub known_run_ids : List Text
  pub recovered_sigs : List Text
  pub last_launched : Option ScheduledRunRecord
  pub created : ℕ
  pub launches : List LaunchInput
  pub events : List ScheduleEvent

pub data SchedulerResult {ℓ} (A : Type ℓ) : Type ℓ where
  ok : A → SchedulerResult A
  err : ScheduleErrorCode → SchedulerResult A

abbrev pub is_terminal_run : ScheduledRunStatus → Bool
is_terminal_run ScheduledRunStatus.pending = false
is_terminal_run ScheduledRunStatus.running = false
is_terminal_run _ = true

-- `checkSecrets` fails.
unfoldable pub schedule_has_secrets : ScheduledTaskRecord → Bool
schedule_has_secrets r =
    has_secrets r.prompt || has_secrets r.name || field_has_secrets r.description

-- By the due time, then by the id.
abbrev pub run_before : ScheduledRunRecord → ScheduledRunRecord → Bool
run_before a b =
    if text_lt a.scheduled_for b.scheduled_for
    then true
    else (if text_lt b.scheduled_for a.scheduled_for then false else text_lt a.run_id b.run_id)

unfoldable pub insert_run : ScheduledRunRecord → List ScheduledRunRecord → List ScheduledRunRecord
insert_run r [] = r ∷ []
insert_run r (x ∷ xs) =
    let rest = insert_run r xs in if run_before r x then r ∷ x ∷ xs else x ∷ rest

unfoldable pub sort_runs : List ScheduledRunRecord → List ScheduledRunRecord
sort_runs [] = []
sort_runs (r ∷ rs) = insert_run r (sort_runs rs)

abbrev is_run : Text → Option Text → Bool
is_run id none = false
is_run id (some other) = text_eq id other

-- The runs that go: the oldest that are neither active nor parked, as many as there are too many.
unfoldable pub victims :
    ℕ → Option Text → Option Text → List ScheduledRunRecord → List ScheduledRunRecord
victims max active parked runs =
    take (length runs - max)
      (filter (λ r. not (is_run r.run_id active || is_run r.run_id parked)) (sort_runs runs))

unfoldable pub query_of : (Text → Option ℕ) → ScheduledTaskRecord → OccurrenceQuery
query_of date_parse r = record {
  kind = r.kind;
  config = r.config;
  timezone = r.timezone;
  created_at_ms = date_parse r.created_at;
}

abbrev pub find_run_in : Text → List ScheduledRunRecord → Option ScheduledRunRecord
find_run_in id [] = none
find_run_in id (r ∷ rs) =
    let rest = find_run_in id rs in if text_eq r.run_id id then some r else rest

module _ {S : Type 0} (port : ScheduleStorePort S) (o : SchedulerOptions) where
  -- A write whose failure is swallowed.
  abbrev pub best_effort : (S → Option S) → BackgroundScheduler S → BackgroundScheduler S
  best_effort write m = elim (write m.store) [ none ↦ m | some s ↦ record m { store = s } ]

  unfoldable pub emit :
      ScheduledTaskRecord
      → ScheduleEventType
      → Option Text
      → Option ScheduledRunStatus
      → BackgroundScheduler S
      → BackgroundScheduler S
  emit schedule type run status m =
      let event : ScheduleEvent = record {
        type = type;
        schedule_id = schedule.id;
        run_id = run;
        status = status;
      } in
      if o.has_sink then record m { events = m.events ++ event ∷ [] } else m

  unfoldable pub new_run :
      ScheduledTaskRecord → ScheduleTrigger → Text → BackgroundScheduler S → ScheduledRunRecord
  new_run schedule trigger scheduled_for m = record {
    run_id = o.create_run_id m.created;
    schedule_id = schedule.id;
    project_id = schedule.project_id;
    background_task_id = none;
    trigger = trigger;
    status = ScheduledRunStatus.pending;
    scheduled_for = scheduled_for;
    started_at = none;
    finished_at = none;
    error = none;
  }

  -- The other effect of `_newRun`: the id is known.
  unfoldable pub count_run : BackgroundScheduler S → BackgroundScheduler S
  count_run m = record m {
    known_run_ids = m.known_run_ids ++ o.create_run_id m.created ∷ [];
    created = suc m.created;
  }

  -- `_safeActive`: a failure of the store falls back on the map.
  abbrev pub read_or {ℓ} : {A : Type ℓ} → Option (Option A) → Option A → Option A
  read_or none local = local
  read_or (some stored) local = stored

  -- The id in the map, else in the store.
  unfoldable pub active_run_id : Text → BackgroundScheduler S → Option Text
  active_run_id id m = elim (Dict.get id m.active_runs) [
    | some local ↦ some local
    | none ↦ read_or (port.get_active_run_id id m.store) none
  ]

  -- What `_activeRunId` keeps: an id that was found in the store only.
  unfoldable pub remember_active : Text → BackgroundScheduler S → BackgroundScheduler S
  remember_active id m = elim (active_run_id id m) [
    | none ↦ m
    | some run ↦ record m { active_runs = Dict.set id run m.active_runs }
  ]

  unfoldable pub parked_run_id : Text → BackgroundScheduler S → Option Text
  parked_run_id id m = elim (Dict.get id m.parked_runs) [
    | some local ↦ some local
    | none ↦ read_or (port.get_queued_run_id id m.store) none
  ]

  unfoldable pub remember_parked : Text → BackgroundScheduler S → BackgroundScheduler S
  remember_parked id m = elim (parked_run_id id m) [
    | none ↦ m
    | some run ↦ record m { parked_runs = Dict.set id run m.parked_runs }
  ]

  unfoldable pub find_run : Text → Text → BackgroundScheduler S → Option ScheduledRunRecord
  find_run id run m = elim (port.list_runs id m.store) [
    | none ↦ none
    | some runs ↦ find_run_in run runs
  ]

  unfoldable pub delete_all :
      List ScheduledRunRecord → BackgroundScheduler S → BackgroundScheduler S
  delete_all [] m = m
  delete_all (r ∷ rs) m = delete_all rs (best_effort (port.delete_run r.run_id) m)

  unfoldable pub prune_runs : Text → BackgroundScheduler S → BackgroundScheduler S
  prune_runs id m = elim (port.list_runs id m.store) [
    | none ↦ m
    | some runs ↦
        delete_all (victims o.max_runs (Dict.get id m.active_runs) (Dict.get id m.parked_runs) runs)
          m
  ]

  -- `pointer ?? handled`, also where the calculator throws.
  abbrev pub pointer_or : Option (Option ℕ) → ℕ → ℕ
  pointer_or none handled = handled
  pointer_or (some none) handled = handled
  pointer_or (some (some t)) handled = t

  abbrev pub later_of : ℕ → ℕ → ℕ
  later_of a b = if ltb a b then b else a

  unfoldable pub pointer_after : ScheduledTaskRecord → ℕ → ℕ → ℕ
  pointer_after schedule handled now =
      pointer_or
        (next_pointer_after_now o.intl o.date_parse o.min_interval_ms
          (query_of o.date_parse schedule) handled false (later_of handled now))
        handled

  -- The durable record, the active slot, and the launcher's answer.
  unfoldable pub begin_run :
      ScheduledTaskRecord
      → ScheduledRunRecord
      → BackgroundScheduler S
      → BackgroundScheduler S × LaunchOutcome
  begin_run schedule run m = elim (port.save_run run m.store) [
    | none ↦ (m, refused (codes "launch-throw") [])
    | some s ↦
        let input : LaunchInput = record {
          project_id = schedule.project_id;
          goal = schedule.prompt;
          title = schedule.name;
        } in
        let m' =
          best_effort (port.set_active_run_id schedule.id (some run.run_id))
            (record m { store = s; active_runs = Dict.set schedule.id run.run_id m.active_runs }) in
        (record m' { launches = m'.launches ++ input ∷ [] }, o.launcher (length m'.launches) input)
  ]

  unfoldable pub running_run : ScheduledRunRecord → Text → Text → ScheduledRunRecord
  running_run run task now_iso = record run {
    status = ScheduledRunStatus.running;
    background_task_id = some task;
    started_at = some now_iso;
  }

  -- `run.startedAt ?? nowIso`.
  abbrev pub or_now : Option Text → Text → Option Text
  or_now none now = some now
  or_now (some t) now = some t

  unfoldable pub failed_run : ScheduledRunRecord → Text → Text → Text → ScheduledRunRecord
  failed_run run code message now_iso = record run {
    status = ScheduledRunStatus.failed;
    started_at = or_now run.started_at now_iso;
    finished_at = some now_iso;
    error = some (
        truncate (codes "launch-error [" ++ code ++ codes "] " ++ message)
          max_schedule_error_length);
  }

  -- The slot is free again.
  unfoldable pub release_slot : Text → BackgroundScheduler S → BackgroundScheduler S
  release_slot id m =
      best_effort (port.set_active_run_id id none)
        (record m { active_runs = Dict.delete id m.active_runs })

  -- `start` and `stop`: the one timer.
  unfoldable pub start : BackgroundScheduler S → BackgroundScheduler S
  start m = record m { is_running = true }

  unfoldable pub stop : BackgroundScheduler S → BackgroundScheduler S
  stop m = record m { is_running = false }
