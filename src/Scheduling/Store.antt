-- ===== src/Scheduling/Store.antt =====
-- packages/agent-runtime/src/runtime/scheduling/background-scheduler.ts: the store port of the scheduler and
-- the in-memory store. `none` is a thrown error, after which the store is as before.
use ai_desktop.Base.{ℕ, suc, Bool, Option, none, some, List, Text, filter, text_eq}
use ai_desktop.Base.Dict
use ai_desktop.Scheduling.Contract.{ScheduledTaskRecord, ScheduledRunRecord}

-- `S` is the state of the store.
pub record ScheduleStorePort (S : Type 0) : Type 0 where
  pub load_enabled : S → Option (List ScheduledTaskRecord)
  pub get_schedule : Text → S → Option (Option ScheduledTaskRecord)
  pub save_schedule : ScheduledTaskRecord → S → Option S
  pub save_run : ScheduledRunRecord → S → Option S
  pub list_runs : Text → S → Option (List ScheduledRunRecord)
  pub delete_run : Text → S → Option S
  pub get_active_run_id : Text → S → Option (Option Text)
  pub set_active_run_id : Text → Option Text → S → Option S
  pub get_queued_run_id : Text → S → Option (Option Text)
  pub set_queued_run_id : Text → Option Text → S → Option S

pub record InMemoryScheduleStore : Type 0 where
  pub schedules : List (Text × ScheduledTaskRecord)
  pub runs : List (Text × ScheduledRunRecord)
  pub active : List (Text × Text)
  pub parked : List (Text × Text)
  pub schedule_saves : ℕ
  pub run_saves : ℕ

unfoldable pub add_schedule : ScheduledTaskRecord → InMemoryScheduleStore → InMemoryScheduleStore
add_schedule r s = record s { schedules = Dict.set r.id r s.schedules }

unfoldable pub add_run : ScheduledRunRecord → InMemoryScheduleStore → InMemoryScheduleStore
add_run r s = record s { runs = Dict.set r.run_id r s.runs }

-- `map.set` or, for `undefined`, `map.delete`.
abbrev pub assign : Text → Option Text → List (Text × Text) → List (Text × Text)
assign k none m = Dict.delete k m
assign k (some v) m = Dict.set k v m

abbrev pub of_schedule : Text → ScheduledRunRecord → Bool
of_schedule id r = text_eq r.schedule_id id

abbrev pub in_memory_store : ScheduleStorePort InMemoryScheduleStore
in_memory_store = record {
  load_enabled = λ s. some (filter (λ r. r.enabled) (Dict.values s.schedules));
  get_schedule = λ id s. some (Dict.get id s.schedules);
  save_schedule = λ r s.
      some (record s {
        schedules = Dict.set r.id r s.schedules;
        schedule_saves = suc s.schedule_saves;
      });
  save_run =
      λ r s. some (record s { runs = Dict.set r.run_id r s.runs; run_saves = suc s.run_saves });
  list_runs = λ id s. some (filter (of_schedule id) (Dict.values s.runs));
  delete_run = λ id s. some (record s { runs = Dict.delete id s.runs });
  get_active_run_id = λ id s. some (Dict.get id s.active);
  set_active_run_id = λ id run s. some (record s { active = assign id run s.active });
  get_queued_run_id = λ id s. some (Dict.get id s.parked);
  set_queued_run_id = λ id run s. some (record s { parked = assign id run s.parked });
}
