-- ===== src/Scheduling/Calculator/Wall.antt =====
-- schedule-calculator.ts: where the daily and weekly times stand.
use ai_desktop.Base.{ℕ, ◌≤◌, ◌<◌, ◌≡◌, true, Option, none, some, Text}
use ai_desktop.Scheduling.Contract.{ScheduleConfig, RawParts, Intl}
use ai_desktop.Scheduling.Calendar.{Day}
use ai_desktop.Scheduling.Calculator.{wall_parts, add_wall_days, on_weekday, zoned_time_to_utc}
use ai_desktop.Scheduling.Calculator.Stands.{Stands}

module _ (intl : Intl) where
  -- The instant resolves the wall time on the `k`-th day from `start`, the first day of the weekday whose
  -- wall time is after `after`.
  pub record Found (weekday : Option ℕ) (timezone : Text) (hour minute after : ℕ) (start : Day)
      (d t : ℕ) : Type 0 where
    pub k : ℕ
    pub from : d ≤ k
    pub later : after < t
    pub on_day : on_weekday weekday (add_wall_days start k) ≡ true
    pub resolved : zoned_time_to_utc intl timezone (add_wall_days start k) hour minute ≡ some t
    pub first :
        (j u : ℕ)
        → d ≤ j
        → j < k
        → on_weekday weekday (add_wall_days start j) ≡ true
        → zoned_time_to_utc intl timezone (add_wall_days start j) hour minute ≡ some u
        → u ≤ after

abbrev pub weekday_in : ScheduleConfig → Option ℕ
weekday_in (ScheduleConfig.weekly weekday hour minute) = some weekday
weekday_in _ = none

abbrev pub hour_in : ScheduleConfig → ℕ
hour_in (ScheduleConfig.weekly weekday hour minute) = hour
hour_in (ScheduleConfig.daily hour minute) = hour
hour_in _ = 0

abbrev pub minute_in : ScheduleConfig → ℕ
minute_in (ScheduleConfig.weekly weekday hour minute) = minute
minute_in (ScheduleConfig.daily hour minute) = minute
minute_in _ = 0

-- The next time after `after` that a daily or weekly schedule asks for, by the clock of its zone.
pub record NextOccurrence (intl : Intl) (timezone : Text) (config : ScheduleConfig) (after t : ℕ)
    : Type 0 where
  pub format : ℕ → RawParts
  pub zone : intl.formatter timezone ≡ some format
  pub found :
      Found intl
        (weekday_in config)
        timezone
        (hour_in config)
        (minute_in config)
        after
        (wall_parts format after).date
        0
        t
  pub stands :
      Stands
        (wall_parts format)
        (add_wall_days (wall_parts format after).date found.k)
        (hour_in config)
        (minute_in config)
        t

rounds_in : ScheduleConfig → ℕ
rounds_in (ScheduleConfig.weekly weekday hour minute) = 8
rounds_in _ = 371
