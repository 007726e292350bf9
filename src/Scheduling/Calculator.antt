-- ===== src/Scheduling/Calculator.antt =====
-- packages/agent-runtime/src/runtime/scheduling/schedule-calculator.ts: the times at which a schedule is due.
-- Instants are counted as in Calendar; `none` is a thrown validation error. `Intl` and `Date.parse` (`none`
-- for NaN) are arguments, and a config is the one that its kind asks for once it is checked.
pub mod Stands
pub mod Wall
pub mod Due
pub mod Pointer
use ai_desktop.Base.{
  ℕ, zero, suc, ◌+◌, ◌-◌, ◌*◌, ◌/◌, ◌%◌, Bool, true, false, not, ◌&&◌, ◌||◌, Option, none, some,
  Text, ltb, leb, ◌==◌, if◌then◌else◌,
}
use ai_desktop.Schemas.{◌>>=◌}
use ai_desktop.Scheduling.Contract.{
  ScheduleKind, ScheduleConfig, config_matches_kind, below_floor, min_interval_ms, or_default,
  RawParts, Intl, is_valid_timezone,
}
use ai_desktop.Scheduling.Calendar.{Day, days_of, day_of, weekday_of, date_utc, day_ms}

pub record OccurrenceQuery : Type 0 where
  pub kind : ScheduleKind
  pub config : ScheduleConfig
  pub timezone : Text
  -- `none` also where it is not finite.
  pub created_at_ms : Option ℕ

pub record DueWindow : Type 0 where
  pub query : OccurrenceQuery
  pub anchor_ms : ℕ
  pub now_ms : ℕ
  pub consumed : Bool

pub record DueResult : Type 0 where
  pub count : ℕ
  pub earliest_ms : Option ℕ
  pub latest_ms : Option ℕ

abbrev pub empty : DueResult
empty = record { count = 0; earliest_ms = none; latest_ms = none }

-- The wall clock of a zone; midnight may be printed as 24.
pub record TzWallParts : Type 0 where
  pub date : Day
  pub hour : ℕ
  pub minute : ℕ
  pub second : ℕ

abbrev pub WallClock : Type 0
WallClock = ℕ → TzWallParts

unfoldable pub wall_parts : (ℕ → RawParts) → WallClock
wall_parts format ms =
    let p = format ms in
    record {
      date = record { year = p.year; month1 = p.month; day = p.day };
      hour = p.hour % 24;
      minute = p.minute;
      second = p.second;
    }

abbrev pub same_day : Day → Day → Bool
same_day a b = (a.year == b.year) && (a.month1 == b.month1) && (a.day == b.day)

abbrev pub reads : TzWallParts → Day → ℕ → ℕ → Bool
reads p day hour minute = same_day p.date day && (p.hour == hour) && (p.minute == minute)

-- The scan looks for an instant of the same day at the target or past it.
abbrev pub at_or_past : TzWallParts → Day → ℕ → Bool
at_or_past p day target = same_day p.date day && leb target (p.hour * 60 + p.minute)

module _ (wall : WallClock) where
  -- The three rounds that correct the guess by the offset at the guess.
  unfoldable pub correct : ℕ → ℕ → ℕ → ℕ
  correct zero wall_as_utc guess = guess
  correct (suc i) wall_as_utc guess =
      let p = wall guess in
      correct i wall_as_utc (wall_as_utc + guess - date_utc p.date p.hour p.minute p.second)

  -- The scan, minute by minute, by the candidates that are left.
  unfoldable pub scan : ℕ → Day → ℕ → ℕ → Option ℕ
  scan zero day target candidate = none
  scan (suc left) day target candidate =
      let later = scan left day target (candidate + 60000) in
      let p = wall candidate in
      if at_or_past p day target then some (candidate - p.second * 1000) else later

  -- The scan spans 36 hours, both ends included.
  unfoldable pub resolve_wall : Day → ℕ → ℕ → Option ℕ
  resolve_wall day hour minute =
      let wall_as_utc = date_utc day hour minute 0 in
      let guess = correct 3 wall_as_utc wall_as_utc in
      if reads (wall guess) day hour minute
      then some guess
      else scan 2161 day (hour * 60 + minute) (wall_as_utc - 18 * 3600000)

unfoldable pub add_wall_days : Day → ℕ → Day
add_wall_days d delta = day_of (days_of d + delta)

-- The weekday that a weekly schedule asks for.
abbrev pub on_weekday : Option ℕ → Day → Bool
on_weekday none day = true
on_weekday (some weekday) day = weekday_of (days_of day) == weekday

-- The loop of `countDueOccurrences`, with the rounds that the guard leaves.
unfoldable pub enumerate : ℕ → (ℕ → Option ℕ) → ℕ → DueResult → Option ℕ → Option DueResult
enumerate left next now found none = none
enumerate zero next now found (some cursor) = if leb cursor now then none else some found
enumerate (suc left) next now found (some cursor) =
    let rest =
      enumerate left next now
        (record {
          count = suc found.count;
          earliest_ms = some (or_default found.earliest_ms cursor);
          latest_ms = some cursor;
        })
        (next cursor) in
    if leb cursor now then rest else some found

module _ (intl : Intl) where
  unfoldable pub zoned_time_to_utc : Text → Day → ℕ → ℕ → Option ℕ
  zoned_time_to_utc timezone day hour minute =
      if is_valid_timezone intl timezone
      then elim (intl.formatter timezone) [
        | none ↦ none
        | some format ↦ resolve_wall (wall_parts format) day hour minute
      ]
      else none

  -- The loops over the days, by the days that are left; `weekday` is set for a weekly schedule.
  unfoldable pub first_after : ℕ → Option ℕ → Text → ℕ → ℕ → ℕ → Day → ℕ → Option ℕ
  first_after zero weekday timezone hour minute after start d = none
  first_after (suc left) weekday timezone hour minute after start d =
      let later = first_after left weekday timezone hour minute after start (suc d) in
      let day = add_wall_days start d in
      elim (on_weekday weekday day) [
        | false ↦ later
        | true ↦ elim (zoned_time_to_utc timezone day hour minute) [
          | none ↦ none
          | some utc ↦ if ltb after utc then some utc else later
        ]
      ]

  abbrev start_of : Option (ℕ → RawParts) → ℕ → (Day → Option ℕ) → Option ℕ
  start_of none ms k = none
  start_of (some format) ms k = k (wall_parts format ms).date

  unfoldable pub first_daily_after : Text → ℕ → ℕ → ℕ → Option ℕ
  first_daily_after timezone hour minute after =
      start_of (intl.formatter timezone) after
        (λ start. first_after 371 none timezone hour minute after start 0)

  unfoldable pub first_weekly_after : Text → ℕ → ℕ → ℕ → ℕ → Option ℕ
  first_weekly_after timezone weekday hour minute after =
      start_of (intl.formatter timezone) after
        (λ start. first_after 8 (some weekday) timezone hour minute after start 0)

  unfoldable pub first_wall_after : Text → ScheduleConfig → ℕ → Option ℕ
  first_wall_after timezone (ScheduleConfig.weekly weekday hour minute) after =
      first_weekly_after timezone weekday hour minute after
  first_wall_after timezone (ScheduleConfig.daily hour minute) after =
      first_daily_after timezone hour minute after
  -- Not called for the other kinds; `c.hour ?? 0` and `c.minute ?? 0` are then 0.
  first_wall_after timezone _ after = first_daily_after timezone 0 0 after

  unfoldable pub checked_query : Option ℕ → OccurrenceQuery → Bool
  checked_query floor q =
      is_valid_timezone intl q.timezone
      && config_matches_kind q.kind q.config
      && not (below_floor (or_default floor min_interval_ms) q.config)

  module _ (date_parse : Text → Option ℕ) (floor : Option ℕ) where
    abbrev delay_fire_ms : Option ℕ → ℕ → Option ℕ
    delay_fire_ms none ms = none
    delay_fire_ms (some created) ms = some (created + ms)

    initial : OccurrenceQuery → ScheduleConfig → Option ℕ
    initial q (ScheduleConfig.once run_at) = date_parse run_at
    initial q (ScheduleConfig.delay ms) = delay_fire_ms q.created_at_ms ms
    initial q (ScheduleConfig.interval ms) = delay_fire_ms q.created_at_ms ms
    initial q c = elim q.created_at_ms [
      | none ↦ none
      | some created ↦ first_wall_after q.timezone c created
    ]

    unfoldable pub initial_occurrence_ms : OccurrenceQuery → Option ℕ
    unfolding initial
    initial_occurrence_ms q = if checked_query floor q then initial q q.config else none

    next_handled : OccurrenceQuery → ℕ → ScheduleConfig → Option (Option ℕ)
    next_handled q handled (ScheduleConfig.once run_at) = some none
    next_handled q handled (ScheduleConfig.delay ms) = some none
    next_handled q handled (ScheduleConfig.interval ms) = some (some (handled + ms))
    next_handled q handled c = do t ← first_wall_after q.timezone c handled; some (some t)

    -- A result `some none` is the `null` of the source.
    unfoldable pub next_after_handled_ms : OccurrenceQuery → ℕ → Option (Option ℕ)
    unfolding next_handled
    next_after_handled_ms q handled =
        if checked_query floor q then next_handled q handled q.config else none

    -- The fire time of a one-shot schedule, `null` once it is past.
    abbrev pending : Bool → ℕ → Option ℕ → Option (Option ℕ)
    pending true now t = some none
    pending false now none = none
    pending false now (some t) = some (if ltb now t then some t else none)

    pointer : OccurrenceQuery → ℕ → Bool → ℕ → ScheduleConfig → Option (Option ℕ)
    pointer q anchor consumed now (ScheduleConfig.once run_at) =
        pending consumed now (date_parse run_at)
    pointer q anchor consumed now (ScheduleConfig.delay ms) =
        pending consumed now (delay_fire_ms q.created_at_ms ms)
    pointer q anchor consumed now (ScheduleConfig.interval ms) =
        some
          (some (if ltb now anchor then anchor + ms else anchor + ((now - anchor) / ms + 1) * ms))
    pointer q anchor consumed now c = do t ← first_wall_after q.timezone c now; some (some t)

    unfoldable pub next_pointer_after_now : OccurrenceQuery → ℕ → Bool → ℕ → Option (Option ℕ)
    unfolding pointer
    next_pointer_after_now q anchor consumed now =
        if checked_query floor q then pointer q anchor consumed now q.config else none

    -- The one fire time, if the window holds it.
    abbrev single : Bool → ℕ → ℕ → Option ℕ → Option DueResult
    single true anchor now t = some empty
    single false anchor now none = none
    single false anchor now (some t) = some (
        if ltb anchor t && leb t now
        then record { count = 1; earliest_ms = some t; latest_ms = some t }
        else empty)

    due : DueWindow → ScheduleConfig → Option DueResult
    due w (ScheduleConfig.once run_at) = single w.consumed w.anchor_ms w.now_ms (date_parse run_at)
    due w (ScheduleConfig.delay ms) =
        single w.consumed w.anchor_ms w.now_ms (delay_fire_ms w.query.created_at_ms ms)
    due w (ScheduleConfig.interval ms) =
        let count = (w.now_ms - w.anchor_ms) / ms in
        some (
          if ltb count 1 then empty else record {
            count = count;
            earliest_ms = some (w.anchor_ms + ms);
            latest_ms = some (w.anchor_ms + count * ms);
          })
    due w c =
        enumerate 4000 (first_wall_after w.query.timezone c) w.now_ms empty
          (first_wall_after w.query.timezone c w.anchor_ms)

    unfoldable pub count_due_occurrences : DueWindow → Option DueResult
    unfolding due
    count_due_occurrences w =
        if checked_query floor w.query
        then (if leb w.now_ms w.anchor_ms then some empty else due w w.query.config)
        else none
