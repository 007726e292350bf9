-- ===== src/Scheduling/Calendar.antt =====
-- JavaScript's UTC calendar, as schedule-calculator.ts uses it: `Date.UTC`, `getUTCFullYear`, `getUTCMonth`,
-- `getUTCDate` and `getUTCDay`. An instant counts milliseconds from 0000-03-01, so that no date that a
-- schedule can name is negative; the source counts from 1970-01-01, 719468 days later.
use ai_desktop.Base.{ℕ, suc, ◌+◌, ◌-◌, ◌*◌, ◌/◌, ◌%◌, ◌≤◌, ◌<◌, ◌≡◌, ◌∙◌, ltb, if◌then◌else◌, arith}

abbrev pub day_ms : ℕ
day_ms = 86400000

abbrev pub era_days : ℕ
era_days = 146097

-- Years begin in March, so that the leap day is a year's last.
pub record Day : Type 0 where
  pub year : ℕ
  pub month1 : ℕ
  pub day : ℕ

-- The days of the years before the `y`-th of an era of 400.
abbrev pub year_start : ℕ → ℕ
year_start y = y * 365 + y / 4 - y / 100

-- The days of the months before the `m`-th from March.
abbrev pub month_start : ℕ → ℕ
month_start m = (153 * m + 2) / 5

abbrev march_year : Day → ℕ
march_year d = if ltb d.month1 3 then d.year - 1 else d.year

abbrev march_month : Day → ℕ
march_month d = if ltb d.month1 3 then d.month1 + 9 else d.month1 - 3

-- `Date.UTC` in days.
unfoldable pub days_of : Day → ℕ
days_of d =
    let y = march_year d in
    y / 400 * era_days + year_start (y % 400) + month_start (march_month d) + (d.day - 1)

-- The year of an era that a day of it falls in.
abbrev year_of_era : ℕ → ℕ
year_of_era doe = (doe - doe / 1460 + doe / 36524 - doe / 146096) / 365

abbrev from_march : ℕ → ℕ → ℕ → Day
from_march y m d = record {
  year = if ltb m 10 then y else suc y;
  month1 = if ltb m 10 then m + 3 else m - 9;
  day = d;
}

-- The fields of a date.
unfoldable pub day_of : ℕ → Day
day_of z =
    let doe = z % era_days in
    let yoe = year_of_era doe in
    let doy = doe - year_start yoe in
    let m = (5 * doy + 2) / 153 in from_march (z / era_days * 400 + yoe) m (doy - month_start m + 1)

-- `getUTCDay`.
unfoldable pub weekday_of : ℕ → ℕ
weekday_of z = (z + 3) % 7

-- `Date.UTC` takes a year below 100 for one of the twentieth century.
unfoldable pub date_utc : Day → ℕ → ℕ → ℕ → ℕ
date_utc d hour minute second =
    days_of (if ltb d.year 100 then record d { year = 1900 + d.year } else d) * day_ms
    + hour * 3600000
    + minute * 60000
    + second * 1000

year_part :
    (doe : ℕ)
    → doe < era_days
    → (year_of_era doe ≤ 399)
      × (year_start (year_of_era doe) ≤ doe)
      × (doe - year_start (year_of_era doe) ≤ 365)
year_part doe h = omega arith

whole :
    (e doe y m z : ℕ)
    → y ≤ doe
    → m ≤ doe - y
    → z ≡ e * era_days + doe
    → e * era_days + y + m + (doe - y - m + 1 - 1) ≡ z
whole e doe y m z h k p = omega arith

month_part :
    (doy : ℕ) → doy ≤ 365 → ((5 * doy + 2) / 153 ≤ 11) × (month_start ((5 * doy + 2) / 153) ≤ doy)
month_part doy h = omega arith

days_of-from_march :
    (e y m d : ℕ)
    → y < 400
    → m ≤ 11
    → days_of (from_march (e * 400 + y) m d) ≡ e * era_days + year_start y + month_start m + (d - 1)
unfolding days_of
days_of-from_march e y m d h k = ground arith

-- The fields of the `z`-th day name that day.
pub days_of-day_of : (z : ℕ) → days_of (day_of z) ≡ z
unfolding day_of
days_of-day_of z =
    let doe = z % era_days in
    let yoe = year_of_era doe in
    let doy = doe - year_start yoe in
    let m = (5 * doy + 2) / 153 in
    let (small, below, fits) = year_part doe (omega arith) in
    let (eleven, within) = month_part doy fits in
    days_of-from_march (z / era_days) yoe m (doy - month_start m + 1) (omega arith) eleven
    ∙ whole (z / era_days) doe (year_start yoe) (month_start m) z below within (omega arith)
