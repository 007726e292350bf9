-- ===== src/Scheduling/Calculator/Stands.antt =====
-- schedule-calculator.ts: the instant that `zonedTimeToUtc` gives to a wall time.
use ai_desktop.Base.{
  ℕ, zero, suc, ◌+◌, ◌-◌, ◌*◌, ◌≤◌, ◌<◌, ◌≡◌, ◌↔◌, refl, true, false, ◌⊎◌, inl, inr, some, arith,
  Bool-cases, leb-cases, subst, sym, ◌∙◌,
}
use ai_desktop.Scheduling.Calendar.{Day, date_utc}
use ai_desktop.Scheduling.Calculator.{
  TzWallParts, WallClock, same_day, reads, at_or_past, correct, scan, resolve_wall,
}

-- The clock shows the wall time, or is at or past the minute of the day.
abbrev pub Reads : TzWallParts → Day → ℕ → ℕ → Type 0
Reads p day hour minute = (p.date ≡ day) × (p.hour ≡ hour) × (p.minute ≡ minute)

abbrev pub IsPast : TzWallParts → Day → ℕ → Type 0
IsPast p day target = (p.date ≡ day) × (target ≤ p.hour * 60 + p.minute)

same_day_iff : (a b : Day) → (same_day a b ≡ true) ↔ (a ≡ b)
same_day_iff a b = (λ h. ground arith, λ e. ground arith)

reads-Reads :
    (p : TzWallParts) (day : Day) (hour minute : ℕ)
    → (reads p day hour minute ≡ true) ↔ Reads p day hour minute
reads-Reads p day hour minute = (
  λ h. ((same_day_iff p.date day).0 (ground arith), ground arith, ground arith),
  λ (d, h, m). ground (arith, (same_day_iff p.date day).1 d),
)

at_or_past-IsPast :
    (p : TzWallParts) (day : Day) (target : ℕ)
    → (at_or_past p day target ≡ true) ↔ IsPast p day target
at_or_past-IsPast p day target = (
  λ h. ((same_day_iff p.date day).0 (ground arith), ground arith),
  λ (d, h). ground (arith, (same_day_iff p.date day).1 d),
)

-- An instant moved by as much as the zone's clock is off a wall time there.
abbrev pub moved : WallClock → ℕ → ℕ → ℕ
moved wall u guess =
    u + guess - date_utc (wall guess).date (wall guess).hour (wall guess).minute (wall guess).second

-- The wall time, read as a time in UTC, moved three times.
abbrev pub moved_thrice : WallClock → ℕ → ℕ
moved_thrice wall u = moved wall u (moved wall u (moved wall u u))

-- The `i`-th minute of the 36 hours around a time in UTC.
abbrev pub around : ℕ → ℕ → ℕ
around u i = (u - 18 * 3600000) + i * 60000

-- The first minute of these hours at which the clock, on the day, is at or past the wall time, less its seconds.
pub record FirstPast (wall : WallClock) (day : Day) (hour minute t : ℕ) : Type 0 where
  pub i : ℕ
  pub within : i ≤ 2160
  pub past : IsPast (wall (around (date_utc day hour minute 0) i)) day (hour * 60 + minute)
  pub earlier :
      (j : ℕ)
      → j < i
      → ¬ (IsPast (wall (around (date_utc day hour minute 0) j)) day (hour * 60 + minute))
  pub at :
      t
      ≡ around (date_utc day hour minute 0) i
        - (wall (around (date_utc day hour minute 0) i)).second * 1000

-- The instant moved three times if the clock shows the wall time there, else the first minute past it.
abbrev pub Stands : WallClock → Day → ℕ → ℕ → ℕ → Type 0
Stands wall day hour minute t =
    ((t ≡ moved_thrice wall (date_utc day hour minute 0)) × Reads (wall t) day hour minute)
    ⊎ (¬ (Reads (wall (moved_thrice wall (date_utc day hour minute 0))) day hour minute)
        × FirstPast wall day hour minute t)

correct-moved_thrice : (wall : WallClock) (u : ℕ) → correct wall 3 u u ≡ moved_thrice wall u
unfolding correct
correct-moved_thrice wall u = refl

module _ (wall : WallClock) (day : Day) (hour minute start : ℕ) where
  -- The scan from the `k`-th minute on.
  record Scanned (left k t : ℕ) : Type 0 where
    i : ℕ
    from : k ≤ i
    within : i < k + left
    past : at_or_past (wall (start + i * 60000)) day (hour * 60 + minute) ≡ true
    earlier :
        (j : ℕ)
        → k ≤ j
        → j < i
        → at_or_past (wall (start + j * 60000)) day (hour * 60 + minute) ≡ false
    at : t ≡ (start + i * 60000) - (wall (start + i * 60000)).second * 1000

  scan_later :
      (left k t : ℕ)
      → at_or_past (wall (start + k * 60000)) day (hour * 60 + minute) ≡ false
      → Scanned left (suc k) t
      → Scanned (suc left) k t
  scan_later left k t here s = record {
    i = s.i;
    from = omega (arith, s.from);
    within = omega (arith, s.within);
    past = s.past;
    earlier = λ j low high. elim (leb-cases (suc k) j) [
      | inl more ↦ s.earlier j more high
      | inr same ↦
          let e : j ≡ k = omega arith in
          subst (λ x. at_or_past (wall (start + x * 60000)) day (hour * 60 + minute) ≡ false)
            (sym e) here
    ];
    at = s.at;
  }

  scan-Scanned :
      (left k c t : ℕ)
      → c ≡ start + k * 60000
      → scan wall left day (hour * 60 + minute) c ≡ some t
      → Scanned left k t
  unfolding scan
  scan-Scanned zero k c t e h = cc
  scan-Scanned (suc left) k c t e h =
      elim (Bool-cases (at_or_past (wall c) day (hour * 60 + minute))) [
        | inl here ↦ record {
          i = k;
          from = omega arith;
          within = omega arith;
          past = subst (λ x. at_or_past (wall x) day (hour * 60 + minute) ≡ true) e here;
          earlier = λ j low high. absurd (omega arith);
          at =
              let found : t ≡ c - (wall c).second * 1000 = ground arith in
              subst (λ x. t ≡ x - (wall x).second * 1000) e found;
        }
        | inr later ↦
            scan_later left k t
              (subst (λ x. at_or_past (wall x) day (hour * 60 + minute) ≡ false) e later)
              (scan-Scanned left (suc k) (c + 60000) t (omega (arith, e)) (ground arith))
      ]

pub resolve_wall-Stands :
    (wall : WallClock) (day : Day) (hour minute : ℕ) {t : ℕ}
    → resolve_wall wall day hour minute ≡ some t
    → Stands wall day hour minute t
unfolding resolve_wall
resolve_wall-Stands wall day hour minute {t} h =
    let u = date_utc day hour minute 0 in
    let guess = correct wall 3 u u in
    let same = correct-moved_thrice wall u in
    elim (Bool-cases (reads (wall guess) day hour minute)) [
      | inl exact ↦
          let here : t ≡ guess = ground arith in
          inl (
            here ∙ same,
            subst (λ x. Reads (wall x) day hour minute) (sym here)
                ((reads-Reads (wall guess) day hour minute).0 exact),
          )
      | inr gap ↦
          let s =
            scan-Scanned wall day hour minute (u - 18 * 3600000) 2161 0 (u - 18 * 3600000) t
              (omega arith) (ground arith) in
          inr (
            subst (λ x. ¬ (Reads (wall x) day hour minute)) same
                (λ r. ground (arith, gap, (reads-Reads (wall guess) day hour minute).1 r)),
            record {
              i = s.i;
              within = omega (arith, s.within);
              past = (at_or_past-IsPast (wall (around u s.i)) day (hour * 60 + minute)).0 s.past;
              earlier = λ j low p. ground (
                arith,
                s.earlier j (omega arith) low,
                (at_or_past-IsPast (wall (around u j)) day (hour * 60 + minute)).1 p,
              );
              at = s.at;
            },
          )
    ]
