-- ===== src/Scheduling/Calculator/Due.antt =====
-- What `countDueOccurrences` of schedule-calculator.ts counts: the occurrences after the anchor up to now.
use native.Mathlib.Nat.{div-eq_of_lt, div-mul-le_self, lt-div-mul-add}
use ai_desktop.Base.{
  ℕ, zero, suc, ◌+◌, ◌-◌, ◌*◌, ◌/◌, ◌≤◌, ◌<◌, ◌≡◌, ◌↔◌, refl, ◌∙◌, sym, ap, subst, Bool, true,
  false, inl, inr, Option, some, List, [], ◌∷◌, Text, ltb, length, if◌then◌else◌, arith,
  Option-cases, leb-cases,
}
use ai_desktop.Scheduling.Contract.{ScheduleConfig, Intl, or_default}
use ai_desktop.Scheduling.Calculator.{
  DueWindow, DueResult, empty, first_wall_after, checked_query, enumerate, count_due_occurrences,
  due,
}

-- The occurrences after `t` up to now are these, each the next of the one before.
abbrev pub Chain : (ℕ → Option ℕ) → ℕ → ℕ → List ℕ → Type 0
Chain next now t [] = (u : ℕ) × (next t ≡ some u) × (now < u)
Chain next now t (u ∷ us) = (next t ≡ some u) × (u ≤ now) × Chain next now u us

-- How `found` reads once these occurrences are added.
abbrev pub tally : DueResult → List ℕ → DueResult
tally found [] = found
tally found (u ∷ us) =
    tally
      (record {
        count = suc found.count;
        earliest_ms = some (or_default found.earliest_ms u);
        latest_ms = some u;
      })
      us

module _ (next : ℕ → Option ℕ) (now : ℕ) where
  -- An enumeration that returns has counted a chain.
  enumerate-Chain :
      (left t : ℕ) (found r : DueResult)
      → enumerate left next now found (next t) ≡ some r
      → (us : List ℕ) × Chain next now t us × (length us ≤ left) × (r ≡ tally found us)
  unfolding enumerate
  enumerate-Chain zero t found r e = elim (Option-cases (next t)) [
    | inl missing ↦ absurd (ground arith)
    | inr (u, p) ↦ elim (leb-cases u now) [
      | inl due ↦ absurd (ground arith)
      | inr past ↦ ([], (u, p, past), omega arith, ground arith)
    ]
  ]
  enumerate-Chain (suc left) t found r e = elim (Option-cases (next t)) [
    | inl missing ↦ absurd (ground arith)
    | inr (u, p) ↦ elim (leb-cases u now) [
      | inl due ↦
          let (us, chain, short, sum) = enumerate-Chain left u _ r (ground arith) in
          (u ∷ us, (p, due, chain), omega arith, sum)
      | inr past ↦ ([], (u, p, past), omega arith, ground arith)
    ]
  ]

  -- A chain that is not too long is enumerated.
  Chain-enumerate :
      (left t : ℕ) (found : DueResult) (us : List ℕ)
      → Chain next now t us
      → length us ≤ left
      → enumerate left next now found (next t) ≡ some (tally found us)
  unfolding enumerate
  Chain-enumerate zero t found [] (u, p, past) h = ground arith
  Chain-enumerate (suc left) t found [] (u, p, past) h = ground arith
  Chain-enumerate zero t found (u ∷ us) c h = absurd (omega arith)
  Chain-enumerate (suc left) t found (u ∷ us) (p, due, chain) h =
      let rest =
        Chain-enumerate left u
          (record {
            count = suc found.count;
            earliest_ms = some (or_default found.earliest_ms u);
            latest_ms = some u;
          })
          us chain (omega arith) in
      ground arith

  -- Nothing follows the last time of a chain.
  Chain-last :
      (t x : ℕ) (us : List ℕ) (found : DueResult)
      → Chain next now t us
      → found.latest_ms ≡ some t
      → (tally found us).latest_ms ≡ some x
      → Chain next now x []
  Chain-last t x [] found (u, p, past) f e = (u, ground arith, past)
  Chain-last t x (u ∷ us) found (p, due, c) f e =
      Chain-last u x us
        (record {
          count = suc found.count;
          earliest_ms = some (or_default found.earliest_ms u);
          latest_ms = some u;
        })
        c refl e

  Chain-latest :
      (t x : ℕ) (us : List ℕ)
      → Chain next now t us
      → (tally empty us).latest_ms ≡ some x
      → Chain next now x []
  Chain-latest t x [] c e = cc
  Chain-latest t x (u ∷ us) (p, due, c) e =
      Chain-last u x us (record { count = 1; earliest_ms = some u; latest_ms = some u }) c refl e

  -- There is one chain at most.
  Chain-unique : (t : ℕ) (us vs : List ℕ) → Chain next now t us → Chain next now t vs → us ≡ vs
  Chain-unique t [] [] c d = refl
  Chain-unique t [] (v ∷ vs) (u, p, past) (q, due, d) = absurd (ground arith)
  Chain-unique t (u ∷ us) [] (p, due, c) (v, q, past) = absurd (ground arith)
  Chain-unique t (u ∷ us) (v ∷ vs) (p, due, c) (q, due', d) =
      let same : u ≡ v = ground arith in
      ground (arith, Chain-unique u us vs c (subst (λ z. Chain next now z vs) (sym same) d))

-- The times of an interval schedule.
abbrev pub every : ℕ → ℕ → Option ℕ
every ms t = some (t + ms)

grid : ℕ → ℕ → ℕ → List ℕ
grid ms zero t = []
grid ms (suc k) t = (t + ms) ∷ grid ms k (t + ms)

grid-Chain :
    (now ms k t : ℕ)
    → t + k * ms ≤ now
    → now < t + k * ms + ms
    → Chain (every ms) now t (grid ms k t)
unfolding grid
grid-Chain now ms zero t low high = (t + ms, refl, grind arith)
grid-Chain now ms (suc k) t low high =
    (refl, grind arith, grid-Chain now ms k (t + ms) (grind arith) (grind arith))

tally-grid :
    (ms k t : ℕ) (found : DueResult)
    → tally found (grid ms (suc k) t) ≡ record {
      count = found.count + suc k;
      earliest_ms = some (or_default found.earliest_ms (t + ms));
      latest_ms = some (t + suc k * ms);
    }
unfolding grid
tally-grid ms zero t found = grind arith
tally-grid ms (suc k) t found =
    tally-grid ms k (t + ms) (record {
      count = suc found.count;
      earliest_ms = some (or_default found.earliest_ms (t + ms));
      latest_ms = some (t + ms);
    })
    ∙ grind arith

-- The next time after an instant, for a schedule that repeats.
abbrev pub next_of : Intl → Text → ScheduleConfig → ℕ → Option ℕ
next_of intl timezone (ScheduleConfig.interval ms) = every ms
next_of intl timezone config = first_wall_after intl timezone config

abbrev pub repeats : ScheduleConfig → Bool
repeats (ScheduleConfig.once run_at) = false
repeats (ScheduleConfig.delay ms) = false
repeats _ = true

-- An interval is not 0; clock times are enumerated up to the guard.
abbrev pub Within : ScheduleConfig → List ℕ → Type 0
Within (ScheduleConfig.interval ms) us = 1 ≤ ms
Within _ us = length us ≤ 4000

interval_due :
    (now anchor ms : ℕ)
    → 1 ≤ ms
    → anchor < now
    → Chain (every ms) now anchor (grid ms ((now - anchor) / ms) anchor)
interval_due now anchor ms h later =
    grid-Chain now ms ((now - anchor) / ms) anchor
      (omega (arith, div-mul-le_self (now - anchor) ms))
      (omega (arith, lt-div-mul-add {a = now - anchor} {b = ms} (omega arith)))

interval_sum :
    (ms anchor k : ℕ)
    → tally empty (grid ms k anchor) ≡ (
        if ltb k 1 then empty else record {
          count = k;
          earliest_ms = some (anchor + ms);
          latest_ms = some (anchor + k * ms);
        })
unfolding grid
interval_sum ms anchor zero = refl
interval_sum ms anchor (suc k) = tally-grid ms k anchor empty ∙ ground arith

module _ (intl : Intl) (date_parse : Text → Option ℕ) (floor : Option ℕ) (w : DueWindow)
    (later : w.anchor_ms < w.now_ms) where
  -- The occurrences of the window are these.
  abbrev Occurrences : ScheduleConfig → List ℕ → Type 0
  Occurrences c us = Within c us × Chain (next_of intl w.query.timezone c) w.now_ms w.anchor_ms us

  due-Occurrences :
      (c : ScheduleConfig) (us : List ℕ)
      → repeats c ≡ true
      → Occurrences c us
      → due intl date_parse floor w c ≡ some (tally empty us)
  unfolding due
  due-Occurrences (ScheduleConfig.once run_at) us rep o = cc
  due-Occurrences (ScheduleConfig.delay ms) us rep o = cc
  due-Occurrences (ScheduleConfig.interval ms) us rep (h, chain) =
      let k = (w.now_ms - w.anchor_ms) / ms in
      let same =
        Chain-unique (every ms) w.now_ms w.anchor_ms us (grid ms k w.anchor_ms) chain
          (interval_due w.now_ms w.anchor_ms ms h later) in
      ap some (sym (ap (tally empty) same ∙ interval_sum ms w.anchor_ms k))
  due-Occurrences (ScheduleConfig.daily hour minute) us rep (short, chain) =
      Chain-enumerate (first_wall_after intl w.query.timezone (ScheduleConfig.daily hour minute))
        w.now_ms 4000 w.anchor_ms empty us chain short
  due-Occurrences (ScheduleConfig.weekly weekday hour minute) us rep (short, chain) =
      Chain-enumerate
        (first_wall_after intl w.query.timezone (ScheduleConfig.weekly weekday hour minute))
        w.now_ms 4000 w.anchor_ms empty us chain short

  Occurrences-due :
      (c : ScheduleConfig) (r : DueResult)
      → repeats c ≡ true
      → Within c []
      → due intl date_parse floor w c ≡ some r
      → (us : List ℕ) × Occurrences c us × (r ≡ tally empty us)
  unfolding due
  Occurrences-due (ScheduleConfig.once run_at) r rep h e = cc
  Occurrences-due (ScheduleConfig.delay ms) r rep h e = cc
  Occurrences-due (ScheduleConfig.interval ms) r rep h e =
      let k = (w.now_ms - w.anchor_ms) / ms in
      (
        grid ms k w.anchor_ms,
        (h, interval_due w.now_ms w.anchor_ms ms h later),
        ground (arith, interval_sum ms w.anchor_ms k),
      )
  Occurrences-due (ScheduleConfig.daily hour minute) r rep h e =
      let (us, chain, short, sum) =
        enumerate-Chain (first_wall_after intl w.query.timezone (ScheduleConfig.daily hour minute))
          w.now_ms 4000 w.anchor_ms empty r e in
      (us, (short, chain), sum)
  Occurrences-due (ScheduleConfig.weekly weekday hour minute) r rep h e =
      let (us, chain, short, sum) =
        enumerate-Chain
          (first_wall_after intl w.query.timezone (ScheduleConfig.weekly weekday hour minute))
          w.now_ms 4000 w.anchor_ms empty r e in
      (us, (short, chain), sum)

  -- With a window that is not empty, a schedule that repeats is due exactly at the times of its chain from
  -- the anchor up to now, and the result is their number, the first and the last: for an interval, whose
  -- count comes from a division, as for clock times, which are enumerated. The enumeration fails where there
  -- are more than 4000 times, or no next one.
  pub count_due_occurrences-Chain :
      (r : DueResult)
      → repeats w.query.config ≡ true
      → checked_query intl floor w.query ≡ true
      → Within w.query.config []
      → (count_due_occurrences intl date_parse floor w ≡ some r) ↔ (
          (us : List ℕ) × Within w.query.config us
          × Chain (next_of intl w.query.timezone w.query.config) w.now_ms w.anchor_ms us
          × (r ≡ tally empty us))
  unfolding count_due_occurrences
  count_due_occurrences-Chain r rep checked h =
      let q = w.query in
      (
        λ e.
            let (us, o, sum) = Occurrences-due q.config r rep h (ground arith) in
            (us, o.0, o.1, sum),
        λ (us, short, chain, sum). ground (arith, due-Occurrences q.config us rep (short, chain)),
      )

  due_handled :
      (c : ScheduleConfig) (r : DueResult) (latest : ℕ)
      → Within c []
      → due intl date_parse floor w c ≡ some r
      → r.latest_ms ≡ some latest
      → due intl date_parse floor (record w { anchor_ms = latest }) c ≡ some empty
  unfolding due
  due_handled (ScheduleConfig.once run_at) r latest h e l =
      elim (Option-cases (date_parse run_at)) [
        | inl missing ↦ ground arith
        | inr (t, p) ↦ ground arith
      ]
  due_handled (ScheduleConfig.delay ms) r latest h e l = elim (Option-cases w.query.created_at_ms) [
    | inl missing ↦ ground arith
    | inr (t, p) ↦ ground arith
  ]
  due_handled (ScheduleConfig.interval ms) r latest h e l =
      let k = (w.now_ms - w.anchor_ms) / ms in
      let fits = lt-div-mul-add {a = w.now_ms - w.anchor_ms} {b = ms} (omega arith) in
      let last : latest ≡ w.anchor_ms + k * ms = ground arith in
      let none_left = div-eq_of_lt {n = w.now_ms - latest} {m = ms} (omega arith) in ground arith
  due_handled (ScheduleConfig.daily hour minute) r latest h e l =
      let next = first_wall_after intl w.query.timezone (ScheduleConfig.daily hour minute) in
      let (us, (short, chain), sum) =
        Occurrences-due (ScheduleConfig.daily hour minute) r refl h e in
      Chain-enumerate next w.now_ms 4000 latest empty []
        (Chain-latest next w.now_ms w.anchor_ms latest us chain
          (ap (λ d. d.latest_ms) (sym sum) ∙ l))
        (omega arith)
  due_handled (ScheduleConfig.weekly weekday hour minute) r latest h e l =
      let next =
        first_wall_after intl w.query.timezone (ScheduleConfig.weekly weekday hour minute) in
      let (us, (short, chain), sum) =
        Occurrences-due (ScheduleConfig.weekly weekday hour minute) r refl h e in
      Chain-enumerate next w.now_ms 4000 latest empty []
        (Chain-latest next w.now_ms w.anchor_ms latest us chain
          (ap (λ d. d.latest_ms) (sym sum) ∙ l))
        (omega arith)

  -- Once the last occurrence is handled, nothing is due at the same time: a second look finds no occurrence
  -- again, for each kind of schedule.
  pub count_due_occurrences-handled :
      (r : DueResult) (latest : ℕ)
      → Within w.query.config []
      → count_due_occurrences intl date_parse floor w ≡ some r
      → r.latest_ms ≡ some latest
      → count_due_occurrences intl date_parse floor (record w { anchor_ms = latest }) ≡ some empty
  unfolding count_due_occurrences
  count_due_occurrences-handled r latest h e l =
      ground (arith, due_handled w.query.config r latest h)
