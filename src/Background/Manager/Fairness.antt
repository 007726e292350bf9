-- ===== src/Background/Manager/Fairness.antt =====
-- The scheduler of background-task-manager.ts leaves no task in the queue that a free slot could take.
use ai_desktop.Base.{
  ◌≤◌, ◌≡◌, refl, sym, ◌∙◌, subst, inl, inr, true, false, ◌&&◌, Option, none, some, List, [], ◌∷◌,
  Text, arith, text_eq, text_eq_iff, Bool-cases, Option-cases,
}
use ai_desktop.Base.Dict
use ai_desktop.Background.Task.{BackgroundEventType}
use ai_desktop.Background.Manager.{
  BackgroundEntry, BackgroundTaskManager, Effect, RunTaskInput, is_queued, holds_slot,
  holds_slot_of, active_count, active_count_for_project, can_launch, update, log, commit, launched,
  failed_entry, handle_launch_throw, launch, try_launch, schedule_loop, schedule, run_input,
}
use ai_desktop.Background.Manager.Launch.{both_left, queued_idle, get-commit, still_there}

-- The entry under this key is not queued, or there is no slot for it.
abbrev pub NoSlot : Text → BackgroundTaskManager → Type 0
NoSlot k m =
    (e : BackgroundEntry)
    → Dict.get k m.entries ≡ some e
    → is_queued e.rec.status ≡ true
    → can_launch e.project_id m ≡ false

-- A change to one entry that frees no slot.
pub record Busier (k : Text) (m m' : BackgroundTaskManager) : Type 0 where
  pub others : (j : Text) → text_eq k j ≡ false → Dict.get j m'.entries ≡ Dict.get j m.entries
  pub total : active_count m ≤ active_count m'
  pub project : (p : Text) → active_count_for_project p m ≤ active_count_for_project p m'
  pub max_total : m'.max_tasks ≡ m.max_tasks
  pub max_project : m'.max_per_project ≡ m.max_per_project

Busier-refl : (k : Text) (m : BackgroundTaskManager) → Busier k m m
Busier-refl k m = record {
  others = λ j h. refl;
  total = omega arith;
  project = λ p. omega arith;
  max_total = refl;
  max_project = refl;
}

full_stays :
    {k : Text} {m m' : BackgroundTaskManager} (p : Text)
    → Busier k m m'
    → can_launch p m ≡ false
    → can_launch p m' ≡ false
unfolding can_launch
full_stays p b h = ground (arith, b.total, b.project p, b.max_total, b.max_project)

-- The entry moved from the queue to running, and on to failed when the runtime throws.
pub launched-Busier :
    (k : Text) (now : Text) (e : BackgroundEntry) (m : BackgroundTaskManager) (es : List Effect)
    → Dict.get k m.entries ≡ some e
    → is_queued e.rec.status ≡ true
    → Busier k m (log es (commit k BackgroundEventType.started (launched now e) m))
unfolding commit update log launched active_count active_count_for_project
launched-Busier k now e m es h q = record {
  others = λ j d. Dict.get-set k j (launched now e) m.entries ∙ rw d refl;
  total = ground (
    arith,
    Dict.count-set holds_slot k e (launched now e) m.entries h,
    queued_idle e.rec.status q,
  );
  project = λ p. ground (
    arith,
    Dict.count-set (holds_slot_of p) k e (launched now e) m.entries h,
    queued_idle e.rec.status q,
  );
  max_total = refl;
  max_project = refl;
}

pub throw_fails :
    (now message k : Text) (e : BackgroundEntry) (m : BackgroundTaskManager)
    → handle_launch_throw now message k (launched now e) m
      ≡ commit k BackgroundEventType.failed (failed_entry now message (launched now e)) m
unfolding handle_launch_throw launched
throw_fails now message k e m = refl

failed-Busier :
    (now message k : Text) (e : BackgroundEntry) (m : BackgroundTaskManager) (es : List Effect)
    → Dict.get k m.entries ≡ some e
    → is_queued e.rec.status ≡ true
    → let started = log es (commit k BackgroundEventType.started (launched now e) m) in
      Busier k m
        (commit k BackgroundEventType.failed (failed_entry now message (launched now e)) started)
unfolding commit update log launched failed_entry active_count active_count_for_project
failed-Busier now message k e m es h q =
    let e' = launched now e in
    let e'' = failed_entry now message e' in
    let there = Dict.get-set_self k e' m.entries in
    record {
      others = λ j d. Dict.get-set k j e'' _ ∙ rw d (Dict.get-set k j e' m.entries ∙ rw d refl);
      total = ground (
        arith,
        Dict.count-set holds_slot k e e' m.entries h,
        Dict.count-set holds_slot k e' e'' (Dict.set k e' m.entries) there,
        queued_idle e.rec.status q,
      );
      project = λ p. ground (
        arith,
        Dict.count-set (holds_slot_of p) k e e' m.entries h,
        Dict.count-set (holds_slot_of p) k e' e'' (Dict.set k e' m.entries) there,
        queued_idle e.rec.status q,
      );
      max_total = refl;
      max_project = refl;
    }

not_queued :
    (k : Text) (x : BackgroundEntry) (m : BackgroundTaskManager)
    → Dict.get k m.entries ≡ some x
    → is_queued x.rec.status ≡ false
    → NoSlot k m
not_queued k x m h f e g q = ground arith

pub not_first :
    (k j : Text) (e : BackgroundEntry) (es : List (Text × BackgroundEntry))
    → text_eq k j ≡ false
    → Dict.has j ((k, e) ∷ es) ≡ true
    → Dict.has j es ≡ true
unfolding Dict.has
not_first k j e es d h = ground arith

pub no_key : (j : Text) {A : Type 0} → Dict.has {V = BackgroundEntry} j [] ≡ true → A
unfolding Dict.has
no_key j h = ground arith

launched_runs : (now : Text) (e : BackgroundEntry) → is_queued (launched now e).rec.status ≡ false
unfolding launched
launched_runs now e = refl

failed_stops :
    (now message : Text) (e : BackgroundEntry)
    → is_queued (failed_entry now message e).rec.status ≡ false
unfolding failed_entry
failed_stops now message e = refl

absent_NoSlot : (k : Text) (m : BackgroundTaskManager) → Dict.get k m.entries ≡ none → NoSlot k m
absent_NoSlot k m h e g q = cc

still_NoSlot :
    {k : Text} {m m' : BackgroundTaskManager} (j : Text)
    → Busier k m m'
    → text_eq k j ≡ false
    → NoSlot j m
    → NoSlot j m'
still_NoSlot j b d s e g q = full_stays e.project_id b (s e (sym (b.others j d) ∙ g) q)

module _ (runtime_throws : RunTaskInput → Option Text) where
  abbrev Launched : Text → BackgroundTaskManager → BackgroundTaskManager → Type 0
  Launched k m m' = Busier k m m' × NoSlot k m'

  launch-Launched :
      (now k : Text) (e : BackgroundEntry) (m : BackgroundTaskManager)
      → Dict.get k m.entries ≡ some e
      → is_queued e.rec.status ≡ true
      → Launched k m (launch runtime_throws now k e m)
  unfolding launch Dict.get can_launch
  launch-Launched now k e m h q =
      let e' = launched now e in
      let run = Effect.run_task (run_input e') ∷ [] in
      let started = commit k BackgroundEventType.started e' m in
      elim (Option-cases (runtime_throws (run_input e'))) [
        | inl quiet ↦
            rw (quiet, launch)
              (
                launched-Busier k now e m run h q,
                not_queued k e' (log run started)
                    (still_there k e' run started (get-commit k BackgroundEventType.started e' m))
                    (launched_runs now e),
              )
        | inr (message, thrown) ↦
            let failed = failed_entry now message e' in
            rw (thrown, launch, throw_fails now message k e (log run started))
              (
                failed-Busier now message k e m run h q,
                not_queued k failed (commit k BackgroundEventType.failed failed (log run started))
                    (get-commit k BackgroundEventType.failed failed (log run started))
                    (failed_stops now message e'),
              )
      ]

  try_launch-Launched :
      (now k : Text) (m : BackgroundTaskManager) → Launched k m (try_launch runtime_throws now k m)
  unfolding try_launch Dict.get can_launch
  try_launch-Launched now k m = elim (Option-cases (Dict.get k m.entries)) [
    | inl absent ↦ rw (absent, try_launch) (Busier-refl k m, absent_NoSlot k m absent)
    | inr (e, h) ↦
        rw (h, try_launch)
          (elim (Bool-cases (is_queued e.rec.status && can_launch e.project_id m)) [
            | inl t ↦ rw t (launch-Launched now k e m h (both_left _ _ t))
            | inr f ↦ rw f (Busier-refl k m, (λ x g q. ground arith))
          ])
  ]

  try_keeps :
      (now j k : Text) (m : BackgroundTaskManager)
      → NoSlot j m
      → NoSlot j (try_launch runtime_throws now k m)
  try_keeps now j k m s = elim (Bool-cases (text_eq k j)) [
    | inl same ↦
        subst (λ i. NoSlot i (try_launch runtime_throws now k m)) ((text_eq_iff k j).0 same)
          ((try_launch-Launched now k m).1)
    | inr other ↦ still_NoSlot j (try_launch-Launched now k m).0 other s
  ]

  -- Without a slot before the loop, or among the entries it visits: without a slot after it.
  loop_keeps :
      (now j : Text) (es : List (Text × BackgroundEntry)) (m : BackgroundTaskManager)
      → NoSlot j m
      → NoSlot j (schedule_loop runtime_throws now es m)
  unfolding schedule_loop
  loop_keeps now j [] m s = s
  loop_keeps now j ((k, e) ∷ es) m s =
      let m' = try_launch runtime_throws now k m in
      let l = try_launch-Launched now k m in loop_keeps now j es m' (try_keeps now j k m s)

  loop_reaches :
      (now j : Text) (es : List (Text × BackgroundEntry)) (m : BackgroundTaskManager)
      → Dict.has j es ≡ true
      → NoSlot j (schedule_loop runtime_throws now es m)
  unfolding schedule_loop
  loop_reaches now j [] m h = no_key j h
  loop_reaches now j ((k, e) ∷ es) m h =
      let m' = try_launch runtime_throws now k m in
      elim (Bool-cases (text_eq k j)) [
        | inl same ↦
            loop_keeps now j es m' (
              subst (λ i. NoSlot i m') ((text_eq_iff k j).0 same) ((try_launch-Launched now k m).1))
        | inr other ↦ loop_reaches now j es m' (not_first k j e es other h)
      ]

  -- After `_schedule` no entry is left in the queue while there is a slot for it, in its project and in
  -- all, whichever launches the runtime refuses.
  pub schedule-work_conserving :
      (now : Text) (m : BackgroundTaskManager) (k : Text) → NoSlot k (schedule runtime_throws now m)
  unfolding schedule
  schedule-work_conserving now m k = elim (Option-cases (Dict.get k m.entries)) [
    | inl absent ↦ loop_keeps now k m.entries m (absent_NoSlot k m absent)
    | inr (e, h) ↦ loop_reaches now k m.entries m (Dict.has-get k m.entries ∙ rw h refl)
  ]
