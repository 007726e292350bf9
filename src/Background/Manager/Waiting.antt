-- ===== src/Background/Manager/Waiting.antt =====
-- The queue of background-task-manager.ts only shrinks when it is scheduled, and shrinks when a task can
-- be launched.
use ai_desktop.Base.{
  ◌+◌, ◌≤◌, ◌≡◌, refl, ◌∙◌, ◌⊎◌, inl, inr, Bool, true, false, ◌&&◌, Option, some, List, [], ◌∷◌,
  Text, arith, text_eq, text_eq_iff, Bool-cases, Option-cases,
}
use ai_desktop.Base.Dict
use ai_desktop.Background.Task.{BackgroundEventType}
use ai_desktop.Background.Manager.{
  BackgroundEntry, BackgroundTaskManager, Effect, RunTaskInput, is_queued, waits_in_queue,
  queued_count, can_launch, update, log, commit, launched, failed_entry, launch, try_launch,
  schedule_loop, schedule, run_input,
}
use ai_desktop.Background.Manager.Launch.{both_left}
use ai_desktop.Background.Manager.Fairness.{throw_fails, not_first, no_key}

-- How a launch changes the queue: by this entry, and not the bound.
record Shorter (m m' : BackgroundTaskManager) : Type 0 where
  one_less : queued_count m' + 1 ≡ queued_count m
  same_max : m'.max_queue ≡ m.max_queue

record NoLonger (m m' : BackgroundTaskManager) : Type 0 where
  at_most : queued_count m' ≤ queued_count m
  same_max : m'.max_queue ≡ m.max_queue

started-Shorter :
    (now k : Text) (e : BackgroundEntry) (m : BackgroundTaskManager) (es : List Effect)
    → Dict.get k m.entries ≡ some e
    → is_queued e.rec.status ≡ true
    → Shorter m (log es (commit k BackgroundEventType.started (launched now e) m))
unfolding commit update log launched queued_count
started-Shorter now k e m es h q = record {
  one_less = ground (arith, Dict.count-set waits_in_queue k e (launched now e) m.entries h);
  same_max = refl;
}

failed-Shorter :
    (now message k : Text) (e : BackgroundEntry) (m : BackgroundTaskManager) (es : List Effect)
    → Dict.get k m.entries ≡ some e
    → is_queued e.rec.status ≡ true
    → let started = log es (commit k BackgroundEventType.started (launched now e) m) in
      Shorter m
        (commit k BackgroundEventType.failed (failed_entry now message (launched now e)) started)
unfolding commit update log launched failed_entry queued_count
failed-Shorter now message k e m es h q =
    let e' = launched now e in
    let e'' = failed_entry now message e' in
    record {
      one_less = ground (
        arith,
        Dict.count-set waits_in_queue k e e' m.entries h,
        Dict.count-set waits_in_queue k e' e'' (Dict.set k e' m.entries)
            (Dict.get-set_self k e' m.entries),
      );
      same_max = refl;
    }

same_passed :
    (k : Text) (m : BackgroundTaskManager) (e x : BackgroundEntry)
    → Dict.get k m.entries ≡ some e
    → Dict.get k m.entries ≡ some x
    → is_queued e.rec.status && can_launch e.project_id m ≡ false
    → is_queued x.rec.status && can_launch x.project_id m ≡ false
same_passed k m e x h g f = ground arith

impossible : {a b : Bool} {P : Type 0} → a && b ≡ false → a ≡ true → b ≡ true → P
impossible h t u = ground arith

module _ (runtime_throws : RunTaskInput → Option Text) where
  launch-Shorter :
      (now k : Text) (e : BackgroundEntry) (m : BackgroundTaskManager)
      → Dict.get k m.entries ≡ some e
      → is_queued e.rec.status ≡ true
      → Shorter m (launch runtime_throws now k e m)
  unfolding launch
  launch-Shorter now k e m h q =
      let e' = launched now e in
      let run = Effect.run_task (run_input e') ∷ [] in
      let started = commit k BackgroundEventType.started e' m in
      elim (Option-cases (runtime_throws (run_input e'))) [
        | inl quiet ↦ rw (quiet, launch) (started-Shorter now k e m run h q)
        | inr (message, thrown) ↦
            rw (thrown, launch, throw_fails now message k e (log run started))
              (failed-Shorter now message k e m run h q)
      ]

  -- The round launches the entry, or it changes nothing and there was nothing to launch.
  Passed : Text → BackgroundTaskManager → Type 0
  Passed k m =
      (e : BackgroundEntry)
      → Dict.get k m.entries ≡ some e
      → is_queued e.rec.status && can_launch e.project_id m ≡ false

  try_launch-cases :
      (now k : Text) (m : BackgroundTaskManager)
      → Shorter m (try_launch runtime_throws now k m)
        ⊎ ((try_launch runtime_throws now k m ≡ m) × Passed k m)
  unfolding try_launch Passed
  try_launch-cases now k m = elim (Option-cases (Dict.get k m.entries)) [
    | inl absent ↦ inr (rw (absent, try_launch) refl, (λ e h. cc))
    | inr (e, h) ↦ elim (Bool-cases (is_queued e.rec.status && can_launch e.project_id m)) [
      | inl t ↦ inl (rw (h, try_launch) (rw t (launch-Shorter now k e m h (both_left _ _ t))))
      | inr f ↦ inr (rw (h, try_launch) (rw f refl), (λ x g. same_passed k m e x h g f))
    ]
  ]

  try_launch-NoLonger :
      (now k : Text) (m : BackgroundTaskManager) → NoLonger m (try_launch runtime_throws now k m)
  try_launch-NoLonger now k m = elim (try_launch-cases now k m) [
    | inl s ↦ record { at_most = omega (arith, s.one_less); same_max = s.same_max }
    | inr (same, _) ↦ rw same (record { at_most = omega arith; same_max = refl })
  ]

  loop-NoLonger :
      (now : Text) (es : List (Text × BackgroundEntry)) (m : BackgroundTaskManager)
      → NoLonger m (schedule_loop runtime_throws now es m)
  unfolding schedule_loop
  loop-NoLonger now [] m = record { at_most = omega arith; same_max = refl }
  loop-NoLonger now ((k, e) ∷ es) m =
      let first = try_launch-NoLonger now k m in
      let rest = loop-NoLonger now es (try_launch runtime_throws now k m) in
      record {
        at_most = omega (arith, first.at_most, rest.at_most);
        same_max = rest.same_max ∙ first.same_max;
      }

  loop-launches :
      (now k : Text) (e : BackgroundEntry) (es : List (Text × BackgroundEntry))
      (m : BackgroundTaskManager)
      → Dict.get k m.entries ≡ some e
      → is_queued e.rec.status ≡ true
      → can_launch e.project_id m ≡ true
      → Dict.has k es ≡ true
      → queued_count (schedule_loop runtime_throws now es m) + 1 ≤ queued_count m
  unfolding schedule_loop Passed
  loop-launches now k e [] m h q f has = no_key k has
  loop-launches now k e ((j, x) ∷ es) m h q f has =
      let m' = try_launch runtime_throws now j m in
      let rest = loop-NoLonger now es m' in
      elim (try_launch-cases now j m) [
        | inl s ↦ omega (arith, s.one_less, rest.at_most)
        | inr (same, passed) ↦ elim (Bool-cases (text_eq j k)) [
          | inl is_k ↦ impossible (passed e (rw ((text_eq_iff j k).0 is_k) h)) q f
          | inr other ↦ rw same (loop-launches now k e es m h q f (not_first j k x es other has))
        ]
      ]

  -- `_schedule` does not lengthen the queue, and shortens it when some entry can be launched.
  pub schedule-at_most :
      (now : Text) (m : BackgroundTaskManager)
      → queued_count (schedule runtime_throws now m) ≤ queued_count m
  unfolding schedule
  schedule-at_most now m = (loop-NoLonger now m.entries m).at_most

  pub schedule-max_queue :
      (now : Text) (m : BackgroundTaskManager)
      → (schedule runtime_throws now m).max_queue ≡ m.max_queue
  unfolding schedule
  schedule-max_queue now m = (loop-NoLonger now m.entries m).same_max

  pub schedule-launches :
      (now k : Text) (e : BackgroundEntry) (m : BackgroundTaskManager)
      → Dict.get k m.entries ≡ some e
      → is_queued e.rec.status ≡ true
      → can_launch e.project_id m ≡ true
      → queued_count (schedule runtime_throws now m) + 1 ≤ queued_count m
  unfolding schedule
  schedule-launches now k e m h q f =
      loop-launches now k e m.entries m h q f (Dict.has-get k m.entries ∙ rw h refl)
