-- ===== src/Background/Manager/Launch.antt =====
-- The scheduler of background-task-manager.ts makes only legal moves, within the slots.
use ai_desktop.Base.{
  ◌≡◌, refl, inl, inr, Bool, true, false, ◌&&◌, ◌||◌, Option, some, List, [], ◌∷◌, Text, arith,
  if◌then◌else◌, Option-cases,
}
use ai_desktop.Base.Dict
use ai_desktop.Background.Task.{
  BackgroundTaskStatus, BackgroundEventType, same_status, is_legal_background_transition,
}
use ai_desktop.Background.Manager.{
  BackgroundEntry, BackgroundTaskManager, Effect, RunTaskInput, is_active, is_terminal, is_queued,
  can_launch, update, log, commit, launched, failed_entry, handle_launch_throw, launch, try_launch,
  schedule_loop, schedule, run_input,
}
use ai_desktop.Background.Manager.Progress.{
  here, next, Good, Good-refl, Good-trans, Good-if, log-Good, update-Good, update-evolves,
  commit-Good, launched-Caps,
}

pub get-commit :
    (k : Text) (type : BackgroundEventType) (e : BackgroundEntry) (m : BackgroundTaskManager)
    → Dict.get k (commit k type e m).entries ≡ some e
unfolding commit update log
get-commit k type e m = Dict.get-set_self k e m.entries

pub no_slot : {b : Bool} → false ≡ true → b ≡ true
no_slot h = cc

failed-Good :
    (now message : Text) (k : Text) (e : BackgroundEntry) (m : BackgroundTaskManager)
    → Dict.get k m.entries ≡ some e
    → Good m (
        if is_legal_background_transition e.rec.status BackgroundTaskStatus.failed
        then commit k BackgroundEventType.failed (failed_entry now message e) m
        else m)
unfolding failed_entry
failed-Good now message k e m h =
    let e' = failed_entry now message e in
    Good-if (is_legal_background_transition e.rec.status BackgroundTaskStatus.failed)
      (commit k BackgroundEventType.failed e' m) m
      (λ legal. commit-Good k BackgroundEventType.failed e e' m h legal refl no_slot)
      (λ _. Good-refl m)

settled-Good :
    (k : Text) (e : BackgroundEntry) (m : BackgroundTaskManager)
    → Dict.get k m.entries ≡ some e
    → Good m (update k (record e { settled = true }) m)
settled-Good k e m h = update-Good k e _ m h here refl (λ x. x)

pub handle_launch_throw-Good :
    (now message : Text) (k : Text) (e : BackgroundEntry) (m : BackgroundTaskManager)
    → Dict.get k m.entries ≡ some e
    → Good m (handle_launch_throw now message k e m)
unfolding handle_launch_throw
handle_launch_throw-Good now message k e m h =
    let fail =
      if is_legal_background_transition e.rec.status BackgroundTaskStatus.failed
      then commit k BackgroundEventType.failed (failed_entry now message e) m
      else m in
    let settle = update k (record e { settled = true }) m in
    let is_paused = same_status e.rec.status BackgroundTaskStatus.paused in
    Good-if (e.settled || is_terminal e.rec.status) m (if is_paused then settle else fail)
      (λ _. Good-refl m)
      (λ _.
        Good-if is_paused settle fail (λ _. settled-Good k e m h)
          (λ _. failed-Good now message k e m h))

pub both_left : (a b : Bool) → a && b ≡ true → a ≡ true
both_left a b h = ground arith

pub both_right : (a b : Bool) → a && b ≡ true → b ≡ true
both_right a b h = ground arith

pub still_there :
    (k : Text) (e : BackgroundEntry) (es : List Effect) (m : BackgroundTaskManager)
    → Dict.get k m.entries ≡ some e
    → Dict.get k (log es m).entries ≡ some e
unfolding log
still_there k e es m h = h

pub queued_starts :
    (s : BackgroundTaskStatus)
    → is_queued s ≡ true
    → is_legal_background_transition s BackgroundTaskStatus.running ≡ true
queued_starts BackgroundTaskStatus.queued h = refl
queued_starts _ h = cc

pub queued_idle : (s : BackgroundTaskStatus) → is_queued s ≡ true → is_active s ≡ false
queued_idle BackgroundTaskStatus.queued h = refl
queued_idle _ h = cc

module _ (runtime_throws : RunTaskInput → Option Text) where
  started-Good :
      (now : Text) (k : Text) (e : BackgroundEntry) (m : BackgroundTaskManager)
      → Dict.get k m.entries ≡ some e
      → is_queued e.rec.status ≡ true
      → can_launch e.project_id m ≡ true
      → Good m (commit k BackgroundEventType.started (launched now e) m)
  unfolding commit launched
  started-Good now k e m h queued free = log-Good _ (record {
    evolves = update-evolves k e _ m h (next here (queued_starts _ queued)) refl;
    caps = launched-Caps k e _ m h free refl (queued_idle _ queued);
  })

  launch-Good :
      (now : Text) (k : Text) (e : BackgroundEntry) (m : BackgroundTaskManager)
      → Dict.get k m.entries ≡ some e
      → is_queued e.rec.status ≡ true
      → can_launch e.project_id m ≡ true
      → Good m (launch runtime_throws now k e m)
  unfolding launch
  launch-Good now k e m h queued free =
      let e' = launched now e in
      let started = commit k BackgroundEventType.started e' m in
      let run = Effect.run_task (run_input e') ∷ [] in
      let begins =
        log-Good (Effect.run_task (run_input e') ∷ []) (started-Good now k e m h queued free) in
      elim (Option-cases (runtime_throws (run_input e'))) [
        | inl quiet ↦ rw (quiet, launch) begins
        | inr (message, thrown) ↦
            rw (thrown, launch)
              (Good-trans begins (
                handle_launch_throw-Good now message k e' (log run started)
                  (still_there k e' run started (get-commit k BackgroundEventType.started e' m))))
      ]

  try_launch-Good :
      (now : Text) (k : Text) (m : BackgroundTaskManager)
      → Good m (try_launch runtime_throws now k m)
  unfolding try_launch
  try_launch-Good now k m = elim (Option-cases (Dict.get k m.entries)) [
    | inl absent ↦ rw (absent, try_launch) (Good-refl m)
    | inr (e, h) ↦
        rw (h, try_launch)
          (Good-if (is_queued e.rec.status && can_launch e.project_id m)
            (launch runtime_throws now k e m) m
            (λ t. launch-Good now k e m h (both_left _ _ t) (both_right _ _ t)) (λ _. Good-refl m))
  ]

  schedule_loop-Good :
      (now : Text) (es : List (Text × BackgroundEntry)) (m : BackgroundTaskManager)
      → Good m (schedule_loop runtime_throws now es m)
  unfolding schedule_loop
  schedule_loop-Good now [] m = Good-refl m
  schedule_loop-Good now ((k, e) ∷ es) m =
      Good-trans (try_launch-Good now k m)
        (schedule_loop-Good now es (try_launch runtime_throws now k m))

  pub schedule-Good :
      (now : Text) (m : BackgroundTaskManager) → Good m (schedule runtime_throws now m)
  unfolding schedule
  schedule-Good now m = schedule_loop-Good now m.entries m
