-- ===== src/Background/Task/Status.antt =====
-- packages/ai-core/src/background-tasks.ts: the status tests and the end of the transition table.
use ai_desktop.Base.{ℕ, ◌≡◌, refl, sym, ap, ◌∙◌, ==_iff, Bool, true, false, not, [], ◌∷◌, get_or}
use ai_desktop.Background.Task.{BackgroundTaskStatus, same_status, place}

at_place : ℕ → BackgroundTaskStatus
at_place n =
    get_or
      (BackgroundTaskStatus.queued ∷ BackgroundTaskStatus.running
        ∷ BackgroundTaskStatus.waiting_permission ∷ BackgroundTaskStatus.waiting_input
        ∷ BackgroundTaskStatus.paused ∷ BackgroundTaskStatus.cancelling
        ∷ BackgroundTaskStatus.completed ∷ BackgroundTaskStatus.failed ∷ [])
      n BackgroundTaskStatus.cancelled

at_place-place : (s : BackgroundTaskStatus) → at_place (place s) ≡ s
unfolding at_place
at_place-place BackgroundTaskStatus.queued = refl
at_place-place BackgroundTaskStatus.running = refl
at_place-place BackgroundTaskStatus.waiting_permission = refl
at_place-place BackgroundTaskStatus.waiting_input = refl
at_place-place BackgroundTaskStatus.paused = refl
at_place-place BackgroundTaskStatus.cancelling = refl
at_place-place BackgroundTaskStatus.completed = refl
at_place-place BackgroundTaskStatus.failed = refl
at_place-place BackgroundTaskStatus.cancelled = refl

-- A status is what it is tested to be.
pub is_status : (s t : BackgroundTaskStatus) → same_status s t ≡ true → s ≡ t
is_status s t h =
    sym (at_place-place s) ∙ ap at_place ((==_iff (place s) (place t)).0 h) ∙ at_place-place t

pub is_status_not : (s t : BackgroundTaskStatus) → not (same_status s t) ≡ false → s ≡ t
is_status_not s t h = is_status s t (not_false h)
  where
    not_false : {b : Bool} → not b ≡ false → b ≡ true
    not_false {b = true} h = refl
    not_false {b = false} h = cc
