-- ===== src/Background/Operations/Cancel.antt =====
-- The cancel call of background-task-manager.ts moves a task legally to its end, once.
use ai_desktop.Base.{◌≡◌, refl, true, ◌&&◌, Option, some, [], ◌∷◌, Text, arith, if◌then◌else◌}
use ai_desktop.Base.Dict
use ai_desktop.Background.Task.{
  BackgroundTaskStatus, BackgroundEventType, BackgroundTaskErrorCode,
  is_legal_background_transition, same_status,
}
use ai_desktop.Background.Task.Status.{is_status}
use ai_desktop.Background.Manager.{
  BackgroundEntry, BackgroundTaskManager, Effect, RunTaskInput, is_terminal, holds_slot, update,
  log, commit,
}
use ai_desktop.Background.Manager.Progress.{
  Good, Good-refl, Good-trans, Good-if, Reaches, here, next, log-Good, update-Good, commit-Good,
}
use ai_desktop.Background.Manager.Launch.{no_slot}
use ai_desktop.Background.Lookup.{Unknown, refuse, answer, vet}
use ai_desktop.Background.Lookup.Sound.{
  Sound, refuse-Sound, answer-Sound, Sound-if, on_found-Sound, vet-Sound,
}
use ai_desktop.Background.Operations.{
  with_status, target, propagated, propagate_cancel, persist_error, cancelled_entry,
  can_cancel_directly, scheduled, cancel_running, cancel_directly, cancel_open, cancel,
}
use ai_desktop.Background.Operations.Moves.{commit_from, scheduled-Sound}

propagated-rec : (e : BackgroundEntry) → (propagated e).rec ≡ e.rec
unfolding propagated
propagated-rec e = ground arith

pub propagated-project_id : (e : BackgroundEntry) → (propagated e).project_id ≡ e.project_id
unfolding propagated
propagated-project_id e = ground arith

get-propagate_cancel :
    (k : Text) (e : BackgroundEntry) (m : BackgroundTaskManager)
    → Dict.get k m.entries ≡ some e
    → Dict.get k (propagate_cancel k e m).entries ≡ some (propagated e)
unfolding propagate_cancel propagated update log
get-propagate_cancel k e m h = ground (
  arith,
  Dict.get-set_self k e m.entries,
  Dict.get-set_self k (record e { aborted = true }) m.entries,
)

propagate_cancel-Good :
    (k : Text) (e : BackgroundEntry) (m : BackgroundTaskManager)
    → Dict.get k m.entries ≡ some e
    → Good m (propagate_cancel k e m)
unfolding propagate_cancel
propagate_cancel-Good k e m h =
    let calls = Effect.cancel_task (target e) ∷ [] in
    let told = log calls (update k (propagated e) m) in
    Good-if (e.settled && same_status e.rec.status BackgroundTaskStatus.cancelled) m told
      (λ t. Good-refl m)
      (λ t. log-Good calls (
        update-Good k e (propagated e) m h (rw (propagated-rec e) here) (propagated-project_id e)
          (λ x. rw (← propagated-rec e) x)))

get-update :
    (k : Text) (e : BackgroundEntry) (m : BackgroundTaskManager)
    → Dict.get k (update k e m).entries ≡ some e
unfolding update
get-update k e m = Dict.get-set_self k e m.entries

direct :
    (s : BackgroundTaskStatus)
    → can_cancel_directly s ≡ true
    → is_legal_background_transition s BackgroundTaskStatus.cancelled ≡ true
unfolding can_cancel_directly
direct s h = ground arith

-- The write, the intent passed down, and the end.
withdrawn-Good :
    (now : Text) (error : Option Text) (k : Text) (e e' : BackgroundEntry)
    (m : BackgroundTaskManager)
    → Dict.get k m.entries ≡ some e
    → Reaches e.rec.status e'.rec.status
    → e'.project_id ≡ e.project_id
    → (holds_slot e' ≡ true → holds_slot e ≡ true)
    → is_legal_background_transition e'.rec.status BackgroundTaskStatus.cancelled ≡ true
    → Good m (
        commit k BackgroundEventType.cancelled
          (cancelled_entry now error (propagated e'))
          (propagate_cancel k e' (update k e' m)))
unfolding cancelled_entry
withdrawn-Good now error k e e' m h r b slot legal =
    let written = update k e' m in
    let told = propagate_cancel k e' written in
    Good-trans (update-Good k e e' m h r b slot) (
      Good-trans (propagate_cancel-Good k e' written (get-update k e' m)) (
        commit-Good k BackgroundEventType.cancelled (propagated e')
          (cancelled_entry now error (propagated e')) told
          (get-propagate_cancel k e' written (get-update k e' m)) (rw (propagated-rec e') legal)
          refl no_slot))

module _ (runtime_throws : RunTaskInput → Option Text) where
  cancel_open-Sound :
      (now : Text) (error : Option Text) (k : Text) (e : BackgroundEntry)
      (m : BackgroundTaskManager)
      → Dict.get k m.entries ≡ some e
      → Sound m (cancel_open runtime_throws now error k e m)
  unfolding cancel_open cancel_running cancel_directly cancelled_entry with_status
  cancel_open-Sound now error k e m h =
      let queued = commit k BackgroundEventType.cancelled (cancelled_entry now error e) m in
      let invalid = refuse BackgroundTaskErrorCode.invalid_transition m in
      let running = cancel_running runtime_throws now error k e m in
      let directly = cancel_directly runtime_throws now error k e m in
      let is_running = same_status e.rec.status BackgroundTaskStatus.running in
      let may = can_cancel_directly e.rec.status in
      let withdrawing = record (with_status BackgroundTaskStatus.cancelling now e) {
        cancel_requested = true;
      } in
      Sound-if (same_status e.rec.status BackgroundTaskStatus.queued)
        (scheduled runtime_throws now k e queued)
        (if is_running then running else (if may then directly else invalid))
        (λ t. scheduled-Sound runtime_throws now k e m queued (
          commit_from k BackgroundEventType.cancelled e (cancelled_entry now error e) m
            BackgroundTaskStatus.queued h (is_status _ _ t) refl refl no_slot))
        (λ _.
          Sound-if is_running running (if may then directly else invalid)
            (λ t. scheduled-Sound runtime_throws now k e m _ (
              withdrawn-Good now error k e withdrawing m h
                (next here (rw (is_status e.rec.status BackgroundTaskStatus.running t) refl)) refl
                (λ _. rw (is_status e.rec.status BackgroundTaskStatus.running t) refl) refl))
            (λ _.
              Sound-if may directly invalid
                (λ t. scheduled-Sound runtime_throws now k e m _ (
                  withdrawn-Good now error k e (record e { cancel_requested = true }) m h here refl
                    (λ x. x) (direct e.rec.status t)))
                (λ _. refuse-Sound BackgroundTaskErrorCode.invalid_transition m)))

  pub cancel-Sound :
      (id : Unknown) (p : Text) (reason : Option Unknown) (now : Text) (m : BackgroundTaskManager)
      → Sound m (cancel runtime_throws id p reason now m)
  unfolding cancel
  cancel-Sound id p reason now m = on_found-Sound id p m _ (λ k e h.
      let invalid = refuse BackgroundTaskErrorCode.invalid_transition m in
      let open_call = λ (r : Option Text). cancel_open runtime_throws now (persist_error r) k e m in
      let vetted = vet reason open_call m in
      Sound-if (same_status e.rec.status BackgroundTaskStatus.cancelled) (answer k e m)
        (if is_terminal e.rec.status then invalid else vetted)
        (λ t. answer-Sound k e m m (Good-refl m))
        (λ _.
          Sound-if (is_terminal e.rec.status) invalid vetted
            (λ t. refuse-Sound BackgroundTaskErrorCode.invalid_transition m)
            (λ _.
              vet-Sound reason open_call m (λ r. cancel_open-Sound now (persist_error r) k e m h))))
