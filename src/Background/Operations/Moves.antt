-- ===== src/Background/Operations/Moves.antt =====
-- The calls of background-task-manager.ts move tasks legally and within the slots; their errors move nothing.
use ai_desktop.Base.{
  ◌≡◌, refl, true, false, not, ◌||◌, Option, some, [], ◌∷◌, Text, arith, length, ltb, ◌==◌,
  if◌then◌else◌, trim,
}
use ai_desktop.Base.Dict
use ai_desktop.Secrets.{has_secrets}
use ai_desktop.Background.Task.{
  BackgroundTaskStatus, BackgroundEventType, BackgroundTaskErrorCode,
  is_legal_background_transition, same_status, max_background_input_length,
}
use ai_desktop.Background.Task.Status.{is_status_not}
use ai_desktop.Background.Manager.{
  BackgroundEntry, BackgroundTaskManager, Effect, RunTaskInput, is_active, log, commit, schedule,
}
use ai_desktop.Background.Manager.Progress.{Good, Good-refl, Good-trans, log-Good, commit-Good}
use ai_desktop.Background.Manager.Launch.{schedule-Good, no_slot}
use ai_desktop.Background.Lookup.{Unknown, string, not_string, refuse, answer, vet}
use ai_desktop.Background.Lookup.Sound.{
  Sound, refuse-Sound, answer-Sound, Sound-if, on_found-Sound, vet-Sound,
}
use ai_desktop.Background.Operations.{
  with_status, target, cannot_pause, paused_entry, parked_entry, unparked_entry, input_entry,
  notify_permission_waiting, notify_permission_resolved, receive_input, respond_input, scheduled,
  pause, resume,
}

-- A write of an entry whose status was tested.
pub commit_from :
    (k : Text) (type : BackgroundEventType) (e e' : BackgroundEntry) (m : BackgroundTaskManager)
    (s : BackgroundTaskStatus)
    → Dict.get k m.entries ≡ some e
    → e.rec.status ≡ s
    → is_legal_background_transition s e'.rec.status ≡ true
    → e'.project_id ≡ e.project_id
    → (is_active e'.rec.status ≡ true → is_active s ≡ true)
    → Good m (commit k type e' m)
commit_from k type e e' m s h is legal b slot =
    commit-Good k type e e' m h (rw is legal) b (λ t. rw is (slot t))

pub notify_permission_waiting-Sound :
    (id : Unknown) (p : Text) (detail : Option Unknown) (now : Text) (m : BackgroundTaskManager)
    → Sound m (notify_permission_waiting id p detail now m)
unfolding notify_permission_waiting parked_entry with_status
notify_permission_waiting-Sound id p detail now m = on_found-Sound id p m _ (λ k e h.
    let invalid = refuse BackgroundTaskErrorCode.invalid_transition m in
    let park =
      answer k e (commit k BackgroundEventType.waiting_permission (parked_entry now e) m) in
    let running = same_status e.rec.status BackgroundTaskStatus.running in
    Sound-if (same_status e.rec.status BackgroundTaskStatus.waiting_permission) (answer k e m)
      (if not running then invalid else vet detail (λ d. park) m)
      (λ t. answer-Sound k e m m (Good-refl m))
      (λ t.
        Sound-if (not running) invalid (vet detail (λ d. park) m)
          (λ t. refuse-Sound BackgroundTaskErrorCode.invalid_transition m)
          (λ t.
            vet-Sound detail (λ d. park) m
              (λ d. answer-Sound k e m _ (
                commit_from k BackgroundEventType.waiting_permission e (parked_entry now e) m
                  BackgroundTaskStatus.running h (is_status_not _ _ t) refl refl (λ x. refl))))))

pub notify_permission_resolved-Sound :
    (id : Unknown) (p : Text) (detail : Option Unknown) (now : Text) (m : BackgroundTaskManager)
    → Sound m (notify_permission_resolved id p detail now m)
unfolding notify_permission_resolved unparked_entry with_status
notify_permission_resolved-Sound id p detail now m = on_found-Sound id p m _ (λ k e h.
    let unpark = answer k e (commit k BackgroundEventType.resumed (unparked_entry now e) m) in
    Sound-if (not (same_status e.rec.status BackgroundTaskStatus.waiting_permission))
      (refuse BackgroundTaskErrorCode.invalid_transition m) (vet detail (λ d. unpark) m)
      (λ t. refuse-Sound BackgroundTaskErrorCode.invalid_transition m)
      (λ t.
        vet-Sound detail (λ d. unpark) m
          (λ d. answer-Sound k e m _ (
            commit_from k BackgroundEventType.resumed e (unparked_entry now e) m
              BackgroundTaskStatus.waiting_permission h (is_status_not _ _ t) refl refl
              (λ x. refl)))))

receive_input-Sound :
    (id : Unknown) (p now : Text) (m : BackgroundTaskManager) → Sound m (receive_input id p now m)
unfolding receive_input input_entry with_status
receive_input-Sound id p now m = on_found-Sound id p m _ (λ k e h.
    let resumed = commit k BackgroundEventType.resumed (input_entry now e) m in
    let calls = Effect.resume_task (target e) ∷ [] in
    Sound-if (not (same_status e.rec.status BackgroundTaskStatus.waiting_input))
      (refuse BackgroundTaskErrorCode.invalid_transition m) (answer k e (log calls resumed))
      (λ t. refuse-Sound BackgroundTaskErrorCode.invalid_transition m)
      (λ t. answer-Sound k e m _ (
        log-Good calls (
          commit_from k BackgroundEventType.resumed e (input_entry now e) m
            BackgroundTaskStatus.waiting_input h (is_status_not _ _ t) refl refl (λ x. refl)))))

pub respond_input-Sound :
    (id : Unknown) (p : Text) (response : Unknown) (now : Text) (m : BackgroundTaskManager)
    → Sound m (respond_input id p response now m)
unfolding respond_input
respond_input-Sound id p not_string now m = refuse-Sound BackgroundTaskErrorCode.validation_error m
respond_input-Sound id p (string response) now m =
    let trimmed = trim response in
    let secret = refuse BackgroundTaskErrorCode.secret_refused m in
    let received = receive_input id p now m in
    Sound-if (length trimmed == 0 || ltb max_background_input_length (length trimmed))
      (refuse BackgroundTaskErrorCode.validation_error m)
      (if has_secrets trimmed then secret else received)
      (λ t. refuse-Sound BackgroundTaskErrorCode.validation_error m)
      (λ t.
        Sound-if (has_secrets trimmed) secret received
          (λ t. refuse-Sound BackgroundTaskErrorCode.secret_refused m)
          (λ t. receive_input-Sound id p now m))

can_pause :
    (s : BackgroundTaskStatus)
    → cannot_pause s ≡ false
    → is_legal_background_transition s BackgroundTaskStatus.paused ≡ true
unfolding cannot_pause
can_pause s h = ground arith

module _ (runtime_throws : RunTaskInput → Option Text) where
  pub scheduled-Sound :
      (now k : Text) (e : BackgroundEntry) (m n : BackgroundTaskManager)
      → Good m n
      → Sound m (scheduled runtime_throws now k e n)
  unfolding scheduled
  scheduled-Sound now k e m n g =
      answer-Sound k e m (schedule runtime_throws now n)
        (Good-trans g (schedule-Good runtime_throws now n))

  pub pause-Sound :
      (id : Unknown) (p now : Text) (m : BackgroundTaskManager)
      → Sound m (pause runtime_throws id p now m)
  unfolding pause paused_entry with_status cannot_pause
  pause-Sound id p now m = on_found-Sound id p m _ (λ k e h.
      let invalid = refuse BackgroundTaskErrorCode.invalid_transition m in
      let paused = commit k BackgroundEventType.paused (paused_entry now e) m in
      let done = scheduled runtime_throws now k e paused in
      Sound-if (same_status e.rec.status BackgroundTaskStatus.paused) (answer k e m)
        (if cannot_pause e.rec.status then invalid else done)
        (λ t. answer-Sound k e m m (Good-refl m))
        (λ t.
          Sound-if (cannot_pause e.rec.status) invalid done
            (λ t. refuse-Sound BackgroundTaskErrorCode.invalid_transition m)
            (λ t. scheduled-Sound now k e m paused (
              commit-Good k BackgroundEventType.paused e (paused_entry now e) m h
                (can_pause e.rec.status t) refl no_slot))))

  pub resume-Sound :
      (id : Unknown) (p now : Text) (m : BackgroundTaskManager)
      → Sound m (resume runtime_throws id p now m)
  unfolding resume with_status
  resume-Sound id p now m = on_found-Sound id p m _ (λ k e h.
      let queued = record (with_status BackgroundTaskStatus.queued now e) {
        pause_requested = false;
      } in
      let resumed = commit k BackgroundEventType.resumed queued m in
      Sound-if (not (same_status e.rec.status BackgroundTaskStatus.paused))
        (refuse BackgroundTaskErrorCode.invalid_transition m)
        (scheduled runtime_throws now k e resumed)
        (λ t. refuse-Sound BackgroundTaskErrorCode.invalid_transition m)
        (λ t. scheduled-Sound now k e m resumed (
          commit_from k BackgroundEventType.resumed e queued m BackgroundTaskStatus.paused h
            (is_status_not _ _ t) refl refl (λ x. x))))
