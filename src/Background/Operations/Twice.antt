-- ===== src/Background/Operations/Twice.antt =====
-- Cancelling a task of background-task-manager.ts a second time changes nothing.
use ai_desktop.Base.{
  ◌≡◌, refl, ◌∙◌, ap, inl, inr, Bool, true, Option, none, some, Text, arith, if◌then◌else◌,
  if_either, text_eq_iff,
}
use ai_desktop.Base.Dict
use ai_desktop.Secrets.{has_secrets}
use ai_desktop.Background.Task.{
  BackgroundTaskStatus, BackgroundTaskRecord, BackgroundEventType, BackgroundTaskErrorCode,
  same_status,
}
use ai_desktop.Background.Task.Status.{is_status}
use ai_desktop.Background.Manager.{
  BackgroundEntry, BackgroundTaskManager, RunTaskInput, is_terminal, commit, schedule,
}
use ai_desktop.Background.Manager.Progress.{Reaches-terminal}
use ai_desktop.Background.Manager.Launch.{schedule-Good, get-commit}
use ai_desktop.Background.Lookup.{
  Unknown, string, not_string, entry, ok, lookup, key_of, Answer, refuse, answer, on_found, vet,
}
use ai_desktop.Background.Lookup.Sound.{lookup_entry, Found-cases}
use ai_desktop.Background.Operations.{
  with_status, propagated, persist_error, cancelled_entry, can_cancel_directly, scheduled,
  cancel_running, cancel_directly, cancel_open, cancel,
}
use ai_desktop.Background.Operations.Cancel.{propagated-project_id}

-- The answer is a cancelled task's record, which is what the manager holds.
record Held (k p : Text) (r : BackgroundTaskRecord) (m : BackgroundTaskManager) : Type 0 where
  held : BackgroundEntry
  present : Dict.get k m.entries ≡ some held
  same : held.rec ≡ r
  gone : r.status ≡ BackgroundTaskStatus.cancelled
  bound : held.project_id ≡ p

Ended : Text → Text → Answer → Type 0
Ended k p a = (r : BackgroundTaskRecord) → a.0 ≡ ok r → Held k p r (a.1)

refuse-Ended :
    (k p : Text) (c : BackgroundTaskErrorCode) (m : BackgroundTaskManager) → Ended k p (refuse c m)
unfolding Ended refuse
refuse-Ended k p c m r h = cc

answer-Ended :
    (k p : Text) (e x : BackgroundEntry) (m : BackgroundTaskManager)
    → Dict.get k m.entries ≡ some x
    → x.rec.status ≡ BackgroundTaskStatus.cancelled
    → x.project_id ≡ p
    → Ended k p (answer k e m)
unfolding Ended answer
answer-Ended k p e x m h s b r g = record {
  held = x;
  present = h;
  same = ground arith;
  gone = ground arith;
  bound = b;
}

if_true : {A : Type 0} (b : Bool) (x y : A) → b ≡ true → (if b then x else y) ≡ x
if_true b x y h = rw h refl

answer_held :
    (k : Text) (x : BackgroundEntry) (m : BackgroundTaskManager)
    → Dict.get k m.entries ≡ some x
    → answer k x m ≡ (ok x.rec, m)
unfolding answer
answer_held k x m g = rw g refl

module _ (runtime_throws : RunTaskInput → Option Text) where
  scheduled-Ended :
      (now k p : Text) (e x : BackgroundEntry) (m : BackgroundTaskManager)
      → Dict.get k m.entries ≡ some x
      → x.rec.status ≡ BackgroundTaskStatus.cancelled
      → x.project_id ≡ p
      → Ended k p (scheduled runtime_throws now k e m)
  unfolding scheduled
  scheduled-Ended now k p e x m h s b =
      let v = (schedule-Good runtime_throws now m).evolves k x h in
      answer-Ended k p e v.after (schedule runtime_throws now m) v.present
        (Reaches-terminal v.legal (rw s refl) ∙ s) (v.bound ∙ b)

  withdrawn-Ended :
      (now : Text) (error : Option Text) (k p : Text) (e e' : BackgroundEntry)
      (m : BackgroundTaskManager)
      → e'.project_id ≡ p
      → Ended k p (
          scheduled runtime_throws now k e
            (commit k BackgroundEventType.cancelled (cancelled_entry now error e') m))
  unfolding cancelled_entry
  withdrawn-Ended now error k p e e' m b =
      let gone = cancelled_entry now error e' in
      scheduled-Ended now k p e gone (commit k BackgroundEventType.cancelled gone m)
        (get-commit k BackgroundEventType.cancelled gone m) refl b

  cancel_open-Ended :
      (now : Text) (error : Option Text) (k p : Text) (e : BackgroundEntry)
      (m : BackgroundTaskManager)
      → e.project_id ≡ p
      → Ended k p (cancel_open runtime_throws now error k e m)
  unfolding cancel_open cancel_running cancel_directly with_status
  cancel_open-Ended now error k p e m b =
      let invalid = refuse BackgroundTaskErrorCode.invalid_transition m in
      let e' = record (with_status BackgroundTaskStatus.cancelling now e) {
        cancel_requested = true;
      } in
      let e'' = record e { cancel_requested = true } in
      let queued =
        scheduled runtime_throws now k e
          (commit k BackgroundEventType.cancelled (cancelled_entry now error e) m) in
      let running = cancel_running runtime_throws now error k e m in
      let directly = cancel_directly runtime_throws now error k e m in
      let is_running = same_status e.rec.status BackgroundTaskStatus.running in
      let may = can_cancel_directly e.rec.status in
      if_either (Ended k p) (same_status e.rec.status BackgroundTaskStatus.queued) queued
        (if is_running then running else (if may then directly else invalid))
        (λ _. withdrawn-Ended now error k p e e m b)
        (λ _.
          if_either (Ended k p) is_running running (if may then directly else invalid)
            (λ _. withdrawn-Ended now error k p e (propagated e') _ (propagated-project_id e' ∙ b))
            (λ _.
              if_either (Ended k p) may directly invalid
                (λ _.
                  withdrawn-Ended now error k p e (propagated e'') _
                    (propagated-project_id e'' ∙ b))
                (λ _. refuse-Ended k p BackgroundTaskErrorCode.invalid_transition m)))

  vet-Ended :
      (k p : Text) (d : Option Unknown) (f : Option Text → Answer) (m : BackgroundTaskManager)
      → ((r : Option Text) → Ended k p (f r))
      → Ended k p (vet d f m)
  unfolding vet
  vet-Ended k p none f m g = g none
  vet-Ended k p (some not_string) f m g =
      refuse-Ended k p BackgroundTaskErrorCode.validation_error m
  vet-Ended k p (some (string s)) f m g =
      if_either (Ended k p) (has_secrets s) (refuse BackgroundTaskErrorCode.secret_refused m)
        (f (some s)) (λ _. refuse-Ended k p BackgroundTaskErrorCode.secret_refused m)
        (λ _. g (some s))

  found-Ended :
      (k p : Text) (reason : Option Unknown) (now : Text) (e : BackgroundEntry)
      (m : BackgroundTaskManager)
      → Dict.get k m.entries ≡ some e
      → e.project_id ≡ p
      → Ended k p (
          if same_status e.rec.status BackgroundTaskStatus.cancelled
          then answer k e m
          else (if is_terminal e.rec.status
              then refuse BackgroundTaskErrorCode.invalid_transition m
              else vet reason (λ r. cancel_open runtime_throws now (persist_error r) k e m) m))
  found-Ended k p reason now e m h b =
      let invalid = refuse BackgroundTaskErrorCode.invalid_transition m in
      let opened = λ (r : Option Text). cancel_open runtime_throws now (persist_error r) k e m in
      if_either (Ended k p) (same_status e.rec.status BackgroundTaskStatus.cancelled) (answer k e m)
        (if is_terminal e.rec.status then invalid else vet reason opened m)
        (λ t. answer-Ended k p e e m h (is_status e.rec.status BackgroundTaskStatus.cancelled t) b)
        (λ _.
          if_either (Ended k p) (is_terminal e.rec.status) invalid (vet reason opened m)
            (λ _. refuse-Ended k p BackgroundTaskErrorCode.invalid_transition m)
            (λ _.
              vet-Ended k p reason opened m
                (λ r. cancel_open-Ended now (persist_error r) k p e m b)))

  -- What was found once is found again while the key holds an entry of the project.
  lookup_again :
      (id : Unknown) (p : Text) (m m' : BackgroundTaskManager) (e x : BackgroundEntry)
      → lookup id p m ≡ entry e
      → Dict.get (key_of id) m'.entries ≡ some x
      → x.project_id ≡ p
      → lookup id p m' ≡ entry x
  unfolding lookup key_of
  lookup_again not_string p m m' e x h g b = cc
  lookup_again (string id) p m m' e x h g b = ground (arith, text_eq_iff x.project_id p)

  cancel-Ended :
      (id : Unknown) (p : Text) (reason : Option Unknown) (now : Text) (m : BackgroundTaskManager)
      (r : BackgroundTaskRecord)
      → (cancel runtime_throws id p reason now m).0 ≡ ok r
      → (e : BackgroundEntry) × (lookup id p m ≡ entry e)
        × Held (key_of id) p r ((cancel runtime_throws id p reason now m).1)
  unfolding cancel on_found refuse Ended
  cancel-Ended id p reason now m r = elim (Found-cases (lookup id p m)) [
    | inr (c, h) ↦ rw (h, cancel, on_found) (λ g. cc)
    | inl (e, h) ↦
        let found = lookup_entry id p m e h in
        rw (h, cancel, on_found)
          (λ g. (e, refl, found-Ended (key_of id) p reason now e m (found.0) (found.1) r g))
  ]

  cancel_gone :
      (id : Unknown) (p : Text) (reason : Option Unknown) (now : Text) (m : BackgroundTaskManager)
      (x : BackgroundEntry)
      → lookup id p m ≡ entry x
      → x.rec.status ≡ BackgroundTaskStatus.cancelled
      → Dict.get (key_of id) m.entries ≡ some x
      → cancel runtime_throws id p reason now m ≡ (ok x.rec, m)
  unfolding cancel on_found answer
  cancel_gone id p reason now m x h s g =
      rw (h, cancel, on_found)
        (if_true (same_status x.rec.status BackgroundTaskStatus.cancelled) (answer (key_of id) x m)
            _ (rw s refl)
          ∙ answer_held (key_of id) x m g)

  -- After a cancel that answers with a record, the task is cancelled, and any further cancel answers with
  -- that record and changes nothing.
  cancel_twice :
      (id : Unknown) (p : Text) (reason reason' : Option Unknown) (now now' : Text)
      (m : BackgroundTaskManager) (r : BackgroundTaskRecord)
      → (cancel runtime_throws id p reason now m).0 ≡ ok r
      → let m' = (cancel runtime_throws id p reason now m).1 in
        (r.status ≡ BackgroundTaskStatus.cancelled)
        × (cancel runtime_throws id p reason' now' m' ≡ (ok r, m'))
  cancel_twice id p reason reason' now now' m r g =
      let m' = (cancel runtime_throws id p reason now m).1 in
      let (e, h, held) = cancel-Ended id p reason now m r g in
      let x = held.held in
      let gone =
        cancel_gone id p reason' now' m' x (lookup_again id p m m' e x h held.present held.bound)
          (ap (λ y. y.status) held.same ∙ held.gone) held.present in
      (held.gone, gone ∙ rw held.same refl)
