-- ===== src/Background/Isolation.antt =====
-- packages/agent-runtime/src/runtime/background-task-manager.ts: a call in another project's name.
use ai_desktop.Base.{
  ◌≡◌, refl, inl, inr, false, ◌||◌, Option, none, some, Text, arith, length, ltb, ◌==◌,
  if◌then◌else◌, if_either, text_eq, trim, Bool-cases,
}
use ai_desktop.Base.Dict
use ai_desktop.Secrets.{has_secrets}
use ai_desktop.Background.Task.{BackgroundTaskErrorCode, max_background_input_length}
use ai_desktop.Background.Manager.{BackgroundEntry, BackgroundTaskManager, RunTaskInput}
use ai_desktop.Background.Lookup.{
  Unknown, string, not_string, refused, err, is_task_id, is_project_id, lookup, Answer, refuse,
  on_found,
}
use ai_desktop.Background.Operations.{
  pause, resume, cancel, respond_input, receive_input, notify_permission_waiting,
  notify_permission_resolved,
}
use ai_desktop.Background.History.{
  Call, starts, pauses, resumes, cancels, responds, parks, unparks, call,
}

-- The task and the project that a call names.
unfoldable pub addressed : Call → Option (Unknown × Text)
addressed (starts ids input) = none
addressed (pauses id p) = some (id, p)
addressed (resumes id p) = some (id, p)
addressed (cancels id p reason) = some (id, p)
addressed (responds id p response) = some (id, p)
addressed (parks id p detail) = some (id, p)
addressed (unparks id p detail) = some (id, p)

lookup-foreign :
    (id p : Text) (m : BackgroundTaskManager) (e : BackgroundEntry)
    → Dict.get id m.entries ≡ some e
    → text_eq e.project_id p ≡ false
    → (c : BackgroundTaskErrorCode) × (lookup (string id) p m ≡ refused c)
unfolding lookup
lookup-foreign id p m e h other = elim (Bool-cases (is_task_id id)) [
  | inr bad ↦ (BackgroundTaskErrorCode.validation_error, ground arith)
  | inl good ↦ elim (Bool-cases (is_project_id p)) [
    | inr bad ↦ (BackgroundTaskErrorCode.validation_error, ground arith)
    | inl fine ↦ (BackgroundTaskErrorCode.project_mismatch, ground arith)
  ]
]

on_found-refused :
    (id : Unknown) (p : Text) (m : BackgroundTaskManager) (c : BackgroundTaskErrorCode)
    (f : Text → BackgroundEntry → Answer)
    → lookup id p m ≡ refused c
    → on_found id p m f ≡ (err c, m)
unfolding on_found refuse
on_found-refused id p m c f h = rw (h, on_found) refl

-- The call answers with an error and changes nothing.
abbrev IsRefused : BackgroundTaskManager → Answer → Type 0
IsRefused m a = (code : BackgroundTaskErrorCode) × (a ≡ (err code, m))

respond_refused :
    (id : Unknown) (p : Text) (response : Unknown) (now : Text) (m : BackgroundTaskManager)
    (code : BackgroundTaskErrorCode)
    → lookup id p m ≡ refused code
    → IsRefused m (respond_input id p response now m)
unfolding respond_input receive_input refuse
respond_refused id p not_string now m code h = (BackgroundTaskErrorCode.validation_error, refl)
respond_refused id p (string response) now m code h =
    let trimmed = trim response in
    let secret = refuse BackgroundTaskErrorCode.secret_refused m in
    let received = receive_input id p now m in
    if_either (IsRefused m)
      (length trimmed == 0 || ltb max_background_input_length (length trimmed))
      (refuse BackgroundTaskErrorCode.validation_error m)
      (if has_secrets trimmed then secret else received)
      (λ _. (BackgroundTaskErrorCode.validation_error, refl))
      (λ _.
        if_either (IsRefused m) (has_secrets trimmed) secret received
          (λ _. (BackgroundTaskErrorCode.secret_refused, refl))
          (λ _. (code, on_found-refused id p m code _ h)))

module _ (runtime_throws : RunTaskInput → Option Text) where
  refused_lookup :
      (c : Call) (now : Text) (m : BackgroundTaskManager) (id : Unknown) (p : Text)
      (code : BackgroundTaskErrorCode)
      → addressed c ≡ some (id, p)
      → lookup id p m ≡ refused code
      → IsRefused m (call runtime_throws c now m)
  unfolding addressed call pause resume cancel notify_permission_waiting notify_permission_resolved
  refused_lookup (starts ids input) now m id p code a h = cc
  refused_lookup (pauses i q) now m id p code a h = (code, on_found-refused i q m code _ cc)
  refused_lookup (resumes i q) now m id p code a h = (code, on_found-refused i q m code _ cc)
  refused_lookup (cancels i q reason) now m id p code a h = (code, on_found-refused i q m code _ cc)
  refused_lookup (responds i q response) now m id p code a h =
      respond_refused i q response now m code cc
  refused_lookup (parks i q detail) now m id p code a h = (code, on_found-refused i q m code _ cc)
  refused_lookup (unparks i q detail) now m id p code a h = (code, on_found-refused i q m code _ cc)

  -- A call that names a task of another project is refused, and changes nothing.
  pub call-foreign :
      (c : Call) (now : Text) (m : BackgroundTaskManager) (id p : Text) (e : BackgroundEntry)
      → addressed c ≡ some (string id, p)
      → Dict.get id m.entries ≡ some e
      → text_eq e.project_id p ≡ false
      → (code : BackgroundTaskErrorCode) × (call runtime_throws c now m ≡ (err code, m))
  call-foreign c now m id p e a h other =
      let (code, denied) = lookup-foreign id p m e h other in
      refused_lookup c now m (string id) p code a denied
