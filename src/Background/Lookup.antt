-- ===== src/Background/Lookup.antt =====
-- packages/agent-runtime/src/runtime/background-task-manager.ts: how a call finds its task, and the
-- two calls that only read.
pub mod Sound
use ai_desktop.Base.{
  ℕ, Bool, true, false, not, ◌&&◌, ◌||◌, Option, none, some, List, [], ◌∷◌, ◌++◌, map, Text, codes,
  length, leb, ltb, ◌==◌, if◌then◌else◌, text_eq, trim, take, includes, any,
}
use ai_desktop.Base.Dict
use ai_desktop.Ids.{is_ulid}
use ai_desktop.Secrets.{has_secrets}
use ai_desktop.Background.Task.{
  BackgroundTaskStatus, BackgroundTaskRecord, BackgroundEventType, BackgroundTaskErrorCode,
  is_legal_background_transition, same_status, truncate, max_background_error_length,
  max_background_input_length, max_background_result_length, max_background_title_length,
}
use ai_desktop.Background.Manager.{
  BackgroundEntry, BackgroundTaskManager, Effect, RunTaskInput, is_terminal, update, log, commit,
  schedule,
}

-- A value of TypeScript's type `unknown`, by what the code asks of it.
pub data Unknown : Type 0 where
  string : Text → Unknown
  not_string : Unknown

pub data BackgroundManagerResult : Type 0 where
  ok : BackgroundTaskRecord → BackgroundManagerResult
  err : BackgroundTaskErrorCode → BackgroundManagerResult

pub data Found : Type 0 where
  entry : BackgroundEntry → Found
  refused : BackgroundTaskErrorCode → Found

-- `DANGEROUS_IDS.has`.
unfoldable pub is_dangerous : Text → Bool
is_dangerous id =
    any (text_eq id) (codes "__proto__" ∷ codes "constructor" ∷ codes "prototype" ∷ [])

-- `validateTaskId` on a string, as a test.
unfoldable pub is_task_id : Text → Bool
is_task_id id = not (
    length id == 0
    || ltb 256 (length id)
    || is_dangerous id
    || any (λ c. c == 0 || c == 10 || c == 13) id
    || not (is_ulid id))

unfoldable pub is_project_id : Text → Bool
is_project_id id = not (length (trim id) == 0 || ltb 256 (length id) || is_dangerous id)

-- `_lookup`.
unfoldable pub lookup : Unknown → Text → BackgroundTaskManager → Found
lookup not_string p m = refused BackgroundTaskErrorCode.validation_error
lookup (string id) p m =
    if not (is_task_id id)
    then refused BackgroundTaskErrorCode.validation_error
    else elim (Dict.get id m.entries) [
      | none ↦ refused BackgroundTaskErrorCode.not_found
      | some e ↦
          if not (is_project_id p)
          then refused BackgroundTaskErrorCode.validation_error
          else (if not (text_eq e.project_id p)
              then refused BackgroundTaskErrorCode.project_mismatch
              else entry e)
    ]

-- The key of a task that was found.
unfoldable pub key_of : Unknown → Text
key_of not_string = []
key_of (string id) = id

abbrev pub Answer : Type 0
Answer = BackgroundManagerResult × BackgroundTaskManager

unfoldable pub refuse : BackgroundTaskErrorCode → BackgroundTaskManager → Answer
refuse code m = (err code, m)

-- `{ ...entry.record }` of an entry that other calls may have moved.
unfoldable pub answer : Text → BackgroundEntry → BackgroundTaskManager → Answer
answer k e m = (ok (elim (Dict.get k m.entries) [ none ↦ e.rec | some x ↦ x.rec ]), m)

-- The call on the entry that is found, or the refusal.
unfoldable pub on_found :
    Unknown → Text → BackgroundTaskManager → (Text → BackgroundEntry → Answer) → Answer
on_found id p m call = elim (lookup id p m) [
  | entry e ↦ call (key_of id) e
  | refused code ↦ refuse code m
]

-- A text that is stored must be a string without secrets.
unfoldable pub vet : Option Unknown → (Option Text → Answer) → BackgroundTaskManager → Answer
vet none next m = next none
vet (some not_string) next m = refuse BackgroundTaskErrorCode.validation_error m
vet (some (string s)) next m =
    if has_secrets s then refuse BackgroundTaskErrorCode.secret_refused m else next (some s)

-- `get`.
unfoldable pub get : Unknown → Option Text → BackgroundTaskManager → BackgroundManagerResult
get not_string p m = err BackgroundTaskErrorCode.validation_error
get (string id) p m =
    if not (is_task_id id)
    then err BackgroundTaskErrorCode.validation_error
    else elim (Dict.get id m.entries) [
      | none ↦ err BackgroundTaskErrorCode.not_found
      | some e ↦ elim p [
        | none ↦ ok e.rec
        | some p ↦
            if not (is_project_id p)
            then err BackgroundTaskErrorCode.validation_error
            else (if not (text_eq e.project_id p)
                then err BackgroundTaskErrorCode.project_mismatch
                else ok e.rec)
      ]
    ]

pub record BackgroundTaskProjection : Type 0 where
  pub task_id : Text
  pub project_id : Text
  pub title : Text
  pub status : BackgroundTaskStatus
  pub created_at : Text
  pub updated_at : Text
  pub started_at : Option Text
  pub completed_at : Option Text
  pub attempt : ℕ
  pub last_error : Option Text
  pub result_summary : Option Text
  pub node_count : Option ℕ

abbrev truncate_optional : Option Text → ℕ → Option Text
truncate_optional none max = none
truncate_optional (some t) max = some (truncate t max)

unfoldable pub to_projection : BackgroundTaskRecord → BackgroundTaskProjection
to_projection r = record {
  task_id = r.task_id;
  project_id = r.project_id;
  title = truncate r.title max_background_title_length;
  status = r.status;
  created_at = r.created_at;
  updated_at = r.updated_at;
  started_at = r.started_at;
  completed_at = r.completed_at;
  attempt = r.attempt;
  last_error = truncate_optional r.last_error max_background_error_length;
  result_summary = truncate_optional r.result_summary max_background_result_length;
  node_count = r.node_count;
}

-- `list`, over the entries.
list_entries : Option Text → List BackgroundEntry → List BackgroundTaskProjection
list_entries p [] = []
list_entries p (e ∷ es) =
    let rest = list_entries p es in
    elim p [
      | none ↦ to_projection e.rec ∷ rest
      | some p ↦ if text_eq e.project_id p then to_projection e.rec ∷ rest else rest
    ]

unfoldable pub list : Option Text → BackgroundTaskManager → List BackgroundTaskProjection
unfolding list_entries
list p m = list_entries p (Dict.values m.entries)
