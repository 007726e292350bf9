-- ===== src/Background/Task.antt =====
-- packages/ai-core/src/background-tasks.ts: statuses, their legal transitions, bounds, records, the
-- input schema and what a restart makes of a record. Time stamps are ISO texts.
pub mod Status
use ai_desktop.Base.{
  ℕ, Bool, ◌&&◌, ◌||◌, true, false, Option, none, some, List, [], ◌∷◌, Text, codes, length, any,
  leb, ltb, ◌==◌, if◌then◌else◌, trim, take,
}
use ai_desktop.Schemas.{fit, optional, ◌>>=◌, ulid_string, timestamp_string, at_most}

pub data BackgroundTaskStatus : Type 0 where
  queued running waiting_permission waiting_input paused cancelling completed failed cancelled :
      BackgroundTaskStatus

-- Equality of statuses, by their place in the enumeration.
abbrev place : BackgroundTaskStatus → ℕ
place queued = 0
place running = 1
place waiting_permission = 2
place waiting_input = 3
place paused = 4
place cancelling = 5
place completed = 6
place failed = 7
place cancelled = 8

abbrev pub same_status : BackgroundTaskStatus → BackgroundTaskStatus → Bool
same_status a b = place a == place b

-- `STATUS_TRANSITIONS`.
abbrev pub status_transitions : BackgroundTaskStatus → List BackgroundTaskStatus
status_transitions queued = running ∷ cancelled ∷ []
status_transitions running =
    waiting_permission ∷ waiting_input ∷ paused ∷ cancelling ∷ completed ∷ failed ∷ cancelled ∷ []
status_transitions waiting_permission = running ∷ cancelled ∷ paused ∷ []
status_transitions waiting_input = running ∷ cancelled ∷ paused ∷ []
status_transitions paused = queued ∷ cancelled ∷ []
status_transitions cancelling = cancelled ∷ failed ∷ []
status_transitions completed = []
status_transitions failed = []
status_transitions cancelled = []

abbrev pub is_legal_background_transition : BackgroundTaskStatus → BackgroundTaskStatus → Bool
is_legal_background_transition from to = any (same_status to) (status_transitions from)

abbrev pub max_background_title_length : ℕ
max_background_title_length = 120

abbrev pub max_background_input_length : ℕ
max_background_input_length = 2000

abbrev pub max_background_error_length : ℕ
max_background_error_length = 2000

abbrev pub max_background_result_length : ℕ
max_background_result_length = 8000

pub record BackgroundTaskRecord : Type 0 where
  pub task_id : Text
  pub conversation_id : Text
  pub project_id : Text
  pub title : Text
  pub goal : Text
  pub status : BackgroundTaskStatus
  pub created_at : Text
  pub updated_at : Text
  pub started_at : Option Text
  pub completed_at : Option Text
  pub attempt : ℕ
  pub last_error : Option Text
  pub result_summary : Option Text
  pub node_count : Option ℕ

pub record BackgroundTaskInput : Type 0 where
  pub project_id : Text
  pub title : Option Text
  pub goal : Text
  pub conversation_id : Option Text
  pub model_id : Option Text
  pub system_prompt : Option Text
  pub max_node_iterations : Option ℕ

fit_iterations : Option ℕ → Option (Option ℕ)
fit_iterations none = some none
fit_iterations (some n) = if leb 1 n && leb n 50 then some (some n) else none

-- `BackgroundTaskInputSchema.safeParse`.
unfoldable pub parse_input : BackgroundTaskInput → Option BackgroundTaskInput
unfolding fit optional fit_iterations ulid_string
parse_input input = do
  project ← fit 256 input.project_id
  title ← optional (fit max_background_title_length) input.title
  goal ← fit 4000 input.goal
  conversation ← optional ulid_string input.conversation_id
  model ← optional (fit 128) input.model_id
  prompt ← optional (fit 8000) input.system_prompt
  iterations ← fit_iterations input.max_node_iterations
  some (record {
    project_id = project;
    title = title;
    goal = goal;
    conversation_id = conversation;
    model_id = model;
    system_prompt = prompt;
    max_node_iterations = iterations;
  })

-- `BackgroundTaskRecordSchema.safeParse` of a value with fields of these types.
unfoldable pub parse_record : BackgroundTaskRecord → Option BackgroundTaskRecord
unfolding fit optional ulid_string timestamp_string at_most
parse_record r = do
  task ← ulid_string r.task_id
  conversation ← ulid_string r.conversation_id
  project ← fit 256 r.project_id
  title ← fit max_background_title_length r.title
  goal ← fit 4000 r.goal
  created ← timestamp_string r.created_at
  updated ← timestamp_string r.updated_at
  started ← optional timestamp_string r.started_at
  completed_time ← optional timestamp_string r.completed_at
  error ← optional (at_most max_background_error_length) r.last_error
  summary ← optional (at_most max_background_result_length) r.result_summary
  some (record r {
    task_id = task;
    conversation_id = conversation;
    project_id = project;
    title = title;
    goal = goal;
    created_at = created;
    updated_at = updated;
    started_at = started;
    completed_at = completed_time;
    last_error = error;
    result_summary = summary;
  })

-- `value.length > max ? value.slice(0, max) : value`.
unfoldable pub truncate : Text → ℕ → Text
truncate value max = if ltb max (length value) then take max value else value

pub data RecoveryDisposition : Type 0 where
  resumable requires_approval abandoned : RecoveryDisposition

unfoldable pub classify_recovery : BackgroundTaskStatus → ℕ → RecoveryDisposition
classify_recovery running attempt = if leb attempt 1 then resumable else requires_approval
classify_recovery queued attempt = if leb attempt 1 then resumable else requires_approval
classify_recovery waiting_permission attempt = requires_approval
classify_recovery waiting_input attempt = requires_approval
classify_recovery cancelling attempt = requires_approval
classify_recovery paused attempt = requires_approval
classify_recovery completed attempt = abandoned
classify_recovery failed attempt = abandoned
classify_recovery cancelled attempt = abandoned

pub data BackgroundTaskErrorCode : Type 0 where
  not_found project_mismatch invalid_transition queue_full task_active secret_refused
        validation_error :
      BackgroundTaskErrorCode

pub data BackgroundEventType : Type 0 where
  started queued waiting_permission waiting_input paused resumed completed failed cancelled
        recovered :
      BackgroundEventType
