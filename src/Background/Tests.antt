-- ===== src/Background/Tests.antt =====
-- The theorems on background-task-manager.ts at concrete tasks.
mod Recovery
use ai_desktop.Base.{
  ◌+◌, ◌≡◌, refl, false, Option, none, some, List, [], ◌∷◌, Text, codes, arith, text_eq, trim,
}
use ai_desktop.Base.Dict
use ai_desktop.Background.Task.{
  BackgroundTaskStatus, BackgroundTaskRecord, BackgroundTaskInput, BackgroundTaskErrorCode,
}
use ai_desktop.Background.Manager.{
  BackgroundEntry, BackgroundTaskManager, RunTaskInput, schedule, schedule_loop, try_launch, update,
  log, commit, queued_count,
}
use ai_desktop.Background.Manager.Progress.{Caps, Evolved}
use ai_desktop.Background.Manager.Fairness.{NoSlot, schedule-work_conserving}
use ai_desktop.Ids.{is_ulid, in_class, upper_unit, index_of, index_in}
use ai_desktop.Background.Lookup.{
  string, not_string, ok, err, lookup, on_found, refuse, key_of, is_task_id, is_project_id,
  is_dangerous, vet, answer,
}
use ai_desktop.Background.Operations.{
  cancel, pause, cancel_open, cancel_directly, can_cancel_directly, propagate_cancel, propagated,
  persist_error, cancelled_entry, scheduled,
}
use ai_desktop.Background.Start.{TaskIds, start}
use ai_desktop.Background.Start.Bound.{QueueBounded, start-QueueBounded}
use ai_desktop.Background.History.{
  starts, pauses, resumes, cancels, call, new_manager, calls, start_point, then_step, Reached-Caps,
  Reached-Evolved, call-error,
}
use ai_desktop.Background.Isolation.{addressed, call-foreign}
use ai_desktop.Background.Recovery.{recover}
use ai_desktop.Background.Recovery.Restored.{Restoring, recover-Restoring}
use ai_desktop.Background.Recovery.Replay.{recover-total, recover_twice}

-- A runtime that starts every run, and one that starts none.
abbrev willing : RunTaskInput → Option Text
willing input = none

abbrev broken : RunTaskInput → Option Text
broken input = some (codes "no runtime")

abbrev first_id : Text
first_id = codes "01ARZ3NDEKTSV4RRFFQ69G5FAV"

abbrev second_id : Text
second_id = codes "01ARZ3NDEKTSV4RRFFQ69G5FAW"

abbrev noon : Text
noon = codes "2026-01-01T12:00:00.000Z"

abbrev task : Text → BackgroundTaskStatus → BackgroundTaskRecord
task id status = record {
  task_id = id;
  conversation_id = id;
  project_id = codes "p1";
  title = codes "tidy";
  goal = codes "tidy up";
  status = status;
  created_at = noon;
  updated_at = noon;
  started_at = none;
  completed_at = none;
  attempt = 0;
  last_error = none;
  result_summary = none;
  node_count = none;
}

abbrev task_entry : Text → BackgroundTaskStatus → BackgroundEntry
task_entry id status = record {
  rec = task id status;
  project_id = codes "p1";
  aborted = false;
  pause_requested = false;
  cancel_requested = false;
  pending_permission = false;
  pending_input = false;
  model_id = none;
  system_prompt = none;
  max_node_iterations = none;
  runtime_task_id = none;
  settled = false;
}

abbrev two_tasks : BackgroundTaskStatus → BackgroundTaskStatus → BackgroundTaskManager
two_tasks a b = record {
  entries = (first_id, task_entry first_id a) ∷ (second_id, task_entry second_id b) ∷ [];
  max_tasks = 1;
  max_per_project = 1;
  max_queue = 2;
  effects = [];
}

abbrev waiting_pair : BackgroundTaskManager
waiting_pair = two_tasks BackgroundTaskStatus.queued BackgroundTaskStatus.queued

abbrev ended_pair : BackgroundTaskManager
ended_pair = two_tasks BackgroundTaskStatus.completed BackgroundTaskStatus.running

abbrev new_ids : TaskIds
new_ids = record { task_id = second_id; conversation_id = first_id }

abbrev new_task : BackgroundTaskInput
new_task = record {
  project_id = codes "p1";
  title = none;
  goal = codes "tidy up";
  conversation_id = none;
  model_id = none;
  system_prompt = none;
  max_node_iterations = some 5;
}

first_held :
    Dict.get first_id ended_pair.entries ≡ some (task_entry first_id BackgroundTaskStatus.completed)
unfolding Dict.get text_eq
first_held = refl

second_held :
    Dict.get second_id ended_pair.entries ≡ some (task_entry second_id BackgroundTaskStatus.running)
unfolding Dict.get text_eq
second_held = refl

schedule-work_conserving_example : NoSlot second_id (schedule broken noon waiting_pair)
schedule-work_conserving_example = schedule-work_conserving broken noon waiting_pair second_id

pair_bounded : QueueBounded waiting_pair
unfolding queued_count
pair_bounded = omega arith

start-QueueBounded_example : QueueBounded ((start willing new_ids noon new_task waiting_pair).1)
start-QueueBounded_example =
    start-QueueBounded willing new_ids noon new_task waiting_pair pair_bounded

abbrev started_once : BackgroundTaskManager
started_once = (call willing (starts new_ids new_task) noon (new_manager 4 2 16)).1

Reached-Caps_example : Caps started_once
Reached-Caps_example =
    Reached-Caps 4 2 16 started_once
      (then_step start_point (calls willing (starts new_ids new_task) noon))

abbrev after_cancel : BackgroundTaskManager
after_cancel = (call willing (cancels (string second_id) (codes "p1") none) noon ended_pair).1

Reached-Evolved_example :
    Evolved
      (task_entry second_id BackgroundTaskStatus.running)
      (Dict.get second_id after_cancel.entries)
Reached-Evolved_example =
    Reached-Evolved (λ m. Unit) ended_pair after_cancel second_id
      (task_entry second_id BackgroundTaskStatus.running)
      (then_step start_point (calls willing (cancels (string second_id) (codes "p1") none) noon))
      second_held

no_such_task :
    (call willing (pauses not_string (codes "p1")) noon ended_pair).0
    ≡ err BackgroundTaskErrorCode.validation_error
unfolding call pause on_found lookup refuse
no_such_task = refl

call-error_example : (call willing (pauses not_string (codes "p1")) noon ended_pair).1 ≡ ended_pair
call-error_example =
    call-error willing (pauses not_string (codes "p1")) noon ended_pair
      BackgroundTaskErrorCode.validation_error no_such_task

resume_address :
    addressed (resumes (string second_id) (codes "p2")) ≡ some (string second_id, codes "p2")
unfolding addressed
resume_address = refl

other_project : text_eq (codes "p1") (codes "p2") ≡ false
unfolding text_eq
other_project = refl

call-foreign_example :
    (code : BackgroundTaskErrorCode) × (call willing
        (resumes (string second_id) (codes "p2"))
        noon
        ended_pair
      ≡ (err code, ended_pair))
call-foreign_example =
    call-foreign willing (resumes (string second_id) (codes "p2")) noon ended_pair second_id
      (codes "p2") (task_entry second_id BackgroundTaskStatus.running) resume_address second_held
      other_project
