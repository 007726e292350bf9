-- ===== src/Background/Start.antt =====
-- packages/agent-runtime/src/runtime/background-task-manager.ts: `start`. The ids are the next ones of
-- the injected generator.
pub mod Admission
pub mod Bound
use ai_desktop.Base.{
  ℕ, Bool, true, false, not, ◌&&◌, ◌||◌, Option, none, some, List, [], ◌∷◌, Text, codes, length,
  leb, ◌==◌, if◌then◌else◌, or_else, trim, take,
}
use ai_desktop.Base.Dict
use ai_desktop.Secrets.{has_secrets, field_has_secrets}
use ai_desktop.Background.Task.{
  BackgroundTaskStatus, BackgroundEventType, BackgroundTaskErrorCode, BackgroundTaskInput,
  parse_input, truncate, max_background_title_length,
}
use ai_desktop.Background.Manager.{
  BackgroundEntry, BackgroundTaskManager, RunTaskInput, can_launch, queued_count, commit,
}
use ai_desktop.Background.Lookup.{Answer, refuse, is_dangerous}
use ai_desktop.Background.Operations.{scheduled}

pub record TaskIds : Type 0 where
  pub task_id : Text
  pub conversation_id : Text

-- The texts that `start` guards.
unfoldable pub holds_secret : BackgroundTaskInput → Bool
holds_secret v =
    has_secrets v.goal || field_has_secrets v.title || field_has_secrets v.system_prompt

-- `value || fallback` on texts.
abbrev non_empty : Text → Text → Text
non_empty [] fallback = fallback
non_empty (c ∷ s) fallback = c ∷ s

unfoldable pub title_of : BackgroundTaskInput → Text
title_of v =
    truncate
      (non_empty (take max_background_title_length (trim (or_else v.title v.goal)))
        (codes "Background task"))
      max_background_title_length

unfoldable pub new_entry : TaskIds → Text → BackgroundTaskInput → BackgroundEntry
new_entry ids now v = record {
  rec = record {
    task_id = ids.task_id;
    conversation_id = or_else v.conversation_id ids.conversation_id;
    project_id = trim v.project_id;
    title = title_of v;
    goal = truncate (trim v.goal) 4000;
    status = BackgroundTaskStatus.queued;
    created_at = now;
    updated_at = now;
    started_at = none;
    completed_at = none;
    attempt = 0;
    last_error = none;
    result_summary = none;
    node_count = none;
  };
  project_id = trim v.project_id;
  aborted = false;
  pause_requested = false;
  cancel_requested = false;
  pending_permission = false;
  pending_input = false;
  model_id = v.model_id;
  system_prompt = v.system_prompt;
  max_node_iterations = v.max_node_iterations;
  runtime_task_id = none;
  settled = false;
}

-- `!this._canLaunch(projectId) && this.queuedCount() >= this._maxQueue`.
unfoldable pub is_queue_full : Text → BackgroundTaskManager → Bool
is_queue_full p m = not (can_launch p m) && leb m.max_queue (queued_count m)

module _ (runtime_throws : RunTaskInput → Option Text) where
  -- The input was parsed and its project is `p`.
  unfoldable pub start_parsed :
      TaskIds → Text → BackgroundTaskInput → BackgroundTaskManager → Answer
  start_parsed ids now v m =
      if is_dangerous (trim v.project_id)
      then refuse BackgroundTaskErrorCode.validation_error m
      else (if is_queue_full (trim v.project_id) m
          then refuse BackgroundTaskErrorCode.queue_full m
          else (if Dict.has ids.task_id m.entries
              then refuse BackgroundTaskErrorCode.task_active m
              else let e = new_entry ids now v in
                scheduled runtime_throws now ids.task_id e
                  (commit ids.task_id BackgroundEventType.queued e m)))

  -- `start`.
  unfoldable pub start : TaskIds → Text → BackgroundTaskInput → BackgroundTaskManager → Answer
  start ids now input m = elim (parse_input input) [
    | none ↦ refuse BackgroundTaskErrorCode.validation_error m
    | some v ↦
        if holds_secret v
        then refuse BackgroundTaskErrorCode.secret_refused m
        else start_parsed ids now v m
  ]
