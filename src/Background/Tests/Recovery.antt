-- ===== src/Background/Tests/Recovery.antt =====
-- The theorems on `recover` and on a repeated `cancel` of background-task-manager.ts at concrete tasks.
use ai_desktop.Base.{◌≡◌, refl, Option, none, some, List, [], ◌∷◌, codes, text_eq, trim}
use ai_desktop.Base.Dict
use ai_desktop.Background.Task.{BackgroundTaskStatus, BackgroundTaskRecord}
use ai_desktop.Background.Manager.{schedule, schedule_loop, try_launch, update, log, commit}
use ai_desktop.Ids.{is_ulid, in_class, upper_unit, index_of, index_in}
use ai_desktop.Background.Lookup.{
  string, ok, lookup, on_found, key_of, is_task_id, is_project_id, is_dangerous, vet, answer,
}
use ai_desktop.Background.Operations.{
  cancel, cancel_open, cancel_directly, can_cancel_directly, propagate_cancel, propagated,
  persist_error, cancelled_entry, scheduled,
}
use ai_desktop.Background.History.{new_manager}
use ai_desktop.Background.Recovery.{recover}
use ai_desktop.Background.Recovery.Restored.{Restoring, recover-Restoring}
use ai_desktop.Background.Recovery.Replay.{recover_twice}
use ai_desktop.Background.Tests.{willing, first_id, second_id, noon, task, two_tasks}

abbrev persisted : List (Option BackgroundTaskRecord)
persisted =
    some (task first_id BackgroundTaskStatus.running)
    ∷ none
    ∷ some (task second_id BackgroundTaskStatus.waiting_input)
    ∷ []

recover-Restoring_example :
    Restoring (new_manager 4 2 16) ((recover noon (some persisted) (new_manager 4 2 16)).1)
recover-Restoring_example = recover-Restoring noon (some persisted) (new_manager 4 2 16)

recover_twice_example :
    let (summary, m') = recover noon (some persisted) (new_manager 4 2 16) in
    recover noon (some persisted) m' ≡ (summary, m')
recover_twice_example = recover_twice noon noon (some persisted) (new_manager 4 2 16)

abbrev cancelled_task : BackgroundTaskRecord
cancelled_task = record (task second_id BackgroundTaskStatus.cancelled) { completed_at = some noon }

cancelled_now :
    (cancel willing
      (string second_id)
      (codes "p1")
      none
      noon
      (two_tasks BackgroundTaskStatus.completed BackgroundTaskStatus.paused)).0
    ≡ ok cancelled_task
unfolding cancel on_found lookup key_of text_eq Dict.get Dict.set is_task_id is_project_id
    is_dangerous vet answer is_ulid in_class upper_unit index_of index_in cancel_open
    cancel_directly can_cancel_directly propagate_cancel propagated persist_error cancelled_entry
    scheduled schedule schedule_loop try_launch update log commit trim
cancelled_now = refl
