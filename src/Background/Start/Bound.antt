-- ===== src/Background/Start/Bound.antt =====
-- `start` of background-task-manager.ts never lets the queue outgrow its bound.
use ai_desktop.Base.{
  ◌+◌, ◌≤◌, ◌≡◌, refl, inl, inr, true, false, Option, none, Text, arith, if◌then◌else◌, if_either,
  trim, Bool-cases, Option-cases,
}
use ai_desktop.Base.Dict
use ai_desktop.Background.Task.{
  BackgroundEventType, BackgroundTaskErrorCode, BackgroundTaskInput, parse_input,
}
use ai_desktop.Background.Manager.{
  BackgroundEntry, BackgroundTaskManager, RunTaskInput, is_queued, holds_slot, holds_slot_of,
  active_count, active_count_for_project, waits_in_queue, can_launch, queued_count, update, log,
  commit, schedule,
}
use ai_desktop.Background.Manager.Launch.{get-commit}
use ai_desktop.Background.Manager.Waiting.{schedule-at_most, schedule-max_queue, schedule-launches}
use ai_desktop.Background.Lookup.{Answer, refuse, answer, is_dangerous}
use ai_desktop.Background.Operations.{scheduled}
use ai_desktop.Background.Start.{
  TaskIds, holds_secret, new_entry, is_queue_full, start_parsed, start,
}
use ai_desktop.Background.Start.Admission.{count_new, absent, new_idle}

abbrev pub QueueBounded : BackgroundTaskManager → Type 0
QueueBounded m = queued_count m ≤ m.max_queue

added-queued_count :
    (k : Text) (e : BackgroundEntry) (m : BackgroundTaskManager)
    → Dict.get k m.entries ≡ none
    → queued_count (commit k BackgroundEventType.queued e m) ≤ queued_count m + 1
unfolding queued_count commit update log
added-queued_count k e m h = ground (arith, count_new waits_in_queue k e m.entries h)

added-can_launch :
    (p : Text) (k : Text) (e : BackgroundEntry) (m : BackgroundTaskManager)
    → Dict.get k m.entries ≡ none
    → holds_slot e ≡ false
    → can_launch p (commit k BackgroundEventType.queued e m) ≡ can_launch p m
unfolding can_launch active_count active_count_for_project commit update log
added-can_launch p k e m h idle =
    ground
      (arith, count_new holds_slot k e m.entries h, count_new (holds_slot_of p) k e m.entries h)

added-max_queue :
    (k : Text) (e : BackgroundEntry) (m : BackgroundTaskManager)
    → (commit k BackgroundEventType.queued e m).max_queue ≡ m.max_queue
unfolding commit update log
added-max_queue k e m = refl

new_waits :
    (ids : TaskIds) (now : Text) (v : BackgroundTaskInput)
    → is_queued (new_entry ids now v).rec.status ≡ true
unfolding new_entry
new_waits ids now v = refl

room_of :
    (ids : TaskIds) (now : Text) (v : BackgroundTaskInput) (m : BackgroundTaskManager)
    → is_queue_full (trim v.project_id) m ≡ false
    → is_queue_full ((new_entry ids now v).project_id) m ≡ false
unfolding new_entry
room_of ids now v m h = h

module _ (runtime_throws : RunTaskInput → Option Text) where
  -- A queued entry is added, and there is room for it in the queue or a slot for it.
  added-bounded :
      (now k : Text) (e : BackgroundEntry) (m : BackgroundTaskManager)
      → Dict.get k m.entries ≡ none
      → holds_slot e ≡ false
      → is_queued e.rec.status ≡ true
      → is_queue_full e.project_id m ≡ false
      → QueueBounded m
      → QueueBounded (schedule runtime_throws now (commit k BackgroundEventType.queued e m))
  unfolding is_queue_full
  added-bounded now k e m h idle q room b =
      let added = commit k BackgroundEventType.queued e m in
      let max = schedule-max_queue runtime_throws now added in
      let added_max = added-max_queue k e m in
      let one_more = added-queued_count k e m h in
      elim (Bool-cases (can_launch e.project_id m)) [
        | inl free ↦ omega (
          arith,
          max,
          added_max,
          one_more,
          b,
          schedule-launches runtime_throws now k e added
              (get-commit k BackgroundEventType.queued e m) q
              (rw (added-can_launch e.project_id k e m h idle) free),
        )
        | inr full ↦
            ground (arith, max, added_max, one_more, schedule-at_most runtime_throws now added)
      ]

  start_parsed-bounded :
      (ids : TaskIds) (now : Text) (v : BackgroundTaskInput) (m : BackgroundTaskManager)
      → QueueBounded m
      → QueueBounded ((start_parsed runtime_throws ids now v m).1)
  unfolding start_parsed scheduled answer refuse
  start_parsed-bounded ids now v m b =
      let P = λ (a : Answer). QueueBounded (a.1) in
      let e = new_entry ids now v in
      let done =
        scheduled runtime_throws now ids.task_id e
          (commit ids.task_id BackgroundEventType.queued e m) in
      let is_taken = Dict.has ids.task_id m.entries in
      let is_full = is_queue_full (trim v.project_id) m in
      let taken = if is_taken then refuse BackgroundTaskErrorCode.task_active m else done in
      if_either P (is_dangerous (trim v.project_id))
        (refuse BackgroundTaskErrorCode.validation_error m)
        (if is_full then refuse BackgroundTaskErrorCode.queue_full m else taken) (λ _. b)
        (λ _.
          if_either P is_full (refuse BackgroundTaskErrorCode.queue_full m) taken (λ _. b)
            (λ room.
              if_either P is_taken (refuse BackgroundTaskErrorCode.task_active m) done (λ _. b)
                (λ f.
                  added-bounded now ids.task_id e m (absent ids.task_id m.entries f)
                    (new_idle ids now v) (new_waits ids now v) (room_of ids now v m room) b)))

  -- A call of `start` keeps the number of queued tasks within `maxQueue`: a task that may not wait is
  -- refused, or it or an older one is launched.
  pub start-QueueBounded :
      (ids : TaskIds) (now : Text) (input : BackgroundTaskInput) (m : BackgroundTaskManager)
      → QueueBounded m
      → QueueBounded ((start runtime_throws ids now input m).1)
  unfolding start refuse
  start-QueueBounded ids now input m b = elim (Option-cases (parse_input input)) [
    | inl refused ↦ rw (refused, start) b
    | inr (v, parsed) ↦
        rw (parsed, start)
          (if_either (λ (a : Answer). QueueBounded (a.1)) (holds_secret v)
            (refuse BackgroundTaskErrorCode.secret_refused m)
            (start_parsed runtime_throws ids now v m) (λ _. b)
            (λ _. start_parsed-bounded ids now v m b))
  ]
