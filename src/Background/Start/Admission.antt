-- ===== src/Background/Start/Admission.antt =====
-- `start` of background-task-manager.ts admits a task soundly, and keeps the queue bounded.
use ai_desktop.Base.{
  ◌+◌, ◌≡◌, refl, ◌∙◌, inl, inr, Bool, false, Option, none, some, List, [], ◌∷◌, Text, arith, count,
  count-append, if◌then◌else◌, text_eq, text_eq_iff, trim, Option-cases,
}
use ai_desktop.Base.Dict
use ai_desktop.Background.Task.{
  BackgroundEventType, BackgroundTaskErrorCode, BackgroundTaskInput, parse_input,
}
use ai_desktop.Background.Manager.{
  BackgroundEntry, BackgroundTaskManager, RunTaskInput, holds_slot, holds_slot_of, active_count,
  active_count_for_project, update, commit,
}
use ai_desktop.Background.Manager.Progress.{Good, here, log-Good}
use ai_desktop.Background.Lookup.{refuse, is_dangerous}
use ai_desktop.Background.Lookup.Sound.{Sound, refuse-Sound, Sound-if}
use ai_desktop.Background.Operations.{scheduled}
use ai_desktop.Background.Operations.Moves.{scheduled-Sound}
use ai_desktop.Background.Start.{
  TaskIds, holds_secret, new_entry, is_queue_full, start_parsed, start,
}

pub count_new :
    (p : BackgroundEntry → Bool) (k : Text) (e : BackgroundEntry)
    (m : List (Text × BackgroundEntry))
    → Dict.get k m ≡ none
    → count p (Dict.values (Dict.set k e m)) ≡ count p (Dict.values m) + (if p e then 1 else 0)
count_new p k e m h =
    ground (arith, Dict.values-set_new k e m h, count-append p (Dict.values m) (e ∷ []))

-- A new entry that holds no slot.
pub added-Good :
    (k : Text) (e : BackgroundEntry) (m : BackgroundTaskManager)
    → Dict.get k m.entries ≡ none
    → holds_slot e ≡ false
    → Good m (update k e m)
unfolding update active_count active_count_for_project
added-Good k e m h idle = record {
  evolves = λ j x p. record {
    after = x;
    present = Dict.get-set k j e m.entries ∙ rw (other j x p) p;
    legal = here;
    bound = refl;
  };
  caps = λ c. record {
    total = ground (arith, count_new holds_slot k e m.entries h, c.total);
    project = λ p. ground (arith, count_new (holds_slot_of p) k e m.entries h, c.project p);
  };
}
  where
    other : (j : Text) (x : BackgroundEntry) → Dict.get j m.entries ≡ some x → text_eq k j ≡ false
    other j x p = ground (arith, text_eq_iff k j)

pub absent :
    (k : Text) (m : List (Text × BackgroundEntry)) → Dict.has k m ≡ false → Dict.get k m ≡ none
absent k m h = ground (arith, Dict.has-get k m)

pub new_idle :
    (ids : TaskIds) (now : Text) (v : BackgroundTaskInput)
    → holds_slot (new_entry ids now v) ≡ false
unfolding new_entry
new_idle ids now v = refl

module _ (runtime_throws : RunTaskInput → Option Text) where
  start_parsed-Sound :
      (ids : TaskIds) (now : Text) (v : BackgroundTaskInput) (m : BackgroundTaskManager)
      → Sound m (start_parsed runtime_throws ids now v m)
  unfolding start_parsed commit
  start_parsed-Sound ids now v m =
      let refused = λ (c : BackgroundTaskErrorCode). refuse c m in
      let e = new_entry ids now v in
      let added = commit ids.task_id BackgroundEventType.queued e m in
      let done = scheduled runtime_throws now ids.task_id e added in
      let is_taken = Dict.has ids.task_id m.entries in
      let taken = if is_taken then refused BackgroundTaskErrorCode.task_active else done in
      let is_full = is_queue_full (trim v.project_id) m in
      Sound-if (is_dangerous (trim v.project_id)) (refused BackgroundTaskErrorCode.validation_error)
        (if is_full then refused BackgroundTaskErrorCode.queue_full else taken)
        (λ _. refuse-Sound BackgroundTaskErrorCode.validation_error m)
        (λ _.
          Sound-if is_full (refused BackgroundTaskErrorCode.queue_full) taken
            (λ _. refuse-Sound BackgroundTaskErrorCode.queue_full m)
            (λ _.
              Sound-if is_taken (refused BackgroundTaskErrorCode.task_active) done
                (λ _. refuse-Sound BackgroundTaskErrorCode.task_active m)
                (λ f. scheduled-Sound runtime_throws now ids.task_id e m added (
                  log-Good _ (
                    added-Good ids.task_id e m (absent ids.task_id m.entries f)
                      (new_idle ids now v))))))

  pub start-Sound :
      (ids : TaskIds) (now : Text) (input : BackgroundTaskInput) (m : BackgroundTaskManager)
      → Sound m (start runtime_throws ids now input m)
  unfolding start
  start-Sound ids now input m = elim (Option-cases (parse_input input)) [
    | inl refused ↦ rw (refused, start) (refuse-Sound BackgroundTaskErrorCode.validation_error m)
    | inr (v, parsed) ↦
        rw (parsed, start)
          (Sound-if (holds_secret v) (refuse BackgroundTaskErrorCode.secret_refused m)
            (start_parsed runtime_throws ids now v m)
            (λ _. refuse-Sound BackgroundTaskErrorCode.secret_refused m)
            (λ _. start_parsed-Sound ids now v m))
  ]
