-- ===== src/Background/Recovery/Restored.antt =====
-- What `recover` of background-task-manager.ts puts back, and what it leaves alone.
use ai_desktop.Base.{
  ℕ, ◌≡◌, refl, ◌∙◌, ◌⊎◌, inl, inr, Bool, true, false, ◌||◌, Option, none, some, List, [], ◌∷◌,
  ◌++◌, Text, arith, any, any-append, text_eq, text_eq_iff, includes, Bool-cases, Option-cases,
}
use ai_desktop.Base.Dict
use ai_desktop.Background.Task.{
  BackgroundTaskStatus, BackgroundTaskRecord, BackgroundEventType, RecoveryDisposition,
  classify_recovery, parse_record, same_status,
}
use ai_desktop.Background.Manager.{
  BackgroundEntry, BackgroundTaskManager, Effect, update, log, commit,
}
use ai_desktop.Background.Recovery.{
  BackgroundRecoverSummary, keeps_secret, restore_status, restored, restore, recover_record,
  recover_one, recover_loop, recover,
}

-- The statuses in which nothing runs.
abbrev pub is_at_rest : BackgroundTaskStatus → Bool
is_at_rest s =
    same_status s BackgroundTaskStatus.queued
    || same_status s BackgroundTaskStatus.paused
    || same_status s BackgroundTaskStatus.waiting_permission
    || same_status s BackgroundTaskStatus.waiting_input

is_run : Effect → Bool
is_run (Effect.run_task input) = true
is_run _ = false

-- How many runs were started.
pub has_run : BackgroundTaskManager → Bool
has_run m = any is_run m.effects

-- Old entries stay as they are, new ones are at rest, and no run is started.
pub record Restoring (m m' : BackgroundTaskManager) : Type 0 where
  pub kept :
      (k : Text) (e : BackgroundEntry)
      → Dict.get k m.entries ≡ some e
      → Dict.get k m'.entries ≡ some e
  pub fresh :
      (k : Text) (e : BackgroundEntry)
      → Dict.get k m'.entries ≡ some e
      → (Dict.get k m.entries ≡ some e) ⊎ (is_at_rest e.rec.status ≡ true)
  pub quiet : has_run m' ≡ has_run m

Restoring-refl : (m : BackgroundTaskManager) → Restoring m m
Restoring-refl m = record { kept = λ k e h. h; fresh = λ k e h. inl h; quiet = refl }

Restoring-trans : {m n o : BackgroundTaskManager} → Restoring m n → Restoring n o → Restoring m o
Restoring-trans g h = record {
  kept = λ k e p. h.kept k e (g.kept k e p);
  fresh = λ k e p. elim (h.fresh k e p) [ inl q ↦ g.fresh k e q | inr r ↦ inr r ];
  quiet = h.quiet ∙ g.quiet;
}

no_run_added : (xs ys : List Effect) → any is_run ys ≡ false → any is_run (xs ++ ys) ≡ any is_run xs
no_run_added xs ys h = ground (arith, any-append is_run xs ys)

restored-Restoring :
    (s : BackgroundTaskStatus) (now : Text) (r : BackgroundTaskRecord) (m : BackgroundTaskManager)
    → is_at_rest s ≡ true
    → Dict.get r.task_id m.entries ≡ none
    → Restoring m (commit r.task_id BackgroundEventType.recovered (restored s now r) m)
unfolding commit update log restored has_run is_run
restored-Restoring s now r m rest h =
    let e = restored s now r in
    record {
      kept = λ k x p. ground (arith, Dict.get-set r.task_id k e m.entries, text_eq_iff r.task_id k);
      fresh = λ k x p. elim (Bool-cases (text_eq r.task_id k)) [
        | inl same ↦ inr (ground (arith, Dict.get-set r.task_id k e m.entries))
        | inr other ↦ inl (ground (arith, Dict.get-set r.task_id k e m.entries))
      ];
      quiet = no_run_added m.effects _ refl;
    }

restore-Restoring :
    (s : BackgroundTaskStatus) (now : Text) (r : BackgroundTaskRecord) (m : BackgroundTaskManager)
    → is_at_rest s ≡ true
    → Restoring m (restore s now r m)
unfolding restore
restore-Restoring s now r m rest = elim (Option-cases (Dict.get r.task_id m.entries)) [
  | inl absent ↦ rw (absent, restore) (restored-Restoring s now r m rest absent)
  | inr (e, h) ↦ rw (h, restore) (Restoring-refl m)
]

-- What needs approval is put back at rest.
rests :
    (s : BackgroundTaskStatus) (attempt : ℕ)
    → classify_recovery s attempt ≡ RecoveryDisposition.requires_approval
    → is_at_rest (restore_status s) ≡ true
unfolding classify_recovery restore_status
rests s attempt h = ground arith

pub Disposition-cases :
    (d : RecoveryDisposition)
    → (d ≡ RecoveryDisposition.abandoned)
      ⊎ (d ≡ RecoveryDisposition.resumable)
      ⊎ (d ≡ RecoveryDisposition.requires_approval)
Disposition-cases RecoveryDisposition.abandoned = inl refl
Disposition-cases RecoveryDisposition.resumable = inr (inl refl)
Disposition-cases RecoveryDisposition.requires_approval = inr (inr refl)

recover_record-Restoring :
    (now : Text) (r : BackgroundTaskRecord) (m : BackgroundTaskManager)
    → Restoring m ((recover_record now r m).1)
unfolding recover_record
recover_record-Restoring now r m = elim (Bool-cases (keeps_secret r)) [
  | inl t ↦ rw (t, recover_record) (Restoring-refl m)
  | inr f ↦
      rw (f, recover_record)
        (elim (Disposition-cases (classify_recovery r.status r.attempt)) [
          | inl gone ↦ rw gone (Restoring-refl m)
          | inr (inl back) ↦ rw back (restore-Restoring BackgroundTaskStatus.queued now r m refl)
          | inr (inr asks) ↦
              rw asks (
                restore-Restoring (restore_status r.status) now r m (rests r.status r.attempt asks))
        ])
]

recover_one-Restoring :
    (now : Text) (raw : Option BackgroundTaskRecord) (seen : List Text) (m : BackgroundTaskManager)
    → Restoring m ((recover_one now raw seen m).2)
unfolding recover_one
recover_one-Restoring now none seen m = Restoring-refl m
recover_one-Restoring now (some raw) seen m = elim (Option-cases (parse_record raw)) [
  | inl bad ↦ rw (bad, recover_one) (Restoring-refl m)
  | inr (r, good) ↦
      rw (good, recover_one)
        (elim (Bool-cases (includes seen r.task_id)) [
          | inl twice ↦ rw twice (Restoring-refl m)
          | inr new ↦ rw new (recover_record-Restoring now r m)
        ])
]

pub recover_loop-Restoring :
    (now : Text) (raws : List (Option BackgroundTaskRecord)) (seen : List Text)
    (s : BackgroundRecoverSummary) (m : BackgroundTaskManager)
    → Restoring m ((recover_loop now raws seen s m).1)
unfolding recover_loop
recover_loop-Restoring now [] seen s m = Restoring-refl m
recover_loop-Restoring now (raw ∷ raws) seen s m =
    Restoring-trans (recover_one-Restoring now raw seen m) (recover_loop-Restoring now raws _ _ _)

-- Recovery keeps every task that the manager has, adds only tasks at rest (queued, paused or waiting),
-- and starts no run.
pub recover-Restoring :
    (now : Text) (persisted : Option (List (Option BackgroundTaskRecord)))
    (m : BackgroundTaskManager)
    → Restoring m ((recover now persisted m).1)
unfolding recover
recover-Restoring now none m = Restoring-refl m
recover-Restoring now (some raws) m = recover_loop-Restoring now raws [] _ m
