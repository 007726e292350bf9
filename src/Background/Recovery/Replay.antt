-- ===== src/Background/Recovery/Replay.antt =====
-- `recover` of background-task-manager.ts counts every value once, and a replay changes nothing.
use ai_desktop.Base.{
  ℕ, ◌+◌, ◌≡◌, refl, inl, inr, Option, none, some, List, [], ◌∷◌, Text, arith, length, includes,
  Bool-cases, Option-cases,
}
use ai_desktop.Base.Dict
use ai_desktop.Background.Task.{
  BackgroundTaskStatus, BackgroundTaskRecord, BackgroundEventType, classify_recovery, parse_record,
}
use ai_desktop.Background.Manager.{BackgroundEntry, BackgroundTaskManager}
use ai_desktop.Background.Manager.Launch.{get-commit}
use ai_desktop.Background.Recovery.{
  BackgroundRecoverSummary, Bucket, tally, keeps_secret, restore_status, restored, restore,
  recover_record, recover_one, recover_loop, recover, resumed, awaiting_approval, abandoned,
  rejected,
}
use ai_desktop.Background.Recovery.Restored.{Restoring, Disposition-cases, recover_loop-Restoring}

total : BackgroundRecoverSummary → ℕ
total s = s.resumed + s.awaiting_approval + s.abandoned + s.rejected

tally-total : (b : Bucket) (s : BackgroundRecoverSummary) → total (tally b s) ≡ total s + 1
unfolding total tally
tally-total resumed s = omega arith
tally-total awaiting_approval s = omega arith
tally-total abandoned s = omega arith
tally-total rejected s = omega arith

recover_loop-total :
    (now : Text) (raws : List (Option BackgroundTaskRecord)) (seen : List Text)
    (s : BackgroundRecoverSummary) (m : BackgroundTaskManager)
    → total ((recover_loop now raws seen s m).0) ≡ total s + length raws
unfolding recover_loop
recover_loop-total now [] seen s m = omega arith
recover_loop-total now (raw ∷ raws) seen s m =
    let (bucket, seen', m') = recover_one now raw seen m in
    omega (arith, recover_loop-total now raws seen' (tally bucket s) m', tally-total bucket s)

-- Each persisted value is counted in exactly one bucket of the summary.
pub recover-total :
    (now : Text) (raws : List (Option BackgroundTaskRecord)) (m : BackgroundTaskManager)
    → let s = (recover now (some raws) m).0 in
      s.resumed + s.awaiting_approval + s.abandoned + s.rejected ≡ length raws
unfolding recover total
recover-total now raws m = omega (arith, recover_loop-total now raws [] _ m)

-- Every key of the first manager is a key of the second.
Covers : BackgroundTaskManager → BackgroundTaskManager → Type 0
Covers m n =
    (k : Text) (e : BackgroundEntry)
    → Dict.get k m.entries ≡ some e
    → (x : BackgroundEntry) × (Dict.get k n.entries ≡ some x)

covered : (l m n : BackgroundTaskManager) → Restoring l m → Covers m n → Covers l n
unfolding Covers
covered l m n r c k e h = c k e (r.kept k e h)

restore_present :
    (s : BackgroundTaskStatus) (now : Text) (r : BackgroundTaskRecord) (m : BackgroundTaskManager)
    → (e : BackgroundEntry) × (Dict.get r.task_id (restore s now r m).entries ≡ some e)
unfolding restore
restore_present s now r m = elim (Option-cases (Dict.get r.task_id m.entries)) [
  | inl absent ↦
      rw (absent, restore)
        ((
          restored s now r,
          get-commit r.task_id BackgroundEventType.recovered (restored s now r) m,
        ))
  | inr (e, h) ↦ rw (h, restore) ((e, h))
]

restore_again :
    (s s' : BackgroundTaskStatus) (now now' : Text) (r : BackgroundTaskRecord)
    (m n : BackgroundTaskManager)
    → Covers (restore s now r m) n
    → restore s' now' r n ≡ n
unfolding restore Covers
restore_again s s' now now' r m n c =
    let (e, h) = restore_present s now r m in let (x, g) = c r.task_id e h in rw (g, restore) refl

replay_record :
    (now now' : Text) (r : BackgroundTaskRecord) (m n : BackgroundTaskManager)
    → Covers ((recover_record now r m).1) n
    → recover_record now' r n ≡ ((recover_record now r m).0, n)
unfolding recover_record
replay_record now now' r m n = elim (Bool-cases (keeps_secret r)) [
  | inl t ↦ rw (t, recover_record) (λ c. refl)
  | inr f ↦
      rw (f, recover_record)
        (elim (Disposition-cases (classify_recovery r.status r.attempt)) [
          | inl gone ↦ rw gone (λ c. refl)
          | inr (inl back) ↦
              let q = BackgroundTaskStatus.queued in
              rw back (λ c. rw (restore_again q q now now' r m n c) refl)
          | inr (inr asks) ↦
              let s = restore_status r.status in
              rw asks (λ c. rw (restore_again s s now now' r m n c) refl)
        ])
]

replay_one :
    (now now' : Text) (raw : Option BackgroundTaskRecord) (seen : List Text)
    (m n : BackgroundTaskManager)
    → Covers ((recover_one now raw seen m).2) n
    → recover_one now' raw seen n
      ≡ ((recover_one now raw seen m).0, (recover_one now raw seen m).1, n)
unfolding recover_one
replay_one now now' none seen m n = λ c. refl
replay_one now now' (some raw) seen m n = elim (Option-cases (parse_record raw)) [
  | inl bad ↦ rw (bad, recover_one) (λ c. refl)
  | inr (r, good) ↦
      rw (good, recover_one)
        (elim (Bool-cases (includes seen r.task_id)) [
          | inl twice ↦ rw twice (λ c. refl)
          | inr new ↦ rw new (λ c. rw (replay_record now now' r m n c) refl)
        ])
]

replay_loop :
    (now now' : Text) (raws : List (Option BackgroundTaskRecord)) (seen : List Text)
    (s : BackgroundRecoverSummary) (m n : BackgroundTaskManager)
    → Covers ((recover_loop now raws seen s m).1) n
    → recover_loop now' raws seen s n ≡ ((recover_loop now raws seen s m).0, n)
unfolding recover_loop
replay_loop now now' [] seen s m n c = refl
replay_loop now now' (raw ∷ raws) seen s m n c =
    let first = recover_one now raw seen m in
    let s' = tally (first.0) s in
    let rest = recover_loop-Restoring now raws (first.1) s' (first.2) in
    rw (replay_one now now' raw seen m n (covered (first.2) _ n rest c))
      (replay_loop now now' raws (first.1) s' (first.2) n c)

-- Recovering the same values again, at whatever time, gives the same summary and leaves the manager as
-- the first recovery made it.
pub recover_twice :
    (now now' : Text) (persisted : Option (List (Option BackgroundTaskRecord)))
    (m : BackgroundTaskManager)
    → let (summary, m') = recover now persisted m in recover now' persisted m' ≡ (summary, m')
unfolding recover Covers
recover_twice now now' none m = refl
recover_twice now now' (some raws) m =
    let s : BackgroundRecoverSummary = record {
      resumed = 0;
      awaiting_approval = 0;
      abandoned = 0;
      rejected = 0;
    } in
    replay_loop now now' raws [] s m ((recover_loop now raws [] s m).1) (λ k e h. (e, h))
