-- ===== src/Sync/Tick/Phases.antt =====
-- sync-engine.ts: what the push of a tick and its loop over the records that came keep.
use ai_desktop.Base.{
  ℕ, zero, suc, ◌≡◌, refl, ap, subst, Option, none, some, List, [], ◌∷◌, Text, map, inl, inr, ◌⊎◌,
  arith, Option-cases,
}
use ai_desktop.Sync.Conflict.{SyncRecord}
use ai_desktop.Sync.Transport.{
  WireSyncRecord, TransportFailure, offline, auth_expired, server_error, thrown, TransportResult,
  done, failed, SyncTransport,
}
use ai_desktop.Sync.Engine.{SyncPlatform, refuse_outbound, validate_inbound, max_sync_retries}
use ai_desktop.Sync.Engine.Gates.{refuse_outbound-Sendable}
use ai_desktop.Sync.Engine.Inbound.{validate_inbound-Appliable}
use ai_desktop.Sync.Merge.{
  SyncConflict, SyncEngineLocalStore, SyncState, SyncEngine, keep, merge_remote,
}
use ai_desktop.Sync.Tick.{
  SyncEngineTickSummary, count_merge, Outbound, retry, with_retry, partition_outbound, set_status,
  fail_tick, keep_all, settle_push, push_phase, merge_loop,
}
use ai_desktop.Sync.Tick.Kept.{Kept, carry, StoreKept, SideKept, EverySendable, merge_remote-Kept}

pub TransportResult-cases {ℓ} :
    {A : Type ℓ} (r : TransportResult A)
    → ((a : A) × (r ≡ done a)) ⊎ ((f : TransportFailure) × (r ≡ failed f))
TransportResult-cases (done a) = inl (a, refl)
TransportResult-cases (failed f) = inr (f, refl)

-- A retry keeps what each try keeps.
module _ {ℓ κ} {A T : Type ℓ} (I : T → Type κ) (op : T → T × TransportResult A)
    (h : (u : T) → I u → I (op u).0) where
  retry_kept :
      (r : TransportResult A) (t : T) (again : T × TransportResult A)
      → I t
      → I again.0
      → I (retry r t again).0
  retry_kept (done a) t again i k = i
  retry_kept (failed offline) t again i k = i
  retry_kept (failed auth_expired) t again i k = i
  retry_kept (failed thrown) t again i k = i
  retry_kept (failed server_error) t again i k = k

  pub with_retry_kept : (left : ℕ) (t : T) → I t → I (with_retry left op t).0
  unfolding with_retry
  with_retry_kept zero t i = h t i
  with_retry_kept (suc left) t i =
      retry_kept (op t).1 (op t).0 (with_retry left op (op t).0) (h t i)
        (with_retry_kept left (op t).0 (h t i))

module _ (p : SyncPlatform) where
  pub partition_outbound-Sendable :
      (rs : List SyncRecord) → EverySendable p (map (λ o. o.wire) (partition_outbound p rs))
  unfolding partition_outbound
  partition_outbound-Sendable [] = tt
  partition_outbound-Sendable (r ∷ rs) = elim (Option-cases (refuse_outbound p r)) [
    | inl refuses ↦
        let same : partition_outbound p rs ≡ partition_outbound p (r ∷ rs) = ground arith in
        subst (EverySendable p) (ap (map (λ o. o.wire)) same) (partition_outbound-Sendable rs)
    | inr (w, e) ↦
        let first : Outbound = record { canonical = r; wire = w } in
        let same : first ∷ partition_outbound p rs ≡ partition_outbound p (r ∷ rs) = ground arith in
        subst (EverySendable p) (ap (map (λ o. o.wire)) same)
          ((refuse_outbound-Sendable p r w e).1, partition_outbound-Sendable rs)
  ]

module _ {S T : Type 0} (p : SyncPlatform) (port : SyncEngineLocalStore S) (side : SyncTransport T)
    (account_id : Text) (J : S → Type 0) (I : T → Type 0) (ks : StoreKept p port J)
    (kt : SideKept p side account_id I) where
  pub merge_loop-Kept :
      (now : ℕ) (cs : List SyncConflict) (rs : List (Option WireSyncRecord))
      (t : SyncEngineTickSummary) (e : SyncEngine S T)
      → Kept J I e
      → Kept J I (merge_loop p port side account_id now cs rs t e).0
  unfolding merge_loop
  merge_loop-Kept now cs [] t e k = k
  merge_loop-Kept now cs (c ∷ rest) t e k =
      let e1 = record e { minted = suc e.minted } in
      let k1 : Kept J I e1 = record { stored = k.stored; sided = k.sided } in
      elim (Option-cases (validate_inbound p e.minted c)) [
        | inl bad ↦
            carry (merge_loop-Kept now cs rest (record t { invalid = suc t.invalid }) e1 k1)
              (ground arith)
        | inr (remote, h) ↦
            let good = validate_inbound-Appliable p e.minted c remote h in
            let k2 = merge_remote-Kept p port J I ks now cs remote e1 good k1 in
            elim (Option-cases (merge_remote p port now cs remote e1).1) [
              | inl throws ↦ carry k2 (ground arith)
              | inr (o, g) ↦
                  carry
                    (merge_loop-Kept now cs rest (count_merge o t)
                      (merge_remote p port now cs remote e1).0 k2)
                    (ground arith)
            ]
      ]

  pub set_status-Kept :
      (state : SyncState) (synced last_error : Option Text) (pending count : Option ℕ)
      (e : SyncEngine S T)
      → Kept J I e
      → Kept J I (set_status p port side account_id state synced last_error pending count e)
  unfolding set_status
  set_status-Kept state synced last_error pending count e k = record {
    stored = k.stored;
    sided = k.sided;
  }

  pub fail_tick-Kept :
      (other : Text) (f : TransportFailure) (pending : ℕ) (t : SyncEngineTickSummary)
      (e : SyncEngine S T)
      → Kept J I e
      → Kept J I (fail_tick p port side account_id other f pending t e).0
  unfolding fail_tick
  fail_tick-Kept other offline pending t e k =
      set_status-Kept SyncState.offline none none (some pending) none e k
  fail_tick-Kept other auth_expired pending t e k =
      set_status-Kept SyncState.error none _ (some pending) none e k
  fail_tick-Kept other server_error pending t e k =
      set_status-Kept SyncState.error none _ (some pending) none e k
  fail_tick-Kept other thrown pending t e k =
      set_status-Kept SyncState.error none _ (some pending) none e k

  keep_all-Kept :
      (now : ℕ) (os : List Outbound) (e : SyncEngine S T)
      → Kept J I e
      → Kept J I (keep_all p port side account_id now os e)
  unfolding keep_all keep
  keep_all-Kept now [] e k = k
  keep_all-Kept now (x ∷ os) e k =
      keep_all-Kept now os (keep p port now x.canonical e)
        (record { stored = k.stored; sided = k.sided })

  settle_push-Kept :
      (now : ℕ) (os : List Outbound) (r : TransportResult Text) (e : SyncEngine S T)
      → Kept J I e
      → Kept J I (settle_push p port side account_id now os r e).0
  unfolding settle_push
  settle_push-Kept now os (failed f) e k = k
  settle_push-Kept now os (done cursor) e k =
      elim (Option-cases (port.mark_clean (map (λ o. o.canonical) os) e.store)) [
        | inl fails ↦ carry k (ground arith)
        | inr (s, h) ↦
            let k' =
              keep_all-Kept now os (record e { store = s })
                (record {
                  stored = ks.clean (map (λ o. o.canonical) os) e.store s h k.stored;
                  sided = k.sided;
                }) in
            let e' = keep_all p port side account_id now os (record e { store = s }) in
            elim (Option-cases (port.set_cursor cursor e'.store)) [
              | inl fails ↦ carry k' (ground arith)
              | inr (s', g) ↦
                  let k'' : Kept J I (record e' { store = s' }) = record {
                    stored = ks.cursor cursor e'.store s' g k'.stored;
                    sided = k'.sided;
                  } in
                  carry k'' (ground arith)
            ]
      ]

  pub push_phase-Kept :
      (now : ℕ) (os : List Outbound) (cursor : Text) (e : SyncEngine S T)
      → EverySendable p (map (λ o. o.wire) os)
      → Kept J I e
      → Kept J I (push_phase p port side account_id now os cursor e).0
  unfolding push_phase
  push_phase-Kept now [] cursor e good k = k
  push_phase-Kept now (x ∷ os) cursor e good k =
      let op = side.push account_id (map (λ o. o.wire) (x ∷ os)) in
      settle_push-Kept now (x ∷ os) _ _ (record {
        stored = k.stored;
        sided =
            with_retry_kept I op (λ u i. kt.push (map (λ o. o.wire) (x ∷ os)) u good i)
              max_sync_retries e.transport k.sided;
      })
