-- ===== src/Sync/Tick/Guarded.antt =====
-- sync-engine.ts: what a tick sends and applies has passed the gates.
use ai_desktop.Base.{
  ℕ, ◌-◌, none, some, List, Text, codes, take, length, inl, inr, arith, Bool-cases, Option-cases,
  if◌then◌else◌, ltb,
}
use ai_desktop.Sync.Conflict.{SyncRecord}
use ai_desktop.Sync.Queue.{max_sync_outbox}
use ai_desktop.Sync.Transport.{thrown, SyncPullOutcome, SyncTransport, sync_pull_limit_default}
use ai_desktop.Sync.Engine.{SyncPlatform, max_sync_retries}
use ai_desktop.Sync.Merge.{SyncEngineLocalStore, SyncState, SyncEngine}
use ai_desktop.Sync.Tick.{
  SyncEngineTickSummary, zero_summary, with_retry, partition_outbound, set_status, push_phase,
  merge_loop, close_tick, merge_phase, pull_phase, sync_dirty, tick_once,
}
use ai_desktop.Sync.Tick.Kept.{Kept, carry, StoreKept, SideKept}
use ai_desktop.Sync.Tick.Phases.{
  TransportResult-cases, with_retry_kept, partition_outbound-Sendable, merge_loop-Kept,
  set_status-Kept, fail_tick-Kept, push_phase-Kept,
}

module _ {S T : Type 0} (p : SyncPlatform) (port : SyncEngineLocalStore S) (side : SyncTransport T)
    (account_id : Text) (J : S → Type 0) (I : T → Type 0) (ks : StoreKept p port J)
    (kt : SideKept p side account_id I) where
  close_tick-Kept :
      (now pending : ℕ) (t : SyncEngineTickSummary) (e : SyncEngine S T)
      → Kept J I e
      → Kept J I (close_tick p port side account_id now pending t e).0
  unfolding close_tick
  close_tick-Kept now pending t e k = elim (Option-cases (port.list_conflicts e.store)) [
    | inl fails ↦
        carry
          (set_status-Kept p port side account_id J I ks kt SyncState.error none
            (some (codes "storage-error")) none none e k)
          (ground arith)
    | inr (cs, h) ↦
        carry
          (set_status-Kept p port side account_id J I ks kt
            (if ltb 0 (length cs) then SyncState.conflict else SyncState.idle) (some (p.to_iso now))
            none (some pending) (some (length cs)) e k)
          (ground arith)
  ]

  merge_phase-Kept :
      (now pending : ℕ) (outcome : SyncPullOutcome) (t : SyncEngineTickSummary) (e : SyncEngine S T)
      → Kept J I e
      → Kept J I (merge_phase p port side account_id now pending outcome t e).0
  unfolding merge_phase
  merge_phase-Kept now pending outcome t e k = elim (Option-cases (port.list_conflicts e.store)) [
    | inl fails ↦
        carry
          (fail_tick-Kept p port side account_id J I ks kt (codes "pull-failed") thrown pending t e
            k)
          (ground arith)
    | inr (cs, h) ↦
        let k' = merge_loop-Kept p port side account_id J I ks kt now cs outcome.records t e k in
        let (e', t', returned) = merge_loop p port side account_id now cs outcome.records t e in
        elim (Bool-cases returned) [
          | inr throws ↦
              carry
                (fail_tick-Kept p port side account_id J I ks kt (codes "pull-failed") thrown
                  pending t' e' k')
                (ground arith)
          | inl returns ↦ elim (Option-cases (port.set_cursor outcome.cursor e'.store)) [
            | inl fails ↦
                carry
                  (fail_tick-Kept p port side account_id J I ks kt (codes "pull-failed") thrown
                    pending t' e' k')
                  (ground arith)
            | inr (s, g) ↦
                let k'' : Kept J I (record e' { store = s }) = record {
                  stored = ks.cursor outcome.cursor e'.store s g k'.stored;
                  sided = k'.sided;
                } in
                carry (close_tick-Kept now pending t' (record e' { store = s }) k'') (ground arith)
          ]
        ]
  ]

  pull_phase-Kept :
      (now pending : ℕ) (cursor : Text) (t : SyncEngineTickSummary) (e : SyncEngine S T)
      → Kept J I e
      → Kept J I (pull_phase p port side account_id now pending cursor t e).0
  unfolding pull_phase
  pull_phase-Kept now pending cursor t e k =
      let op = side.pull account_id cursor sync_pull_limit_default in
      let (u, result) = with_retry max_sync_retries op e.transport in
      let k' : Kept J I (record e { transport = u }) = record {
        stored = k.stored;
        sided =
            with_retry_kept I op (λ v i. kt.pull cursor sync_pull_limit_default v i)
              max_sync_retries e.transport k.sided;
      } in
      elim (TransportResult-cases result) [
        | inl (outcome, h) ↦
            carry
              (merge_phase-Kept now pending outcome (record t { pulled = length outcome.records })
                (record e { transport = u }) k')
              (ground arith)
        | inr (f, h) ↦
            carry
              (fail_tick-Kept p port side account_id J I ks kt (codes "pull-failed") f pending t
                (record e { transport = u }) k')
              (ground arith)
      ]

  sync_dirty-Kept :
      (now : ℕ) (dirty : List SyncRecord) (cursor : Text) (e : SyncEngine S T)
      → Kept J I e
      → Kept J I (sync_dirty p port side account_id now dirty cursor e).0
  unfolding sync_dirty
  sync_dirty-Kept now dirty cursor e k =
      let out = partition_outbound p dirty in
      let t : SyncEngineTickSummary = record zero_summary { refused = length dirty - length out } in
      let k' =
        push_phase-Kept p port side account_id J I ks kt now out cursor e
          (partition_outbound-Sendable p dirty) k in
      let (e', result) = push_phase p port side account_id now out cursor e in
      elim (TransportResult-cases result) [
        | inl (cursor', h) ↦
            carry
              (pull_phase-Kept now (length dirty - length out) cursor'
                (record t { pushed = length out }) e' k')
              (ground arith)
        | inr (f, h) ↦
            carry
              (fail_tick-Kept p port side account_id J I ks kt (codes "push-failed") f
                (length dirty) t e' k')
              (ground arith)
      ]

  -- What a tick sends and applies has passed the gates: whatever the store keeps under the writes of the
  -- engine, as long as each schedule that is applied is switched off and has no runs, and whatever the other
  -- side keeps, as long as each record pushed is an object of a bounded size, without secret-shaped keys and
  -- not of project metadata, holds after a tick if it holds before it, failures of both included.
  pub tick_once-Kept :
      (now : ℕ) (e : SyncEngine S T)
      → Kept J I e
      → Kept J I (tick_once p port side account_id now e).0
  unfolding tick_once
  tick_once-Kept now e k =
      let e1 = set_status p port side account_id SyncState.syncing none none none none e in
      let k1 =
        set_status-Kept p port side account_id J I ks kt SyncState.syncing none none none none e
          k in
      let failing =
        set_status-Kept p port side account_id J I ks kt SyncState.error none
          (some (codes "storage-error")) none none e1 k1 in
      elim (Option-cases (port.load_dirty max_sync_outbox e1.store)) [
        | inl fails ↦ carry failing (ground arith)
        | inr (dirty, h) ↦ elim (Option-cases (port.get_cursor e1.store)) [
          | inl fails ↦ carry failing (ground arith)
          | inr (cursor, g) ↦
              carry (sync_dirty-Kept now (take max_sync_outbox dirty) cursor e1 k1) (ground arith)
        ]
      ]
