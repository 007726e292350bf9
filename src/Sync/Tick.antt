-- ===== src/Sync/Tick.antt =====
-- packages/agent-runtime/src/runtime/sync/sync-engine.ts: `tick` with its retries. Ticks run one after another,
-- and the waits between the retries take no time.
pub mod Kept
pub mod Phases
pub mod Guarded
pub mod Retries
use ai_desktop.Base.{
  ℕ, zero, suc, ◌+◌, ◌-◌, Bool, true, false, not, Option, none, some, List, [], ◌∷◌, ◌++◌, Text,
  codes, length, take, map, leb, ltb, ◌==◌, if◌then◌else◌,
}
use ai_desktop.Base.Dict
use ai_desktop.Sync.Conflict.{SyncRecord}
use ai_desktop.Sync.Queue.{max_sync_outbox}
use ai_desktop.Sync.Transport.{
  WireSyncRecord, TransportFailure, offline, auth_expired, server_error, thrown, TransportResult,
  done, failed, SyncPullOutcome, SyncTransport, sync_pull_limit_default,
}
use ai_desktop.Sync.Engine.{SyncPlatform, refuse_outbound, validate_inbound, max_sync_retries}
use ai_desktop.Sync.Merge.{
  SyncConflict, SyncEngineLocalStore, SyncState, SyncStatus, SyncEngine, MergeOutcome, applied,
  conflicted, skipped, keep, merge_remote,
}

pub record SyncEngineTickSummary : Type 0 where
  pub pushed : ℕ
  pub pulled : ℕ
  pub applied : ℕ
  pub conflicts : ℕ
  pub invalid : ℕ
  pub refused : ℕ
  pub offline : Bool
  pub error : Option Text
  pub tombstones : ℕ

-- Only a server error is tried again.
abbrev pub retry {ℓ} :
    {A T : Type ℓ} → TransportResult A → T → T × TransportResult A → T × TransportResult A
retry (failed server_error) t again = again
retry (failed failure) t again = (t, failed failure)
retry (done a) t again = (t, done a)

-- `_withRetry`: `left` retries at most.
unfoldable pub with_retry {ℓ} :
    {A T : Type ℓ} → ℕ → (T → T × TransportResult A) → T → T × TransportResult A
with_retry zero op t = op t
with_retry (suc left) op t = let (t', result) = op t in retry result t' (with_retry left op t')

pub record Outbound : Type 0 where
  pub canonical : SyncRecord
  pub wire : WireSyncRecord

unfoldable pub partition_outbound : SyncPlatform → List SyncRecord → List Outbound
partition_outbound p [] = []
partition_outbound p (r ∷ rs) =
    let rest = partition_outbound p rs in
    elim (refuse_outbound p r) [
      | none ↦ rest
      | some wire ↦ record { canonical = r; wire = wire } ∷ rest
    ]

abbrev pub zero_summary : SyncEngineTickSummary
zero_summary = record {
  pushed = 0;
  pulled = 0;
  applied = 0;
  conflicts = 0;
  invalid = 0;
  refused = 0;
  offline = false;
  error = none;
  tombstones = 0;
}

-- The code of a failure, in a phase with this code for the rest.
abbrev pub failure_code : Text → TransportFailure → Text
failure_code other offline = codes "offline"
failure_code other auth_expired = codes "auth-expired"
failure_code other _ = other

abbrev pub is_offline : TransportFailure → Bool
is_offline offline = true
is_offline _ = false

abbrev pub count_merge : MergeOutcome → SyncEngineTickSummary → SyncEngineTickSummary
count_merge applied t = record t { applied = suc t.applied }
count_merge conflicted t = record t { conflicts = suc t.conflicts }
count_merge skipped t = t

module _ {S T : Type 0} (p : SyncPlatform) (port : SyncEngineLocalStore S) (side : SyncTransport T)
    (account_id : Text) where
  -- `_setStatus`: the counts stay unless they are given.
  unfoldable pub set_status :
      SyncState → Option Text → Option Text → Option ℕ → Option ℕ → SyncEngine S T → SyncEngine S T
  set_status state synced last_error pending conflict_count e =
      let or_old : Option ℕ → ℕ → ℕ = λ o old. elim o [ none ↦ old | some n ↦ n ] in
      record e {
        status = record {
          state = state;
          last_synced_at = synced;
          pending_changes = or_old pending e.status.pending_changes;
          last_error = last_error;
          conflict_count = or_old conflict_count e.status.conflict_count;
        };
      }

  abbrev pub finish :
      SyncEngine S T → SyncEngineTickSummary → SyncEngine S T × SyncEngineTickSummary
  finish e t = (e, record t { tombstones = length e.tombstone_seen })

  -- The end of a tick that failed.
  unfoldable pub fail_tick :
      Text
      → TransportFailure
      → ℕ
      → SyncEngineTickSummary
      → SyncEngine S T
      → SyncEngine S T × SyncEngineTickSummary
  fail_tick other failure pending t e =
      let code = failure_code other failure in
      if is_offline failure
      then finish (set_status SyncState.offline none none (some pending) none e)
          (record t { offline = true; error = some code })
      else finish (set_status SyncState.error none (some code) (some pending) none e)
          (record t { error = some code })

  unfoldable pub keep_all : ℕ → List Outbound → SyncEngine S T → SyncEngine S T
  keep_all now [] e = e
  keep_all now (o ∷ os) e = keep_all now os (keep p port now o.canonical e)

  -- The records are marked clean once the push succeeded; the new cursor, or the failure.
  unfoldable pub settle_push :
      ℕ
      → List Outbound
      → TransportResult Text
      → SyncEngine S T
      → SyncEngine S T × TransportResult Text
  settle_push now os (failed failure) e = (e, failed failure)
  settle_push now os (done cursor) e = elim (port.mark_clean (map (λ o. o.canonical) os) e.store) [
    | none ↦ (e, failed thrown)
    | some s ↦
        let e' = keep_all now os (record e { store = s }) in
        elim (port.set_cursor cursor e'.store) [
          | none ↦ (e', failed thrown)
          | some s' ↦ (record e' { store = s' }, done cursor)
        ]
  ]

  unfoldable pub push_phase :
      ℕ → List Outbound → Text → SyncEngine S T → SyncEngine S T × TransportResult Text
  push_phase now [] cursor e = (e, done cursor)
  push_phase now (o ∷ os) cursor e =
      let (t, result) =
        with_retry max_sync_retries (side.push account_id (map (λ o. o.wire) (o ∷ os)))
          e.transport in
      settle_push now (o ∷ os) result (record e { transport = t })

  -- The loop over the records that came; `false` after a throw.
  unfoldable pub merge_loop :
      ℕ
      → List SyncConflict
      → List (Option WireSyncRecord)
      → SyncEngineTickSummary
      → SyncEngine S T
      → SyncEngine S T × SyncEngineTickSummary × Bool
  merge_loop now conflicts [] t e = (e, t, true)
  merge_loop now conflicts (c ∷ cs) t e =
      let e1 = record e { minted = suc e.minted } in
      elim (validate_inbound p e.minted c) [
        | none ↦ merge_loop now conflicts cs (record t { invalid = suc t.invalid }) e1
        | some remote ↦
            let (e2, outcome) = merge_remote p port now conflicts remote e1 in
            elim outcome [
              | none ↦ (e2, t, false)
              | some o ↦ merge_loop now conflicts cs (count_merge o t) e2
            ]
      ]

  -- The status at the end of a tick that went through.
  unfoldable pub close_tick :
      ℕ → ℕ → SyncEngineTickSummary → SyncEngine S T → SyncEngine S T × SyncEngineTickSummary
  close_tick now pending t e = elim (port.list_conflicts e.store) [
    | none ↦
        finish (set_status SyncState.error none (some (codes "storage-error")) none none e)
          (record t { error = some (codes "storage-error") })
    | some cs ↦
        finish
          (set_status (if ltb 0 (length cs) then SyncState.conflict else SyncState.idle)
            (some (p.to_iso now)) none (some pending) (some (length cs)) e)
          t
  ]

  unfoldable pub merge_phase :
      ℕ
      → ℕ
      → SyncPullOutcome
      → SyncEngineTickSummary
      → SyncEngine S T
      → SyncEngine S T × SyncEngineTickSummary
  merge_phase now pending outcome t e = elim (port.list_conflicts e.store) [
    | none ↦ fail_tick (codes "pull-failed") thrown pending t e
    | some conflicts ↦
        let (e', t', returned) = merge_loop now conflicts outcome.records t e in
        if returned
        then elim (port.set_cursor outcome.cursor e'.store) [
          | none ↦ fail_tick (codes "pull-failed") thrown pending t' e'
          | some s ↦ close_tick now pending t' (record e' { store = s })
        ]
        else fail_tick (codes "pull-failed") thrown pending t' e'
  ]

  unfoldable pub pull_phase :
      ℕ → ℕ → Text → SyncEngineTickSummary → SyncEngine S T → SyncEngine S T × SyncEngineTickSummary
  pull_phase now pending cursor t e =
      let (u, result) =
        with_retry max_sync_retries (side.pull account_id cursor sync_pull_limit_default)
          e.transport in
      let e' = record e { transport = u } in
      elim result [
        | failed failure ↦ fail_tick (codes "pull-failed") failure pending t e'
        | done outcome ↦
            merge_phase now pending outcome (record t { pulled = length outcome.records }) e'
      ]

  unfoldable pub sync_dirty :
      ℕ → List SyncRecord → Text → SyncEngine S T → SyncEngine S T × SyncEngineTickSummary
  sync_dirty now dirty cursor e =
      let outbound = partition_outbound p dirty in
      let t = record zero_summary { refused = length dirty - length outbound } in
      let (e', result) = push_phase now outbound cursor e in
      elim result [
        | failed failure ↦ fail_tick (codes "push-failed") failure (length dirty) t e'
        | done cursor' ↦
            pull_phase now (length dirty - length outbound) cursor'
              (record t { pushed = length outbound }) e'
      ]

  unfoldable pub tick_once : ℕ → SyncEngine S T → SyncEngine S T × SyncEngineTickSummary
  tick_once now e =
      let e' = set_status SyncState.syncing none none none none e in
      let fails =
        finish (set_status SyncState.error none (some (codes "storage-error")) none none e')
          (record zero_summary { error = some (codes "storage-error") }) in
      elim (port.load_dirty max_sync_outbox e'.store) [
        | none ↦ fails
        | some dirty ↦ elim (port.get_cursor e'.store) [
          | none ↦ fails
          | some cursor ↦ sync_dirty now (take max_sync_outbox dirty) cursor e'
        ]
      ]
