-- ===== src/Sync/Merge.antt =====
-- packages/agent-runtime/src/runtime/sync/sync-engine.ts: the state of `SyncEngine`, its tombstone ledger and
-- `_mergeRemote`; and `buildSyncConflict` of packages/ai-core/src/sync.ts.
pub mod Newest
pub mod Ledger
use ai_desktop.Base.{
  ℕ, zero, suc, ◌+◌, ◌-◌, Bool, true, false, not, ◌&&◌, ◌||◌, Option, none, some, List, [], ◌∷◌,
  ◌++◌, Text, codes, length, take, filter, map, any, leb, ltb, ◌==◌, if◌then◌else◌, text_eq,
  or_else,
}
use ai_desktop.Base.Dict
use ai_desktop.Schemas.{fit, ◌>>=◌, ulid_string, timestamp_string}
use ai_desktop.Sync.Conflict.{
  SyncRecord, is_sync_tombstone, resolve_scalar_conflict, SyncConflictResolution, auto_mergeable,
  explicit, classify_sync_conflict,
}
use ai_desktop.Sync.Payload.{diff_sync_payload_fields}
use ai_desktop.Sync.Engine.{
  SyncPlatform, merge_key, same_envelope, payload_json, max_tombstones, retention_ms,
}

pub record SyncConflict : Type 0 where
  pub conflict_id : Text
  pub entity_type : Text
  pub entity_id : Text
  pub local_version : ℕ
  pub remote_version : ℕ
  pub changed_fields : List Text
  pub created_at : Text

-- `none` is a throw. `S` is the state of the store.
pub record SyncEngineLocalStore (S : Type 0) : Type 0 where
  pub load_dirty : ℕ → S → Option (List SyncRecord)
  pub mark_clean : List SyncRecord → S → Option S
  pub apply_remote : SyncRecord → S → Option S
  pub get_cursor : S → Option Text
  pub set_cursor : Text → S → Option S
  pub list_conflicts : S → Option (List SyncConflict)
  pub save_conflict : SyncConflict → S → Option S

pub data SyncState : Type 0 where
  idle syncing offline error conflict : SyncState

pub record SyncStatus : Type 0 where
  pub state : SyncState
  pub last_synced_at : Option Text
  pub pending_changes : ℕ
  pub last_error : Option Text
  pub conflict_count : ℕ

pub record SyncEngine (S T : Type 0) : Type 0 where
  pub store : S
  pub transport : T
  pub known : List (Text × SyncRecord)
  pub tombstone_seen : List (Text × ℕ)
  pub status : SyncStatus
  pub minted : ℕ

-- The entries in the order of their times, and of the map where these agree.
unfoldable pub insert_seen : Text × ℕ → List (Text × ℕ) → List (Text × ℕ)
insert_seen e [] = e ∷ []
insert_seen e (f ∷ fs) = let rest = insert_seen e fs in if ltb e.1 f.1 then e ∷ f ∷ fs else f ∷ rest

unfoldable pub order_seen : List (Text × ℕ) → List (Text × ℕ) → List (Text × ℕ)
order_seen sorted [] = sorted
order_seen sorted (e ∷ es) = order_seen (insert_seen e sorted) es

unfoldable pub delete_keys : List (Text × ℕ) → List (Text × ℕ) → List (Text × ℕ)
delete_keys [] m = m
delete_keys ((k, t) ∷ es) m = delete_keys es (Dict.delete k m)

-- The ledger is bounded by deleting its oldest entries.
unfoldable pub cap_tombstones : List (Text × ℕ) → List (Text × ℕ)
cap_tombstones m =
    if ltb max_tombstones (length m)
    then delete_keys (take (length m - max_tombstones) (order_seen [] m)) m
    else m

abbrev pub alive_entries : ℕ → List (Text × ℕ) → List (Text × ℕ)
alive_entries now m = filter (λ e. not (leb (e.1 + retention_ms) now)) m

unfoldable pub track_tombstone :
    (Text → Option ℕ) → ℕ → Text → SyncRecord → List (Text × ℕ) → List (Text × ℕ)
track_tombstone date_parse now key r seen = cap_tombstones (
    alive_entries now (
      if is_sync_tombstone r
      then Dict.set key
          (elim (date_parse (or_else r.deleted_at r.updated_at)) [ none ↦ now | some t ↦ t ]) seen
      else Dict.delete key seen))

-- `z.array(z.string().trim().min(1).max(256))` of the changed fields.
unfoldable pub parse_changed_fields : List Text → Option (List Text)
parse_changed_fields [] = some []
parse_changed_fields (k ∷ ks) = do
  key ← fit 256 k
  elim (parse_changed_fields ks) [ none ↦ none | some keys ↦ some (key ∷ keys) ]

abbrev pub max_sync_changed_fields : ℕ
max_sync_changed_fields = 50

-- `none` is a throw, of the guard or of the schema.
unfoldable pub build_sync_conflict :
    SyncPlatform → ℕ → SyncRecord → SyncRecord → Text → Option SyncConflict
build_sync_conflict p n local remote created_at = do
  entity_id ← fit 256 local.entity_id
  created ← timestamp_string created_at
  id ← ulid_string (p.fresh_id n)
  elim (parse_changed_fields (
      diff_sync_payload_fields p.stringify (payload_json p local.payload)
        (payload_json p remote.payload) max_sync_changed_fields)) [
          | none ↦ none
          | some fields ↦
              if text_eq local.entity_type remote.entity_type
                && text_eq local.entity_id remote.entity_id
              then some (record {
                conflict_id = id;
                entity_type = local.entity_type;
                entity_id = entity_id;
                local_version = local.version;
                remote_version = remote.version;
                changed_fields = fields;
                created_at = created;
              })
              else none
        ]

pub data MergeOutcome : Type 0 where
  applied conflicted skipped : MergeOutcome

-- `winner === remote`: the winner is the local record where all of the triple agrees.
unfoldable pub remote_wins : SyncRecord → SyncRecord → Bool
remote_wins local remote =
    let winner = resolve_scalar_conflict local remote in
    not (
      (winner.version == local.version)
      && text_eq winner.updated_at local.updated_at
      && text_eq winner.device_id local.device_id)

-- The conflict is on record.
abbrev pub is_duplicate : SyncRecord → SyncRecord → SyncConflict → Bool
is_duplicate local remote c =
    text_eq c.entity_type remote.entity_type
    && text_eq c.entity_id remote.entity_id
    && (c.local_version == local.version)
    && (c.remote_version == remote.version)

-- The state after a merge, and `none` for a throw.
abbrev pub Merged : Type 0 → Type 0 → Type 0
Merged S T = SyncEngine S T × Option MergeOutcome

module _ {S T : Type 0} (p : SyncPlatform) (port : SyncEngineLocalStore S) where
  -- What is kept of a record that was pushed or applied.
  unfoldable pub keep : ℕ → SyncRecord → SyncEngine S T → SyncEngine S T
  keep now r e = record e {
    known = Dict.set (merge_key r) r e.known;
    tombstone_seen = track_tombstone p.date_parse now (merge_key r) r e.tombstone_seen;
  }

  unfoldable pub apply : ℕ → SyncRecord → SyncEngine S T → Merged S T
  apply now remote e = elim (port.apply_remote remote e.store) [
    | none ↦ (e, none)
    | some s ↦ (keep now remote (record e { store = s }), some applied)
  ]

  unfoldable pub save_explicit : ℕ → SyncRecord → SyncRecord → SyncEngine S T → Merged S T
  save_explicit now local remote e =
      elim (build_sync_conflict p e.minted local remote (p.to_iso now)) [
        | none ↦ (e, none)
        | some c ↦ elim (port.save_conflict c e.store) [
          | none ↦ (e, none)
          | some s ↦ (record e { store = s; minted = suc e.minted }, some conflicted)
        ]
      ]

  -- The same version on both sides.
  unfoldable pub merge_divergent :
      ℕ → List SyncConflict → SyncRecord → SyncRecord → SyncEngine S T → Merged S T
  merge_divergent now conflicts local remote e = elim (classify_sync_conflict local remote) [
    | explicit ↦
        if any (is_duplicate local remote) conflicts
        then (e, some conflicted)
        else save_explicit now local remote e
    | auto_mergeable ↦ if remote_wins local remote then apply now remote e else (e, some skipped)
  ]

  unfoldable pub merge_known :
      ℕ → List SyncConflict → SyncRecord → SyncRecord → SyncEngine S T → Merged S T
  merge_known now conflicts local remote e =
      if same_envelope p local remote
      then (e, some skipped)
      else (if not (remote.version == local.version)
          then (if ltb local.version remote.version then apply now remote e else (e, some skipped))
          else merge_divergent now conflicts local remote e)

  unfoldable pub merge_remote : ℕ → List SyncConflict → SyncRecord → SyncEngine S T → Merged S T
  merge_remote now conflicts remote e = elim (Dict.get (merge_key remote) e.known) [
    | none ↦ apply now remote e
    | some local ↦ merge_known now conflicts local remote e
  ]
