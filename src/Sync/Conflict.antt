-- ===== src/Sync/Conflict.antt =====
-- packages/ai-core/src/sync.ts: the envelope of a synced entity, the winner of a scalar conflict and
-- the classification of a divergence. A payload is its JSON text, `none` for null.
pub mod Convergence
use ai_desktop.Base.{
  ℕ, Bool, true, false, not, ◌||◌, Option, none, some, List, [], ◌∷◌, Text, codes, ltb, ◌==◌,
  if◌then◌else◌, text_eq, text_lt, includes,
}

pub record SyncRecord : Type 0 where
  pub record_id : Text
  pub entity_type : Text
  pub entity_id : Text
  pub account_id : Text
  pub device_id : Text
  pub version : ℕ
  pub updated_at : Text
  pub deleted_at : Option Text
  pub payload : Option Text

abbrev is_none : Option Text → Bool
is_none none = true
is_none (some t) = false

unfoldable pub is_sync_tombstone : SyncRecord → Bool
is_sync_tombstone r = if is_none r.deleted_at then false else is_none r.payload

unfoldable pub resolve_scalar_conflict : SyncRecord → SyncRecord → SyncRecord
resolve_scalar_conflict local remote =
    if not (remote.version == local.version)
    then (if ltb local.version remote.version then remote else local)
    else (if not (text_eq remote.updated_at local.updated_at)
        then (if text_lt local.updated_at remote.updated_at then remote else local)
        else (if not (text_eq remote.device_id local.device_id)
            then (if text_lt remote.device_id local.device_id then remote else local)
            else local))

pub data SyncConflictResolution : Type 0 where
  auto_mergeable explicit : SyncConflictResolution

-- `EXPLICIT_CONFLICT_ENTITY_TYPES`.
abbrev pub explicit_conflict_entity_types : List Text
explicit_conflict_entity_types = codes "schedule.definition" ∷ codes "extension.metadata" ∷ []

abbrev pub looks_deleted : SyncRecord → Bool
looks_deleted r = not (is_none r.deleted_at) || is_none r.payload

unfoldable pub classify_sync_conflict : SyncRecord → SyncRecord → SyncConflictResolution
classify_sync_conflict local remote =
    if looks_deleted local || looks_deleted remote
    then explicit
    else (if includes explicit_conflict_entity_types local.entity_type
          || includes explicit_conflict_entity_types remote.entity_type
        then explicit
        else auto_mergeable)
