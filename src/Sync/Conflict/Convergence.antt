-- ===== src/Sync/Conflict/Convergence.antt =====
-- Two devices that see the same two records pick the same winner.
use ai_desktop.Base.{◌≡◌, ◌⊎◌, true, arith, text_eq_iff, text_eq_comm, text_lt-total}
use ai_desktop.Sync.Conflict.{
  SyncRecord, resolve_scalar_conflict, classify_sync_conflict, explicit, looks_deleted,
}

-- The records carry the same (version, updatedAt, deviceId).
abbrev pub SameStamp : SyncRecord → SyncRecord → Type 0
SameStamp a b =
    (a.version ≡ b.version) × (a.updated_at ≡ b.updated_at) × (a.device_id ≡ b.device_id)

-- Unless version, time and device all agree, the winner does not depend on which side is local; the
-- winner is one of the two; on a complete tie the local record stays.
pub resolve_scalar_conflict-converges :
    (a b : SyncRecord)
    → ((resolve_scalar_conflict a b ≡ resolve_scalar_conflict b a) ⊎ SameStamp a b)
      × ((resolve_scalar_conflict a b ≡ a) ⊎ (resolve_scalar_conflict a b ≡ b))
      × (SameStamp a b → resolve_scalar_conflict a b ≡ a)
unfolding resolve_scalar_conflict
resolve_scalar_conflict-converges a b = (
  ground (
    arith,
    text_eq_iff a.updated_at b.updated_at,
    text_eq_iff a.device_id b.device_id,
    text_eq_comm a.updated_at b.updated_at,
    text_eq_comm a.device_id b.device_id,
    text_lt-total a.updated_at b.updated_at,
    text_lt-total a.device_id b.device_id,
  ),
  ground arith,
  λ h. ground (arith, text_eq_iff b.updated_at a.updated_at, text_eq_iff b.device_id a.device_id),
)

-- A deletion on either side is never merged silently, and the classification is symmetric.
pub classify_sync_conflict-explicit :
    (a b : SyncRecord)
    → (classify_sync_conflict a b ≡ classify_sync_conflict b a)
      × ((looks_deleted a ≡ true) ⊎ (looks_deleted b ≡ true)
          → classify_sync_conflict a b ≡ explicit)
unfolding classify_sync_conflict
classify_sync_conflict-explicit a b = (ground arith, λ h. ground arith)
