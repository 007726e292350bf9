-- ===== src/Sync/Transport/Shape.antt =====
-- sync-transport.ts: what the check of a wire record says of it.
use ai_desktop.Base.{
  ℕ, ◌≡◌, refl, Bool, true, false, ◌&&◌, Option, some, Text, inl, inr, arith, Bool-cases,
}
use ai_desktop.Sync.Payload.{JsonValue}
use ai_desktop.Sync.Transport.{
  WireSyncRecord, is_sync_entity_type, lacks_project, is_valid_payload, is_valid_shape,
  validate_sync_record_shape,
}
use ai_desktop.Sync.Engine.{}

-- What the check of the shape says of a record.
pub record IsValidShape (stringify : JsonValue → Text) (w : WireSyncRecord) : Type 0 where
  pub entity : is_sync_entity_type w.entity_type ≡ true
  pub project : lacks_project w.entity_type w.project_id ≡ false
  pub payload : is_valid_payload stringify w.payload ≡ true

and_parts : (a b : Bool) → (a && b) ≡ true → (a ≡ true) × (b ≡ true)
and_parts true b h = (refl, h)
and_parts false b h = cc

is_valid_shape-IsValidShape :
    (date_parse : Text → Option ℕ) (stringify : JsonValue → Text) (w : WireSyncRecord)
    → is_valid_shape date_parse stringify w ≡ true
    → IsValidShape stringify w
unfolding is_valid_shape
is_valid_shape-IsValidShape date_parse stringify w e =
    elim (Bool-cases (is_sync_entity_type w.entity_type)) [
      | inr other ↦ absurd (ground arith)
      | inl entity ↦ elim (Bool-cases (lacks_project w.entity_type w.project_id)) [
        | inl lacks ↦ absurd (ground arith)
        | inr project ↦ elim (Bool-cases (is_valid_payload stringify w.payload)) [
          | inr bad ↦ absurd (ground arith)
          | inl payload ↦ record { entity = entity; project = project; payload = payload }
        ]
      ]
    ]

-- The check passes the record as it is.
pub validate_sync_record_shape-IsValidShape :
    (date_parse : Text → Option ℕ) (stringify : JsonValue → Text) (w v : WireSyncRecord)
    → validate_sync_record_shape date_parse stringify w ≡ some v
    → (w ≡ v) × IsValidShape stringify w
unfolding validate_sync_record_shape
validate_sync_record_shape-IsValidShape date_parse stringify w v e =
    elim (Bool-cases (is_valid_shape date_parse stringify w)) [
      | inl valid ↦ (ground arith, is_valid_shape-IsValidShape date_parse stringify w valid)
      | inr bad ↦ absurd (ground arith)
    ]
