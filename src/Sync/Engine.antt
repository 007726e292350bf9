-- ===== src/Sync/Engine.antt =====
-- packages/agent-runtime/src/runtime/sync/sync-engine.ts: the state of `SyncEngine` and its gates. A payload is
-- its JSON text, as in Conflict; the platform's functions, the fresh ids, the store and the transport are
-- arguments. A tick reads the clock once here.
pub mod Gates
pub mod Inbound
use ai_desktop.Base.{
  ℕ, zero, suc, ◌+◌, ◌-◌, ◌*◌, Bool, true, false, not, ◌&&◌, ◌||◌, Option, none, some, List, [],
  ◌∷◌, ◌++◌, Text, codes, length, take, leb, ltb, ◌==◌, if◌then◌else◌, text_eq, opt_eq,
}
use ai_desktop.Base.Dict
use ai_desktop.Schemas.{fit, optional, ◌>>=◌, ulid_string, timestamp_string}
use ai_desktop.Secrets.{has_secrets, json_has_secrets}
use ai_desktop.Sync.Conflict.{SyncRecord, is_sync_tombstone}
use ai_desktop.Sync.Payload.{
  JsonValue, JsonFields, null, boolean, object, no_fields, payload_has_secret_keys,
  payload_has_paths, utf8_length, without_field, set_field,
}
use ai_desktop.Sync.Transport.{
  WireSyncRecord, is_sync_entity_type, sync_max_payload_bytes, validate_sync_record_shape,
}

pub record SyncPlatform : Type 0 where
  pub date_parse : Text → Option ℕ
  pub to_iso : ℕ → Text
  pub parse_json : Text → JsonValue
  pub stringify : JsonValue → Text
  pub fresh_id : ℕ → Text

abbrev pub max_sync_retries : ℕ
max_sync_retries = 3

abbrev pub max_tombstones : ℕ
max_tombstones = 500

abbrev pub retention_ms : ℕ
retention_ms = 30 * 86400000

-- The JSON text of a payload.
abbrev pub json_text : Option Text → Text
json_text none = codes "null"
json_text (some t) = t

abbrev same_option : Bool → Bool → Bool
same_option a b = if a then b else not b

abbrev given : Option Text → Bool
given none = false
given (some t) = true

-- `superRefine` of the schema, and the fields that are no texts.
unfoldable pub is_sync_record : SyncRecord → Bool
is_sync_record r =
    is_sync_entity_type r.entity_type
    && leb 1 r.version
    && same_option (given r.deleted_at) (not (given r.payload))
    && not (ltb sync_max_payload_bytes (utf8_length (json_text r.payload)))
    && not (json_has_secrets (json_text r.payload))
    && not (has_secrets r.entity_id)

unfoldable pub refined : SyncRecord → Option SyncRecord
refined r = if is_sync_record r then some r else none

-- `SyncRecordSchema.safeParse`.
unfoldable pub parse_sync_record : SyncRecord → Option SyncRecord
parse_sync_record r = do
  record_id ← ulid_string r.record_id
  entity_id ← fit 256 r.entity_id
  account_id ← ulid_string r.account_id
  device_id ← ulid_string r.device_id
  updated_at ← timestamp_string r.updated_at
  deleted_at ← optional timestamp_string r.deleted_at
  refined (record r {
    record_id = record_id;
    entity_id = entity_id;
    account_id = account_id;
    device_id = device_id;
    updated_at = updated_at;
    deleted_at = deleted_at;
  })

abbrev pub merge_key : SyncRecord → Text
merge_key r = r.entity_type ++ (codes "::" ++ r.entity_id)

module _ (p : SyncPlatform) where
  abbrev pub payload_json : Option Text → JsonValue
  payload_json none = null
  payload_json (some t) = p.parse_json t

  abbrev pub same_envelope : SyncRecord → SyncRecord → Bool
  same_envelope a b =
      (a.version == b.version)
      && text_eq a.updated_at b.updated_at
      && text_eq a.device_id b.device_id
      && opt_eq a.payload b.payload

  abbrev pub wire_payload : SyncRecord → JsonValue
  wire_payload r = if is_sync_tombstone r then object no_fields else payload_json r.payload

  unfoldable pub wire_of : SyncRecord → WireSyncRecord
  wire_of r = record {
    account_id = r.account_id;
    project_id = none;
    entity_type = r.entity_type;
    entity_id = r.entity_id;
    version = r.version;
    updated_at = r.updated_at;
    device_id = r.device_id;
    deleted = if is_sync_tombstone r then some true else none;
    payload = wire_payload r;
  }

  -- `none` is a throw; a payload that is no object is refused by the check of the shape too.
  unfoldable pub canonical_to_wire : SyncRecord → Option WireSyncRecord
  canonical_to_wire r = validate_sync_record_shape p.date_parse p.stringify (wire_of r)

  -- Secret-shaped keys, and paths in the metadata of a project.
  unfoldable pub is_barred : Text → JsonValue → Bool
  is_barred entity_type payload =
      payload_has_secret_keys payload
      || (text_eq entity_type (codes "project.metadata") && payload_has_paths payload)

  unfoldable pub gated : SyncRecord → Option WireSyncRecord
  gated r =
      if ltb sync_max_payload_bytes (utf8_length (json_text r.payload))
        || is_barred r.entity_type (payload_json r.payload)
      then none
      else canonical_to_wire r

  unfoldable pub refuse_outbound : SyncRecord → Option WireSyncRecord
  refuse_outbound candidate = do r ← parse_sync_record candidate; gated r

  abbrev pub is_deleted : Option Bool → Bool
  is_deleted none = false
  is_deleted (some b) = b

  -- The canonical record of a record on the wire, with a fresh id.
  unfoldable pub wire_to_canonical_fields : ℕ → WireSyncRecord → SyncRecord
  wire_to_canonical_fields n w = record {
    record_id = p.fresh_id n;
    entity_type = w.entity_type;
    entity_id = w.entity_id;
    account_id = w.account_id;
    device_id = w.device_id;
    version = w.version;
    updated_at = w.updated_at;
    deleted_at = if is_deleted w.deleted then some w.updated_at else none;
    payload = if is_deleted w.deleted then none else some (p.stringify w.payload);
  }

  -- A schedule that comes in is off and has no runs.
  unfoldable pub inert_payload : JsonValue → JsonValue
  inert_payload (object fs) = object (
      set_field (codes "enabled") (boolean false)
        (without_field (codes "executions") (without_field (codes "runs") fs)))
  inert_payload v = v

  unfoldable pub sanitize_inbound_schedule : SyncRecord → JsonValue → SyncRecord
  sanitize_inbound_schedule r payload =
      if text_eq r.entity_type (codes "schedule.definition")
      then record r {
        payload = elim r.payload [
          | none ↦ none
          | some t ↦ some (p.stringify (inert_payload payload))
        ];
      }
      else r

  unfoldable pub admitted : SyncRecord → JsonValue → Option SyncRecord
  admitted r payload =
      if is_barred r.entity_type payload then none else some (sanitize_inbound_schedule r payload)

  -- What is applied keeps the payload of the wire, so the guards read that value.
  unfoldable pub validate_inbound : ℕ → Option WireSyncRecord → Option SyncRecord
  validate_inbound n none = none
  validate_inbound n (some candidate) = do
    w ← validate_sync_record_shape p.date_parse p.stringify candidate
    r ← parse_sync_record (wire_to_canonical_fields n w)
    admitted r (elim r.payload [ none ↦ null | some t ↦ w.payload ])
