-- ===== src/Sync/Transport.antt =====
-- packages/agent-runtime/src/runtime/sync/sync-transport.ts: the records on the wire with their check, and the
-- port. `Date.parse` and `JSON.stringify` are arguments.
pub mod Shape
use ai_desktop.Base.{
  ℕ, Bool, true, false, not, ◌&&◌, ◌||◌, Option, none, some, List, [], ◌∷◌, Text, codes, any,
  length, ltb, leb, ◌==◌, if◌then◌else◌, text_eq, includes,
}
use ai_desktop.Background.Lookup.{is_dangerous}
use ai_desktop.Sync.Payload.{JsonValue, object, utf8_length}

abbrev pub sync_entity_types : List Text
sync_entity_types =
    codes "account.preferences"
    ∷ codes "workspace.preferences"
    ∷ codes "project.metadata"
    ∷ codes "model.profile"
    ∷ codes "schedule.definition"
    ∷ codes "extension.metadata"
    ∷ codes "app.settings"
    ∷ []

unfoldable pub is_sync_entity_type : Text → Bool
is_sync_entity_type t = includes sync_entity_types t

abbrev pub sync_max_payload_bytes : ℕ
sync_max_payload_bytes = 65536

-- A record on the wire with fields of the right types.
pub record WireSyncRecord : Type 0 where
  pub account_id : Text
  pub project_id : Option Text
  pub entity_type : Text
  pub entity_id : Text
  pub version : ℕ
  pub updated_at : Text
  pub device_id : Text
  pub deleted : Option Bool
  pub payload : JsonValue

unfoldable pub is_safe_id : Text → Bool
is_safe_id id = not (
    length id == 0
    || ltb 256 (length id)
    || is_dangerous id
    || any (λ c. c == 0 || c == 10 || c == 13) id)

abbrev is_safe_project_id : Option Text → Bool
is_safe_project_id none = true
is_safe_project_id (some id) = is_safe_id id

abbrev is_given : Option Text → Bool
is_given none = false
is_given (some id) = true

abbrev is_finite : Option ℕ → Bool
is_finite none = false
is_finite (some t) = true

abbrev is_plain_object : JsonValue → Bool
is_plain_object (object fs) = true
is_plain_object _ = false

-- The metadata of a project names its project.
unfoldable pub lacks_project : Text → Option Text → Bool
lacks_project entity_type project_id =
    text_eq entity_type (codes "project.metadata") && not (is_given project_id)

-- An object, and not too large.
unfoldable pub is_valid_payload : (JsonValue → Text) → JsonValue → Bool
is_valid_payload stringify payload =
    is_plain_object payload && not (ltb sync_max_payload_bytes (utf8_length (stringify payload)))

unfoldable pub is_valid_shape : (Text → Option ℕ) → (JsonValue → Text) → WireSyncRecord → Bool
is_valid_shape date_parse stringify r =
    is_safe_id r.account_id
    && is_sync_entity_type r.entity_type
    && is_safe_id r.entity_id
    && is_safe_project_id r.project_id
    && not (lacks_project r.entity_type r.project_id)
    && leb 1 r.version
    && not (ltb 256 (length r.updated_at))
    && is_finite (date_parse r.updated_at)
    && is_safe_id r.device_id
    && is_valid_payload stringify r.payload

unfoldable pub validate_sync_record_shape :
    (Text → Option ℕ) → (JsonValue → Text) → WireSyncRecord → Option WireSyncRecord
validate_sync_record_shape date_parse stringify r =
    if is_valid_shape date_parse stringify r then some r else none

-- A failed call: an error of the transport, or any other throw.
pub data TransportFailure : Type 0 where
  offline auth_expired server_error thrown : TransportFailure

pub data TransportResult {ℓ} (A : Type ℓ) : Type ℓ where
  done : A → TransportResult A
  failed : TransportFailure → TransportResult A

pub record SyncPullOutcome : Type 0 where
  -- `none` is a value that is not a record of the right types.
  pub records : List (Option WireSyncRecord)
  pub cursor : Text

-- `T` is the state of the other side.
pub record SyncTransport (T : Type 0) : Type 0 where
  pub push : Text → List WireSyncRecord → T → T × TransportResult Text
  pub pull : Text → Text → ℕ → T → T × TransportResult SyncPullOutcome

abbrev pub sync_pull_limit_default : ℕ
sync_pull_limit_default = 200
