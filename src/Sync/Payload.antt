-- ===== src/Sync/Payload.antt =====
-- The guards on JSON payloads of packages/ai-core/src/sync.ts and of
-- packages/agent-runtime/src/runtime/sync/sync-engine.ts. An object is the list of its own fields.
pub mod Fields
use ai_desktop.Base.{
  ℕ, zero, suc, ◌+◌, Bool, true, false, not, ◌&&◌, ◌||◌, Option, none, some, List, [], ◌∷◌, ◌++◌,
  Text, codes, map, any, take, filter, length, ltb, leb, ◌==◌, if◌then◌else◌, trim, starts_with,
  text_eq, includes,
}
use ai_desktop.Secrets.{lower_unit}

mutual
  pub data JsonValue : Type 0 where
    null : JsonValue
    boolean : Bool → JsonValue
    -- A number by its JSON text.
    number : Text → JsonValue
    string : Text → JsonValue
    array : JsonItems → JsonValue
    object : JsonFields → JsonValue

  pub data JsonItems : Type 0 where
    no_items : JsonItems
    item : JsonValue → JsonItems → JsonItems

  pub data JsonFields : Type 0 where
    no_fields : JsonFields
    field : Text → JsonValue → JsonFields → JsonFields

-- `SECRET_FIELD_PATTERN`: `api[ _-]?key` and `private[ _-]?key` are four of these each.
abbrev secret_words : List Text
secret_words =
    codes "token"
    ∷ codes "secret"
    ∷ codes "password"
    ∷ codes "credential"
    ∷ codes "apikey"
    ∷ codes "api key"
    ∷ codes "api_key"
    ∷ codes "api-key"
    ∷ codes "cookie"
    ∷ codes "privatekey"
    ∷ codes "private key"
    ∷ codes "private_key"
    ∷ codes "private-key"
    ∷ codes "ssh"
    ∷ codes "bearer"
    ∷ codes "oauth"
    ∷ codes "refresh"
    ∷ []

-- A word of the list starts somewhere in the text.
has_word : Text → Bool
has_word [] = false
has_word (c ∷ s) = any (λ w. starts_with (c ∷ s) w) secret_words || has_word s

unfoldable pub is_probably_secret_field : Text → Bool
unfolding has_word
is_probably_secret_field key = has_word (map lower_unit key)

abbrev is_letter : ℕ → Bool
is_letter c = (leb 65 c && leb c 90) || (leb 97 c && leb c 122)

-- `/^[A-Za-z]:/`.
abbrev has_drive : Text → Bool
has_drive (c ∷ d ∷ s) = is_letter c && (d == b':')
has_drive _ = false

unfoldable pub is_path_looking_value : Text → Bool
is_path_looking_value s = any (λ c. (c == b'/') || (c == 92)) s || has_drive (trim s)

unfoldable mutual
  -- A key somewhere in the payload is secret-shaped.
  pub payload_has_secret_keys : JsonValue → Bool
  payload_has_secret_keys (array xs) = any_item_has_secret_keys xs
  payload_has_secret_keys (object fs) = any_field_has_secret_keys fs
  payload_has_secret_keys _ = false

  pub any_item_has_secret_keys : JsonItems → Bool
  any_item_has_secret_keys no_items = false
  any_item_has_secret_keys (item v xs) = payload_has_secret_keys v || any_item_has_secret_keys xs

  pub any_field_has_secret_keys : JsonFields → Bool
  any_field_has_secret_keys no_fields = false
  any_field_has_secret_keys (field k v fs) =
      is_probably_secret_field k || payload_has_secret_keys v || any_field_has_secret_keys fs

unfoldable mutual
  -- A string somewhere in the payload looks like a path.
  pub payload_has_paths : JsonValue → Bool
  payload_has_paths (string s) = is_path_looking_value s
  payload_has_paths (array xs) = any_item_has_paths xs
  payload_has_paths (object fs) = any_field_has_paths fs
  payload_has_paths _ = false

  pub any_item_has_paths : JsonItems → Bool
  any_item_has_paths no_items = false
  any_item_has_paths (item v xs) = payload_has_paths v || any_item_has_paths xs

  pub any_field_has_paths : JsonFields → Bool
  any_field_has_paths no_fields = false
  any_field_has_paths (field k v fs) = payload_has_paths v || any_field_has_paths fs

-- The size in UTF-8 of a text without lone surrogates, such as a JSON text: the two units of a pair count 4.
unfoldable pub utf8_length : Text → ℕ
utf8_length [] = 0
utf8_length (c ∷ s) =
    (if ltb c 128
      then 1
      else (if ltb c 2048 then 2 else (if leb 55296 c && leb c 57343 then 2 else 3)))
    + utf8_length s

unfoldable pub get_field : Text → JsonFields → Option JsonValue
get_field k no_fields = none
get_field k (field j v fs) = let rest = get_field k fs in if text_eq j k then some v else rest

unfoldable pub keys_of : JsonFields → List Text
keys_of no_fields = []
keys_of (field k v fs) = k ∷ keys_of fs

unfoldable pub without_field : Text → JsonFields → JsonFields
without_field k no_fields = no_fields
without_field k (field j v fs) =
    let rest = without_field k fs in if text_eq j k then rest else field j v rest

-- A key that is there keeps its place.
unfoldable pub set_field : Text → JsonValue → JsonFields → JsonFields
set_field k w no_fields = field k w no_fields
set_field k w (field j v fs) =
    let rest = set_field k w fs in if text_eq j k then field j w fs else field j v rest

module _ (stringify : JsonValue → Text) where
  abbrev same_text : Option JsonValue → Option JsonValue → Bool
  same_text (some v) (some w) = text_eq (stringify v) (stringify w)
  same_text _ _ = false

  -- The keys of both, those of the local payload first.
  abbrev both_keys : JsonFields → JsonFields → List Text
  both_keys fs gs = keys_of fs ++ filter (λ k. not (includes (keys_of fs) k)) (keys_of gs)

  unfoldable pub diff_sync_payload_fields : JsonValue → JsonValue → ℕ → List Text
  diff_sync_payload_fields (object fs) (object gs) max =
      take max (filter (λ k. not (same_text (get_field k fs) (get_field k gs))) (both_keys fs gs))
  diff_sync_payload_fields v w max =
      if text_eq (stringify v) (stringify w) then [] else codes "value" ∷ []
