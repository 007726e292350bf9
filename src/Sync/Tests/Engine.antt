-- ===== src/Sync/Tests/Engine.antt =====
-- The theorems on sync-engine.ts at a store that lists what is applied and a side that lists what is pushed.
use ai_desktop.Base.{
  ℕ, zero, suc, ◌≤◌, ◌≡◌, refl, subst, none, some, List, [], ◌∷◌, ◌++◌, Text, codes, ◌⊎◌, text_eq,
  trim, includes, starts_with,
}
use ai_desktop.Base.Dict
use ai_desktop.Sync.Conflict.{SyncRecord, is_sync_tombstone}
use ai_desktop.Sync.Payload.{
  JsonValue, JsonFields, object, no_fields, field, number, string, boolean,
}
use ai_desktop.Sync.Transport.{
  WireSyncRecord, TransportFailure, server_error, TransportResult, done, failed, SyncPullOutcome,
  SyncTransport,
}
use ai_desktop.Sync.Engine.{SyncPlatform, refuse_outbound, wire_of, merge_key}
use ai_desktop.Sync.Engine.Gates.{Sendable, refuse_outbound-Sendable}
use ai_desktop.Sync.Engine.Inbound.{Appliable}
use ai_desktop.Sync.Merge.{
  track_tombstone, SyncConflict, SyncEngineLocalStore, SyncState, SyncEngine, MergeOutcome, applied,
  skipped, merge_remote,
}
use ai_desktop.Sync.Merge.Ledger.{IsLedger, track_tombstone-IsLedger}
use ai_desktop.Sync.Merge.Newest.{merge_remote-newest, merge_remote-again}
use ai_desktop.Sync.Tick.{tick_once}
use ai_desktop.Sync.Tick.Kept.{StoreKept, SideKept, EverySendable, Kept}
use ai_desktop.Sync.Tick.Guarded.{tick_once-Kept}
use ai_desktop.Sync.Tick.Retries.{Stops, with_retry-Stops}

abbrev some_ulid : Text
some_ulid = codes "01ARZ3NDEKTSV4RRFFQ69G5FAV"

-- One payload in the world, and its text.
abbrev dark : JsonValue
dark = object (field (codes "theme") (string (codes "dark")) no_fields)

abbrev dark_text : Text
dark_text = codes "{\"theme\":\"dark\"}"

abbrev plain_platform : SyncPlatform
plain_platform = record {
  date_parse = λ s. some 0;
  to_iso = λ t. codes "2026-01-01T12:00:00.000Z";
  parse_json = λ s. dark;
  stringify = λ v. dark_text;
  fresh_id = λ n. some_ulid;
}

abbrev settings : ℕ → SyncRecord
settings version = record {
  record_id = some_ulid;
  entity_type = codes "app.settings";
  entity_id = codes "main";
  account_id = some_ulid;
  device_id = some_ulid;
  version = version;
  updated_at = codes "2026-01-01T12:00:00.000Z";
  deleted_at = none;
  payload = some dark_text;
}

-- The state is the list of the records applied; one record is dirty.
abbrev listing_store : SyncEngineLocalStore (List SyncRecord)
listing_store = record {
  load_dirty = λ n s. some (settings 1 ∷ []);
  mark_clean = λ rs s. some s;
  apply_remote = λ r s. some (r ∷ s);
  get_cursor = λ s. some [];
  set_cursor = λ c s. some s;
  list_conflicts = λ s. some [];
  save_conflict = λ c s. some s;
}

-- The state is the list of the records pushed.
abbrev listing_side : SyncTransport (List WireSyncRecord)
listing_side = record {
  push = λ account rs t. (rs ++ t, done []);
  pull = λ account cursor limit t. (t, done (record { records = []; cursor = [] }));
}

abbrev fresh_engine : List (Text × SyncRecord) → SyncEngine (List SyncRecord) (List WireSyncRecord)
fresh_engine known = record {
  store = [];
  transport = [];
  known = known;
  tombstone_seen = [];
  status = record {
    state = SyncState.idle;
    last_synced_at = none;
    pending_changes = 0;
    last_error = none;
    conflict_count = 0;
  };
  minted = 0;
}

abbrev AllAppliable : List SyncRecord → Type 0
AllAppliable [] = Unit
AllAppliable (r ∷ rs) = Appliable plain_platform r × AllAppliable rs

abbrev AllSendable : List WireSyncRecord → Type 0
AllSendable = EverySendable plain_platform

join_sendable :
    (ws ts : List WireSyncRecord) → AllSendable ws → AllSendable ts → AllSendable (ws ++ ts)
join_sendable [] ts h k = k
join_sendable (w ∷ ws) ts (h, hs) k = (h, join_sendable ws ts hs k)

-- A write that gives the state as it is, and one that puts a fit record in front.
same_listing : (s s' : List SyncRecord) → some s ≡ some s' → AllAppliable s → AllAppliable s'
same_listing s s' e j = subst AllAppliable (cc) j

listing_StoreKept : StoreKept plain_platform listing_store AllAppliable
listing_StoreKept = record {
  clean = λ rs s s' e j. same_listing s s' e j;
  apply = λ r s s' good e j. same_listing (r ∷ s) s' e (good, j);
  cursor = λ c s s' e j. same_listing s s' e j;
  conflict = λ c s s' e j. same_listing s s' e j;
}

listing_SideKept : SideKept plain_platform listing_side some_ulid AllSendable
listing_SideKept = record {
  push = λ ws t good i. join_sendable ws t good i;
  pull = λ c limit t i. i;
}

nothing_yet : Kept AllAppliable AllSendable (fresh_engine [])
nothing_yet = record { stored = tt; sided = tt }

tick_once-Kept_example :
    Kept AllAppliable AllSendable
      (tick_once plain_platform listing_store listing_side some_ulid 5 (fresh_engine [])).0
tick_once-Kept_example =
    tick_once-Kept plain_platform listing_store listing_side some_ulid AllAppliable AllSendable
      listing_StoreKept listing_SideKept 5 (fresh_engine []) nothing_yet

-- The record that the gate lets through.
abbrev sent : WireSyncRecord
sent = wire_of plain_platform (settings 1)

sent_through : refuse_outbound plain_platform (settings 1) ≡ some sent
unfolding refuse_outbound ai_desktop.Sync.Engine.parse_sync_record ai_desktop.Schemas.ulid_string
    ai_desktop.Ids.parse_id ai_desktop.Ids.is_ulid ai_desktop.Ids.in_class ai_desktop.Ids.upper_unit
    ai_desktop.Ids.to_upper ai_desktop.Ids.index_of ai_desktop.Ids.index_in trim
    ai_desktop.Schemas.fit ai_desktop.Schemas.timestamp_string ai_desktop.Schemas.optional
    ai_desktop.Sync.Engine.refined ai_desktop.Sync.Engine.is_sync_record
    ai_desktop.Sync.Transport.is_sync_entity_type includes text_eq
    ai_desktop.Sync.Payload.utf8_length ai_desktop.Secrets.json_has_secrets
    ai_desktop.Secrets.has_secrets ai_desktop.Sync.Engine.gated ai_desktop.Sync.Engine.is_barred
    ai_desktop.Sync.Payload.payload_has_secret_keys ai_desktop.Sync.Payload.is_probably_secret_field
    ai_desktop.Sync.Engine.canonical_to_wire ai_desktop.Background.Lookup.is_dangerous starts_with
    is_sync_tombstone wire_of ai_desktop.Sync.Payload.is_path_looking_value
    ai_desktop.Sync.Payload.payload_has_paths ai_desktop.Sync.Transport.is_safe_id
    ai_desktop.Sync.Transport.is_valid_payload ai_desktop.Sync.Transport.is_valid_shape
    ai_desktop.Sync.Transport.lacks_project ai_desktop.Sync.Transport.validate_sync_record_shape
sent_through = refl

refuse_outbound-Sendable_example :
    (sent.entity_type ≡ (settings 1).entity_type) × Sendable plain_platform.stringify sent
refuse_outbound-Sendable_example =
    refuse_outbound-Sendable plain_platform (settings 1) sent sent_through

-- The engine knows the first version, and the second comes in.
abbrev knowing : SyncEngine (List SyncRecord) (List WireSyncRecord)
knowing = fresh_engine ((merge_key (settings 1), settings 1) ∷ [])

applies_newer :
    (merge_remote plain_platform listing_store 5 [] (settings 2) knowing).1 ≡ some applied
unfolding merge_remote Dict.get text_eq ai_desktop.Sync.Merge.merge_known
    ai_desktop.Sync.Merge.apply
applies_newer = refl

merge_remote-newest_example :
    (k : SyncRecord) × (Dict.get
        (merge_key (settings 2))
        (merge_remote plain_platform listing_store 5 [] (settings 2) knowing).0.known
      ≡ some k)
    × ((k ≡ settings 1) ⊎ (k ≡ settings 2))
    × (1 ≤ k.version)
    × (2 ≤ k.version)
unfolding Dict.get text_eq
merge_remote-newest_example =
    merge_remote-newest plain_platform listing_store 5 (settings 2) [] (settings 1) applied knowing
      refl applies_newer

merge_remote-again_example :
    merge_remote plain_platform listing_store 9 []
      (settings 2)
      (merge_remote plain_platform listing_store 5 [] (settings 2) knowing).0
    ≡ ((merge_remote plain_platform listing_store 5 [] (settings 2) knowing).0, some skipped)
merge_remote-again_example =
    merge_remote-again plain_platform listing_store 5 9 (settings 2) [] [] knowing applies_newer

-- The third try is answered.
abbrev third_time : ℕ → ℕ × TransportResult Text
third_time zero = (1, failed server_error)
third_time (suc zero) = (2, failed server_error)
third_time n = (n, done [])

with_retry-Stops_example : Stops third_time 3 0
with_retry-Stops_example = with_retry-Stops third_time 3 0

abbrev deleted_settings : SyncRecord
deleted_settings = record (settings 3) {
  deleted_at = some (codes "2026-01-01T12:00:00.000Z");
  payload = none;
}

-- One entity in the ledger.
abbrev one_seen : List (Text × ℕ)
one_seen = (codes "app.settings::other", 3) ∷ []

one_seen-IsMap : Dict.IsMap one_seen
unfolding Dict.has
one_seen-IsMap = (refl, tt)

track_tombstone-IsLedger_example : IsLedger 5 (
    track_tombstone plain_platform.date_parse 5
      (merge_key deleted_settings)
      deleted_settings
      one_seen)
track_tombstone-IsLedger_example =
    track_tombstone-IsLedger plain_platform.date_parse 5 (merge_key deleted_settings)
      deleted_settings one_seen one_seen-IsMap
