-- ===== src/Sync/Tests.antt =====
-- The theorems on the sync contract and the outbox at concrete envelopes.
mod Engine
use ai_desktop.Base.{
  ℕ, ◌+◌, ◌≡◌, ◌≢◌, refl, ◌⊎◌, Option, none, some, [], ◌∷◌, ◌++◌, Text, codes, arith, length,
}
use ai_desktop.Base.Dict
use ai_desktop.Sync.Conflict.{SyncRecord, resolve_scalar_conflict}
use ai_desktop.Sync.Conflict.Convergence.{SameStamp, resolve_scalar_conflict-converges}
use ai_desktop.Sync.Queue.{SyncQueue, enqueue, drain, peek, restore, min_size, sync_queue_key}
use ai_desktop.Sync.Queue.Bounds.{Inv, Accounts, enqueue-Inv}
use ai_desktop.Sync.Queue.Order.{kept, drain-fifo}
use ai_desktop.Sync.Queue.Restore.{restore-Inv}

abbrev note : Text → ℕ → SyncRecord
note device version = record {
  record_id = codes "r1";
  entity_type = codes "settings";
  entity_id = codes "theme";
  account_id = codes "acc";
  device_id = device;
  version = version;
  updated_at = codes "2026-01-01T00:00:00.000Z";
  deleted_at = none;
  payload = some (codes "{}");
}

abbrev mine : SyncRecord
mine = note (codes "a") 1

abbrev theirs : SyncRecord
theirs = note (codes "b") 1

abbrev newer_note : SyncRecord
newer_note = note (codes "a") 2

abbrev deleted_note : SyncRecord
deleted_note = record mine { deleted_at = some (codes "2026-01-02T00:00:00.000Z"); payload = none }

abbrev one_item : SyncQueue
one_item = record { items = (codes "settings::theme", mine) ∷ []; evictions = 3 }

one_item-Inv : Inv one_item
unfolding sync_queue_key Dict.has
one_item-Inv = record { is_map = (refl, tt); keyed = (refl, tt); bounded = omega arith }

resolve_scalar_conflict-converges_example :
    ((resolve_scalar_conflict mine theirs ≡ resolve_scalar_conflict theirs mine)
      ⊎ SameStamp mine theirs)
    × ((resolve_scalar_conflict mine theirs ≡ mine)
        ⊎ (resolve_scalar_conflict mine theirs ≡ theirs))
    × (SameStamp mine theirs → resolve_scalar_conflict mine theirs ≡ mine)
resolve_scalar_conflict-converges_example = resolve_scalar_conflict-converges mine theirs

enqueue-Inv_example :
    Inv (enqueue newer_note one_item).0
    × Accounts one_item (enqueue newer_note one_item).0 (enqueue newer_note one_item).1
enqueue-Inv_example = enqueue-Inv newer_note one_item one_item-Inv

drain-fifo_example :
    let (q', out) = drain 5 one_item in
    (out ++ peek q' ≡ peek one_item) × (length out ≡ min_size 5 (length one_item.items))
drain-fifo_example = drain-fifo 5 one_item

versions_differ : newer_note.version ≢ mine.version
versions_differ = ground arith

devices_differ : mine.device_id ≢ theirs.device_id
devices_differ = ground arith

abbrev parse_note : Option SyncRecord → Option SyncRecord
parse_note o = o

restore-Inv_example :
    let (q, o) = restore parse_note (some (some mine ∷ none ∷ some newer_note ∷ [])) in
    Inv q × (o.accepted + o.rejected ≡ 3)
restore-Inv_example = restore-Inv parse_note (some mine ∷ none ∷ some newer_note ∷ [])
