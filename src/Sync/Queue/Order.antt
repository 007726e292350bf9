-- ===== src/Sync/Queue/Order.antt =====
-- Which envelope the outbox keeps, and in which order envelopes leave.
use ai_desktop.Base.{
  ℕ, zero, suc, ◌≤◌, ◌≡◌, ◌≢◌, refl, ap, ◌⊎◌, inl, inr, Option, none, some, List, [], ◌∷◌, ◌++◌,
  Text, arith, length, if◌then◌else◌, text_eq_iff, text_lt-total, Option-cases, Bool-cases,
}
use ai_desktop.Base.Dict
use ai_desktop.Sync.Conflict.{SyncRecord, resolve_scalar_conflict}
use ai_desktop.Sync.Queue.{
  SyncQueue, sync_queue_key, compare_sync_queue_order, is_newer, enqueue, make_room, drain,
  drain_loop, peek, min_size,
}

-- The envelope that stands for an entity after one more was offered.
abbrev pub kept : Option SyncRecord → SyncRecord → SyncRecord
kept none r = r
kept (some existing) r = if is_newer (compare_sync_queue_order r existing) then r else existing

-- After an enqueue the entity is in the queue, with the offered envelope unless the one that was
-- queued is as new or newer.
get-enqueue :
    (r : SyncRecord) (q : SyncQueue)
    → Dict.get (sync_queue_key r) (enqueue r q).0.items
      ≡ some (kept (Dict.get (sync_queue_key r) q.items) r)
unfolding enqueue
get-enqueue r q = elim (Option-cases (Dict.get (sync_queue_key r) q.items)) [
  | inl e ↦ rw (e, enqueue) (Dict.get-set_self (sync_queue_key r) r (make_room q).0.items)
  | inr (existing, e) ↦ elim (Bool-cases (is_newer (compare_sync_queue_order r existing))) [
    | inl new ↦
        rw (e, enqueue, new)
          (Dict.get-set_self (sync_queue_key r) r (Dict.delete (sync_queue_key r) q.items))
    | inr old ↦ rw (e, enqueue, old) e
  ]
]

drain_loop_lem :
    (n : ℕ) (items : List (Text × SyncRecord))
    → n ≤ length items
    → ((drain_loop n items).0 ++ Dict.values (drain_loop n items).1 ≡ Dict.values items)
      × (length (drain_loop n items).0 ≡ n)
unfolding drain_loop
drain_loop_lem zero items h = (refl, refl)
drain_loop_lem (suc n) [] h = absurd (omega arith)
drain_loop_lem (suc n) ((k, r) ∷ items) h =
    let (a, b) = drain_loop_lem n items (omega arith) in (ap (◌∷◌ r) a, ap suc b)

-- Draining takes the oldest envelopes, as many as the limit and the size allow, and leaves the rest
-- in order: what leaves followed by what stays is what was there.
pub drain-fifo :
    (limit : ℕ) (q : SyncQueue)
    → let (q', out) = drain limit q in
      (out ++ peek q' ≡ peek q) × (length out ≡ min_size limit (length q.items))
unfolding drain peek
drain-fifo limit q = drain_loop_lem (min_size limit (length q.items)) q.items (ground arith)

-- Where version or time differ, the newer envelope of the queue order is the winner of the conflict
-- rule.
pub compare_sync_queue_order-agrees :
    (a b : SyncRecord)
    → (a.version ≢ b.version) ⊎ (a.updated_at ≢ b.updated_at)
    → resolve_scalar_conflict b a ≡ (if is_newer (compare_sync_queue_order a b) then a else b)
unfolding compare_sync_queue_order resolve_scalar_conflict
compare_sync_queue_order-agrees a b h = ground (
  arith,
  text_eq_iff a.updated_at b.updated_at,
  text_eq_iff a.device_id b.device_id,
  text_lt-total a.updated_at b.updated_at,
  text_lt-total a.device_id b.device_id,
)

-- Where only the devices differ the two rules are opposite: the queue order takes the larger
-- device id for newer and the conflict rule keeps the smaller.
pub compare_sync_queue_order-device :
    (a b : SyncRecord)
    → a.version ≡ b.version
    → a.updated_at ≡ b.updated_at
    → a.device_id ≢ b.device_id
    → resolve_scalar_conflict b a ≡ (if is_newer (compare_sync_queue_order a b) then b else a)
unfolding compare_sync_queue_order resolve_scalar_conflict
compare_sync_queue_order-device a b v u d = ground (
  arith,
  text_eq_iff a.updated_at b.updated_at,
  text_eq_iff a.device_id b.device_id,
  text_lt-total a.updated_at b.updated_at,
  text_lt-total a.device_id b.device_id,
)
