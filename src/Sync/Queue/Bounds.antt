-- ===== src/Sync/Queue/Bounds.antt =====
-- The outbox holds each entity once, stays within its bound, and accounts for what it drops.
use ai_desktop.Base.{
  ℕ, zero, suc, ◌+◌, ◌≤◌, ◌≡◌, refl, ◌∙◌, inl, inr, Bool, true, false, none, some, List, [], ◌∷◌,
  Text, arith, length, leb, if◌then◌else◌, text_eq_iff, Option-cases, Bool-cases,
}
use ai_desktop.Base.Dict
use ai_desktop.Base.Dict.{IsMap}
use ai_desktop.Sync.Conflict.{SyncRecord}
use ai_desktop.Sync.Queue.{
  SyncQueue, SyncQueueEnqueueAction, SyncQueueEnqueueOutcome, min_size, max_sync_outbox,
  sync_queue_key, compare_sync_queue_order, is_newer, enqueue, evict_oldest, make_room, enqueued,
  deduped_kept_newest, deduped_kept_existing, drain, drain_loop,
}

-- Each envelope stands under the key of its entity.
abbrev pub Keyed : List (Text × SyncRecord) → Type 0
Keyed [] = Unit
Keyed ((k, r) ∷ m) = (k ≡ sync_queue_key r) × Keyed m

pub record Inv (q : SyncQueue) : Type 0 where
  pub is_map : IsMap q.items
  pub keyed : Keyed q.items
  pub bounded : length q.items ≤ max_sync_outbox

set-Keyed :
    (k : Text) (r : SyncRecord) (m : List (Text × SyncRecord))
    → k ≡ sync_queue_key r
    → Keyed m
    → Keyed (Dict.set k r m)
unfolding Dict.set
set-Keyed k r [] e h = (e, tt)
set-Keyed k r ((j, w) ∷ m) e h = ground (arith, text_eq_iff j k, set-Keyed k r m e h.1)

delete-Keyed : (k : Text) (m : List (Text × SyncRecord)) → Keyed m → Keyed (Dict.delete k m)
unfolding Dict.delete
delete-Keyed k [] h = tt
delete-Keyed k ((j, w) ∷ m) h = ground (arith, delete-Keyed k m h.1)

-- Moving an envelope to the back keeps the size.
refresh_size :
    (k : Text) (r : SyncRecord) (m : List (Text × SyncRecord))
    → IsMap m
    → Dict.has k m ≡ true
    → length (Dict.set k r (Dict.delete k m)) ≡ length m
refresh_size k r m h present = ground (
  arith,
  Dict.length-set k r (Dict.delete k m),
  Dict.has-delete k k m,
  Dict.length-delete k m h,
  text_eq_iff k k,
)

has_of_get :
    (k : Text) (m : List (Text × SyncRecord)) {r : SyncRecord}
    → Dict.get k m ≡ some r
    → Dict.has k m ≡ true
has_of_get k m e = ground (arith, Dict.has-get k m)

has_not_of_get :
    (k : Text) (m : List (Text × SyncRecord)) → Dict.get k m ≡ none → Dict.has k m ≡ false
has_not_of_get k m e = ground (arith, Dict.has-get k m)

-- Whether an entity came in that was not there.
abbrev pub is_enqueued : SyncQueueEnqueueAction → Bool
is_enqueued enqueued = true
is_enqueued deduped_kept_newest = false
is_enqueued deduped_kept_existing = false

-- What making room guarantees.
record Room (q q' : SyncQueue) (evicted : Bool) : Type 0 where
  is_map : IsMap q'.items
  keyed : Keyed q'.items
  free : suc (length q'.items) ≤ max_sync_outbox
  conserved : length q'.items + q'.evictions ≡ length q.items + q.evictions
  counted : q'.evictions ≡ (if evicted then q.evictions + 1 else q.evictions)

evict_oldest-Room :
    (q : SyncQueue) (items : List (Text × SyncRecord))
    → q.items ≡ items
    → Inv q
    → max_sync_outbox ≤ length items
    → Room q (evict_oldest q items).0 (evict_oldest q items).1
unfolding evict_oldest
evict_oldest-Room q [] e v h = absurd (omega arith)
evict_oldest-Room q ((k, w) ∷ rest) e v h =
    let gone : suc (length (Dict.delete k q.items)) ≡ length q.items =
      ground (arith, Dict.length-delete k q.items v.is_map, Dict.has_first k w rest) in
    record {
      is_map = Dict.delete-IsMap k q.items v.is_map;
      keyed = delete-Keyed k q.items v.keyed;
      free = omega (arith, v.bounded);
      conserved = omega arith;
      counted = refl;
    }

make_room-Room : (q : SyncQueue) → Inv q → Room q (make_room q).0 (make_room q).1
unfolding make_room
make_room-Room q v = elim (Bool-cases (leb max_sync_outbox (length q.items))) [
  | inl full ↦ rw full (evict_oldest-Room q q.items refl v (ground arith))
  | inr space ↦ rw space (record {
    is_map = v.is_map;
    keyed = v.keyed;
    free = ground arith;
    conserved = refl;
    counted = refl;
  })
]

not_has-evict_oldest :
    (k : Text) (q : SyncQueue) (items : List (Text × SyncRecord))
    → Dict.has k q.items ≡ false
    → Dict.has k (evict_oldest q items).0.items ≡ false
unfolding evict_oldest
not_has-evict_oldest k q [] h = h
not_has-evict_oldest k q ((j, w) ∷ rest) h = ground (arith, Dict.has-delete j k q.items)

-- Making room brings no entity in.
not_has-make_room :
    (k : Text) (q : SyncQueue)
    → Dict.has k q.items ≡ false
    → Dict.has k (make_room q).0.items ≡ false
unfolding make_room
not_has-make_room k q h = ground (arith, not_has-evict_oldest k q q.items h)

-- What `enqueue` reports against what it did.
pub record Accounts (q q' : SyncQueue) (o : SyncQueueEnqueueOutcome) : Type 0 where
  pub size : o.size ≡ length q'.items
  pub conserved : length q'.items + q'.evictions ≡ (
      if is_enqueued o.action
      then suc (length q.items + q.evictions)
      else length q.items + q.evictions)
  pub counted : q'.evictions ≡ (if o.evicted then q.evictions + 1 else q.evictions)

enqueue_new :
    (r : SyncRecord) (q : SyncQueue)
    → Inv q
    → Dict.get (sync_queue_key r) q.items ≡ none
    → Inv (enqueue r q).0 × Accounts q (enqueue r q).0 (enqueue r q).1
unfolding enqueue
enqueue_new r q v e =
    let k = sync_queue_key r in
    let room = make_room-Room q v in
    let q' = (make_room q).0 in
    let size : length (Dict.set k r q'.items) ≡ suc (length q'.items) =
      Dict.length-set k r q'.items ∙ rw (not_has-make_room k q (has_not_of_get k q.items e)) in
    rw (e, enqueue)
      (
        record {
          is_map = Dict.set-IsMap k r q'.items room.is_map;
          keyed = set-Keyed k r q'.items refl room.keyed;
          bounded = rw size room.free;
        },
        record {
          size = refl;
          conserved = omega (arith, size, room.conserved);
          counted = room.counted;
        },
      )

enqueue_again :
    (r existing : SyncRecord) (q : SyncQueue)
    → Inv q
    → Dict.get (sync_queue_key r) q.items ≡ some existing
    → Inv (enqueue r q).0 × Accounts q (enqueue r q).0 (enqueue r q).1
unfolding enqueue
enqueue_again r existing q v e =
    let k = sync_queue_key r in
    let size = refresh_size k r q.items v.is_map (has_of_get k q.items e) in
    elim (Bool-cases (is_newer (compare_sync_queue_order r existing))) [
      | inl new ↦
          rw (e, enqueue, new)
            (
              record {
                is_map = Dict.set-IsMap k r _ (Dict.delete-IsMap k q.items v.is_map);
                keyed = set-Keyed k r _ refl (delete-Keyed k q.items v.keyed);
                bounded = rw size v.bounded;
              },
              record { size = refl; conserved = omega (arith, size); counted = refl },
            )
      | inr old ↦ rw (e, enqueue, old) (v, record { size = refl; conserved = refl; counted = refl })
    ]

-- Enqueueing keeps the outbox well formed (one envelope for an entity, under its key) and within 200
-- envelopes, and drops nothing silently: the reported size is the size, and envelopes held plus
-- envelopes evicted grow by one exactly if the envelope was of a new entity.
pub enqueue-Inv :
    (r : SyncRecord) (q : SyncQueue)
    → Inv q
    → Inv (enqueue r q).0 × Accounts q (enqueue r q).0 (enqueue r q).1
enqueue-Inv r q v = elim (Option-cases (Dict.get (sync_queue_key r) q.items)) [
  | inl e ↦ enqueue_new r q v e
  | inr (existing, e) ↦ enqueue_again r existing q v e
]

drain_loop-Inv :
    (n : ℕ) (items : List (Text × SyncRecord))
    → IsMap items
    → Keyed items
    → IsMap (drain_loop n items).1
      × Keyed (drain_loop n items).1
      × (length (drain_loop n items).1 ≤ length items)
unfolding drain_loop
drain_loop-Inv zero items h k = (h, k, omega arith)
drain_loop-Inv (suc n) [] h k = (tt, tt, omega arith)
drain_loop-Inv (suc n) ((j, r) ∷ items) h k =
    let (a, b, c) = drain_loop-Inv n items h.1 k.1 in (a, b, omega arith)

pub drain-Inv : (limit : ℕ) (q : SyncQueue) → Inv q → Inv (drain limit q).0
unfolding drain
drain-Inv limit q v =
    let (a, b, c) = drain_loop-Inv (min_size limit (length q.items)) q.items v.is_map v.keyed in
    record { is_map = a; keyed = b; bounded = omega (arith, c, v.bounded) }
