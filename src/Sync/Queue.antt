-- ===== src/Sync/Queue.antt =====
-- packages/agent-runtime/src/runtime/sync/sync-queue.ts: the bounded outbox. Envelopes are values,
-- so the clones of the source are the records themselves. `JSON.parse` of a snapshot and the schema of
-- one envelope are arguments of `restore`.
pub mod Bounds
pub mod Order
pub mod Restore
use ai_desktop.Base.{
  ℕ, zero, suc, ◌+◌, ◌-◌, Bool, true, false, not, Option, none, some, List, [], ◌∷◌, ◌++◌, Text,
  codes, length, ltb, leb, ◌==◌, if◌then◌else◌, text_eq, text_lt,
}
use ai_desktop.Base.Dict
use ai_desktop.Sync.Conflict.{SyncRecord}

abbrev pub max_sync_outbox : ℕ
max_sync_outbox = 200

unfoldable pub sync_queue_key : SyncRecord → Text
sync_queue_key r = r.entity_type ++ (codes "::" ++ r.entity_id)

-- The results 1, -1 and 0 of the comparison.
pub data QueueOrder : Type 0 where
  newer older tied : QueueOrder

unfoldable pub compare_sync_queue_order : SyncRecord → SyncRecord → QueueOrder
compare_sync_queue_order a b =
    if not (a.version == b.version)
    then (if ltb b.version a.version then newer else older)
    else (if not (text_eq a.updated_at b.updated_at)
        then (if text_lt b.updated_at a.updated_at then newer else older)
        else (if not (text_eq a.device_id b.device_id)
            then (if text_lt b.device_id a.device_id then newer else older)
            else tied))

abbrev pub is_newer : QueueOrder → Bool
is_newer newer = true
is_newer older = false
is_newer tied = false

pub record SyncQueue : Type 0 where
  pub items : List (Text × SyncRecord)
  pub evictions : ℕ

pub data SyncQueueEnqueueAction : Type 0 where
  enqueued deduped_kept_newest deduped_kept_existing : SyncQueueEnqueueAction

pub record SyncQueueEnqueueOutcome : Type 0 where
  pub action : SyncQueueEnqueueAction
  pub evicted : Bool
  pub size : ℕ

unfoldable pub empty : SyncQueue
empty = record { items = []; evictions = 0 }

outcome : SyncQueueEnqueueAction → Bool → SyncQueue → SyncQueue × SyncQueueEnqueueOutcome
outcome action evicted q = (q, record { action = action; evicted = evicted; size = length q.items })

-- Another envelope of the same entity is in the queue.
dedupe : SyncRecord → SyncRecord → SyncQueue → SyncQueue × SyncQueueEnqueueOutcome
unfolding outcome
dedupe r existing q =
    if is_newer (compare_sync_queue_order r existing)
    then outcome deduped_kept_newest false (record q {
      items = Dict.set (sync_queue_key r) r (Dict.delete (sync_queue_key r) q.items);
    })
    else outcome deduped_kept_existing false q

-- The oldest-inserted entry goes, and is counted.
evict_oldest : SyncQueue → List (Text × SyncRecord) → SyncQueue × Bool
evict_oldest q [] = (q, false)
evict_oldest q ((oldest, _) ∷ rest) =
    (record q { items = Dict.delete oldest q.items; evictions = q.evictions + 1 }, true)

make_room : SyncQueue → SyncQueue × Bool
unfolding evict_oldest
make_room q = if leb max_sync_outbox (length q.items) then evict_oldest q q.items else (q, false)

unfoldable pub enqueue : SyncRecord → SyncQueue → SyncQueue × SyncQueueEnqueueOutcome
unfolding dedupe make_room outcome
enqueue r q = elim (Dict.get (sync_queue_key r) q.items) [
  | some existing ↦ dedupe r existing q
  | none ↦
      let (q', evicted) = make_room q in
      outcome enqueued evicted (record q' { items = Dict.set (sync_queue_key r) r q'.items })
]

-- `[...this._items.values()]`.
unfoldable pub peek : SyncQueue → List SyncRecord
peek q = Dict.values q.items

-- The loop of `drain`: `take` bounds how many have gone out.
drain_loop : ℕ → List (Text × SyncRecord) → List SyncRecord × List (Text × SyncRecord)
drain_loop zero items = ([], items)
drain_loop (suc take) [] = ([], [])
drain_loop (suc take) ((key, r) ∷ items) =
    let (out, rest) = drain_loop take items in (r ∷ out, rest)

abbrev pub min_size : ℕ → ℕ → ℕ
min_size limit size = if leb limit size then limit else size

unfoldable pub drain : ℕ → SyncQueue → SyncQueue × List SyncRecord
unfolding drain_loop
drain limit q =
    let (out, rest) = drain_loop (min_size limit (length q.items)) q.items in
    (record q { items = rest }, out)

unfoldable pub clear : SyncQueue → SyncQueue
clear q = record q { items = [] }

-- `valid.sort((a, b) => compareSyncQueueOrder(b, a))`, which is stable.
insert_sorted : SyncRecord → List SyncRecord → List SyncRecord
insert_sorted r [] = r ∷ []
insert_sorted r (x ∷ xs) =
    if is_newer (compare_sync_queue_order r x) then r ∷ x ∷ xs else x ∷ insert_sorted r xs

sort_newest_first : List SyncRecord → List SyncRecord → List SyncRecord
unfolding insert_sorted
sort_newest_first sorted [] = sorted
sort_newest_first sorted (r ∷ rs) = sort_newest_first (insert_sorted r sorted) rs

abbrev reverse_onto : List SyncRecord → List SyncRecord → List SyncRecord
reverse_onto [] acc = acc
reverse_onto (r ∷ rs) acc = reverse_onto rs (r ∷ acc)

-- The loop that enqueues what is valid, and counts.
enqueue_each : List SyncRecord → SyncQueue → ℕ → SyncQueue × ℕ
enqueue_each [] q accepted = (q, accepted)
enqueue_each (r ∷ rs) q accepted = enqueue_each rs (enqueue r q).0 (accepted + 1)

pub record SyncQueueRestoreOutcome : Type 0 where
  pub accepted : ℕ
  pub rejected : ℕ

module _ {J : Type 0} (safe_parse : J → Option SyncRecord) where
  -- The loop over the candidates: the valid envelopes and how many were rejected.
  validate : List J → List SyncRecord → ℕ → List SyncRecord × ℕ
  validate [] valid rejected = (valid, rejected)
  validate (c ∷ cs) valid rejected = elim (safe_parse c) [
    | none ↦ validate cs valid (rejected + 1)
    | some r ↦ validate cs (valid ++ r ∷ []) rejected
  ]

  -- `none` is a snapshot that `JSON.parse` refuses.
  unfoldable pub restore : Option (List J) → SyncQueue × SyncQueueRestoreOutcome
  unfolding empty validate sort_newest_first enqueue_each
  restore none = (empty, record { accepted = 0; rejected = 0 })
  restore (some records) =
      let (valid, rejected) = validate records [] 0 in
      let (q, accepted) = enqueue_each (reverse_onto (sort_newest_first [] valid) []) empty 0 in
      (q, record { accepted = accepted; rejected = rejected })
