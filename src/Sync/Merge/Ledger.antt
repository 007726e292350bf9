-- ===== src/Sync/Merge/Ledger.antt =====
-- sync-engine.ts: the bound of the tombstone ledger.
use ai_desktop.Base.{
  ℕ, zero, suc, ◌+◌, ◌-◌, ◌≤◌, ◌≡◌, refl, ap, subst, Bool, true, false, not, ◌||◌, Option, none,
  some, List, [], ◌∷◌, Text, arith, length, take, filter, any, leb, ltb, if◌then◌else◌, text_eq,
  text_eq_iff, Bool-cases, inl, inr, or_else,
}
use ai_desktop.Base.Dict
use ai_desktop.Base.Dict.{IsMap}
use ai_desktop.Sync.Conflict.{SyncRecord, is_sync_tombstone}
use ai_desktop.Sync.Engine.{max_tombstones, retention_ms}
use ai_desktop.Sync.Merge.{
  insert_seen, order_seen, delete_keys, cap_tombstones, alive_entries, track_tombstone,
}

-- The keys of these entries are in the map, or not in it.
abbrev Present : Bool → List (Text × ℕ) → List (Text × ℕ) → Type 0
Present b m [] = Unit
Present b m ((k, t) ∷ es) = (Dict.has k m ≡ b) × Present b m es

has-insert_seen :
    (k j : Text) (t : ℕ) (fs : List (Text × ℕ))
    → Dict.has k (insert_seen (j, t) fs) ≡ (text_eq j k || Dict.has k fs)
unfolding insert_seen Dict.has
has-insert_seen k j t [] = ground arith
has-insert_seen k j t ((i, u) ∷ fs) = ground (arith, has-insert_seen k j t fs)

insert_seen-IsMap :
    (j : Text) (t : ℕ) (fs : List (Text × ℕ))
    → Dict.has j fs ≡ false
    → IsMap fs
    → IsMap (insert_seen (j, t) fs)
unfolding insert_seen Dict.has
insert_seen-IsMap j t [] new h = (refl, tt)
insert_seen-IsMap j t ((i, u) ∷ fs) new h =
    ground
      (arith, has-insert_seen i j t fs, insert_seen-IsMap j t fs, text_eq_iff i j, text_eq_iff j i)

insert_seen-Present :
    (m : List (Text × ℕ)) (j : Text) (t : ℕ) (fs : List (Text × ℕ))
    → Dict.has j m ≡ true
    → Present true m fs
    → Present true m (insert_seen (j, t) fs)
unfolding insert_seen
insert_seen-Present m j t [] here h = (here, tt)
insert_seen-Present m j t ((i, u) ∷ fs) here h = ground (arith, insert_seen-Present m j t fs)

length-insert_seen :
    (e : Text × ℕ) (fs : List (Text × ℕ)) → length (insert_seen e fs) ≡ suc (length fs)
unfolding insert_seen
length-insert_seen e [] = refl
length-insert_seen e (f ∷ fs) = ground (arith, length-insert_seen e fs)

absent_of_insert :
    (j : Text) (t : ℕ) (sorted es : List (Text × ℕ))
    → Dict.has j es ≡ false
    → Present false sorted es
    → Present false (insert_seen (j, t) sorted) es
unfolding Dict.has
absent_of_insert j t sorted [] new h = tt
absent_of_insert j t sorted ((i, u) ∷ es) new h = ground (
  arith,
  has-insert_seen i j t sorted,
  absent_of_insert j t sorted es,
  text_eq_iff i j,
  text_eq_iff j i,
)

-- What sorting keeps: the keys are those of the map, each once, and none is lost.
record IsSortOf (m : List (Text × ℕ)) (size : ℕ) (fs : List (Text × ℕ)) : Type 0 where
  is_map : IsMap fs
  present : Present true m fs
  size_kept : length fs ≡ size

order_seen-IsSortOf :
    (m sorted es : List (Text × ℕ))
    → IsMap sorted
    → IsMap es
    → Present false sorted es
    → Present true m sorted
    → Present true m es
    → IsSortOf m (length sorted + length es) (order_seen sorted es)
unfolding order_seen
order_seen-IsSortOf m sorted [] h g apart here there = record {
  is_map = h;
  present = here;
  size_kept = omega arith;
}
order_seen-IsSortOf m sorted ((j, t) ∷ es) h (new, g) (away, apart) here (in_map, there) =
    let rest =
      order_seen-IsSortOf m (insert_seen (j, t) sorted) es (insert_seen-IsMap j t sorted away h) g
        (absent_of_insert j t sorted es new apart) (insert_seen-Present m j t sorted in_map here)
        there in
    record {
      is_map = rest.is_map;
      present = rest.present;
      size_kept = omega (arith, rest.size_kept, length-insert_seen (j, t) sorted);
    }

cons-Present :
    (j : Text) (t : ℕ) (m es : List (Text × ℕ)) → Present true m es → Present true ((j, t) ∷ m) es
unfolding Dict.has
cons-Present j t m [] h = tt
cons-Present j t m ((i, u) ∷ es) h = ground (arith, cons-Present j t m es)

self_keys : (m : List (Text × ℕ)) → Present true m m
self_keys [] = tt
self_keys ((j, t) ∷ m) = (Dict.has_first j t m, cons-Present j t m m (self_keys m))

absent_empty : (es : List (Text × ℕ)) → Present false [] es
unfolding Dict.has
absent_empty [] = tt
absent_empty ((j, t) ∷ es) = (refl, absent_empty es)

has-take :
    (k : Text) (n : ℕ) (es : List (Text × ℕ))
    → Dict.has k es ≡ false
    → Dict.has k (take n es) ≡ false
unfolding Dict.has
has-take k zero es h = refl
has-take k (suc n) [] h = refl
has-take k (suc n) ((j, t) ∷ es) h = ground (arith, has-take k n es)

take-IsMap : (n : ℕ) (es : List (Text × ℕ)) → IsMap es → IsMap (take n es)
take-IsMap zero es h = tt
take-IsMap (suc n) [] h = tt
take-IsMap (suc n) ((j, t) ∷ es) (new, h) = (has-take j n es new, take-IsMap n es h)

take-Present :
    (m : List (Text × ℕ)) (n : ℕ) (es : List (Text × ℕ))
    → Present true m es
    → Present true m (take n es)
take-Present m zero es h = tt
take-Present m (suc n) [] h = tt
take-Present m (suc n) ((j, t) ∷ es) (here, h) = (here, take-Present m n es h)

length-take_of : (n : ℕ) (es : List (Text × ℕ)) → n ≤ length es → length (take n es) ≡ n
length-take_of zero es h = refl
length-take_of (suc n) [] h = absurd (omega arith)
length-take_of (suc n) (e ∷ es) h = ap suc (length-take_of n es (omega arith))

delete-Present :
    (k : Text) (m es : List (Text × ℕ))
    → Dict.has k es ≡ false
    → Present true m es
    → Present true (Dict.delete k m) es
unfolding Dict.has
delete-Present k m [] new h = tt
delete-Present k m ((j, t) ∷ es) new h =
    ground (arith, Dict.has-delete k j m, text_eq_iff k j, text_eq_iff j k, delete-Present k m es)

-- Deleting keys that are there, each once, takes as many entries.
delete_keys_size :
    (es m : List (Text × ℕ))
    → IsMap es
    → IsMap m
    → Present true m es
    → IsMap (delete_keys es m) × (length m ≡ length es + length (delete_keys es m))
unfolding delete_keys
delete_keys_size [] m g h here = (h, omega arith)
delete_keys_size ((k, t) ∷ es) m (new, g) h (in_map, here) =
    let (a, b) =
      delete_keys_size es (Dict.delete k m) g (Dict.delete-IsMap k m h)
        (delete-Present k m es new here) in
    (a, ground (arith, b, Dict.length-delete k m h))

any-delete :
    (p : Text × ℕ → Bool) (k : Text) (m : List (Text × ℕ))
    → any p m ≡ false
    → any p (Dict.delete k m) ≡ false
unfolding Dict.delete
any-delete p k [] h = refl
any-delete p k ((j, t) ∷ m) h = ground (arith, any-delete p k m)

any-delete_keys :
    (p : Text × ℕ → Bool) (es m : List (Text × ℕ))
    → any p m ≡ false
    → any p (delete_keys es m) ≡ false
unfolding delete_keys
any-delete_keys p [] m h = h
any-delete_keys p ((k, t) ∷ es) m h = any-delete_keys p es (Dict.delete k m) (any-delete p k m h)

has-filter :
    (p : Text × ℕ → Bool) (k : Text) (m : List (Text × ℕ))
    → Dict.has k m ≡ false
    → Dict.has k (filter p m) ≡ false
unfolding Dict.has
has-filter p k [] h = refl
has-filter p k ((j, t) ∷ m) h = ground (arith, has-filter p k m)

filter-IsMap : (p : Text × ℕ → Bool) (m : List (Text × ℕ)) → IsMap m → IsMap (filter p m)
filter-IsMap p [] h = tt
filter-IsMap p ((j, t) ∷ m) h = ground (arith, filter-IsMap p m, has-filter p j m)

any-filter_none :
    (p : Text × ℕ → Bool) (m : List (Text × ℕ)) → any p (filter (λ e. not (p e)) m) ≡ false
any-filter_none p [] = refl
any-filter_none p (e ∷ m) = ground (arith, any-filter_none p m)

-- The ledger at a time: each entity once, 500 of them at most, and none that is 30 days old.
pub record IsLedger (now : ℕ) (m : List (Text × ℕ)) : Type 0 where
  pub is_map : IsMap m
  pub bounded : length m ≤ max_tombstones
  pub fresh : any (λ e. leb (e.1 + retention_ms) now) m ≡ false

module _ (now : ℕ) (m : List (Text × ℕ)) (h : IsMap m)
    (fresh : any (λ e. leb (e.1 + retention_ms) now) m ≡ false) where
  oldest : List (Text × ℕ)
  oldest = take (length m - max_tombstones) (order_seen [] m)

  delete_oldest : max_tombstones ≤ length m → IsLedger now (delete_keys oldest m)
  unfolding oldest
  delete_oldest many =
      let sorted = order_seen-IsSortOf m [] m tt h (absent_empty m) tt (self_keys m) in
      let n = length m - max_tombstones in
      let size = length-take_of n (order_seen [] m) (omega (arith, sorted.size_kept)) in
      let (a, b) =
        delete_keys_size oldest m (take-IsMap n (order_seen [] m) sorted.is_map) h
          (take-Present m n (order_seen [] m) sorted.present) in
      record {
        is_map = a;
        bounded = omega (arith, b, size);
        fresh = any-delete_keys (λ e. leb (e.1 + retention_ms) now) oldest m fresh;
      }

  cap_tombstones-IsLedger : IsLedger now (cap_tombstones m)
  unfolding cap_tombstones oldest
  cap_tombstones-IsLedger = elim (Bool-cases (ltb max_tombstones (length m))) [
    | inl many ↦ subst (IsLedger now) (ground arith) (delete_oldest (ground arith))
    | inr few ↦
        let whole : IsLedger now m = record { is_map = h; bounded = ground arith; fresh = fresh } in
        subst (IsLedger now) (ground arith) whole
  ]

-- The tombstone ledger is bounded: whatever record is tracked, the ledger holds each entity once, at most 500 of
-- them, and none whose time is 30 days back or more, if it held each entity once before.
pub track_tombstone-IsLedger :
    (date_parse : Text → Option ℕ) (now : ℕ) (key : Text) (r : SyncRecord) (seen : List (Text × ℕ))
    → IsMap seen
    → IsLedger now (track_tombstone date_parse now key r seen)
unfolding track_tombstone
track_tombstone-IsLedger date_parse now key r seen h =
    let old : Text × ℕ → Bool = λ e. leb (e.1 + retention_ms) now in
    let written : List (Text × ℕ) =
      if is_sync_tombstone r
      then Dict.set key
          (elim (date_parse (or_else r.deleted_at r.updated_at)) [ none ↦ now | some t ↦ t ]) seen
      else Dict.delete key seen in
    let good : IsMap written = elim (Bool-cases (is_sync_tombstone r)) [
      | inl dead ↦ ground (
        arith,
        Dict.set-IsMap key
            (elim (date_parse (or_else r.deleted_at r.updated_at)) [ none ↦ now | some t ↦ t ]) seen
            h,
      )
      | inr alive ↦ ground (arith, Dict.delete-IsMap key seen h)
    ] in
    cap_tombstones-IsLedger now (alive_entries now written)
      (filter-IsMap (λ e. not (old e)) written good) (any-filter_none old written)
