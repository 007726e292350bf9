-- ===== src/Sync/Queue/Restore.antt =====
-- A restored outbox is well formed, and every candidate is accounted for.
use ai_desktop.Base.{
  ℕ, suc, ◌+◌, ◌≡◌, refl, inl, inr, Option, some, List, [], ◌∷◌, ◌++◌, arith, length, length-append,
  Option-cases,
}
use ai_desktop.Sync.Conflict.{SyncRecord}
use ai_desktop.Sync.Queue.{
  SyncQueue, empty, enqueue, insert_sorted, sort_newest_first, reverse_onto, enqueue_each, validate,
  restore,
}
use ai_desktop.Sync.Queue.Bounds.{Inv, enqueue-Inv}

length-insert_sorted :
    (r : SyncRecord) (xs : List SyncRecord) → length (insert_sorted r xs) ≡ suc (length xs)
unfolding insert_sorted
length-insert_sorted r [] = refl
length-insert_sorted r (x ∷ xs) = ground (arith, length-insert_sorted r xs)

length-sort :
    (sorted rs : List SyncRecord) → length (sort_newest_first sorted rs) ≡ length sorted + length rs
unfolding sort_newest_first
length-sort sorted [] = omega arith
length-sort sorted (r ∷ rs) =
    omega (arith, length-sort (insert_sorted r sorted) rs, length-insert_sorted r sorted)

length-reverse_onto :
    (rs acc : List SyncRecord) → length (reverse_onto rs acc) ≡ length rs + length acc
length-reverse_onto [] acc = omega arith
length-reverse_onto (r ∷ rs) acc = omega (arith, length-reverse_onto rs (r ∷ acc))

enqueue_each_lem :
    (rs : List SyncRecord) (q : SyncQueue) (n : ℕ)
    → Inv q
    → Inv (enqueue_each rs q n).0 × ((enqueue_each rs q n).1 ≡ n + length rs)
unfolding enqueue_each
enqueue_each_lem [] q n v = (v, omega arith)
enqueue_each_lem (r ∷ rs) q n v =
    let (w, e) = enqueue_each_lem rs (enqueue r q).0 (n + 1) ((enqueue-Inv r q v).0) in
    (w, omega arith)

empty-Inv : Inv empty
unfolding empty
empty-Inv = record { is_map = tt; keyed = tt; bounded = omega arith }

module _ {J : Type 0} (safe_parse : J → Option SyncRecord) where
  validate_lem :
      (cs : List J) (valid : List SyncRecord) (n : ℕ)
      → length (validate safe_parse cs valid n).0 + (validate safe_parse cs valid n).1
        ≡ length valid + n + length cs
  unfolding validate
  validate_lem [] valid n = omega arith
  validate_lem (c ∷ cs) valid n = elim (Option-cases (safe_parse c)) [
    | inl e ↦ rw (e, validate) (omega (arith, validate_lem cs valid (n + 1)))
    | inr (r, e) ↦
        rw (e, validate)
          (omega (arith, validate_lem cs (valid ++ r ∷ []) n, length-append {0} valid (r ∷ [])))
  ]

  -- A snapshot that parses is restored to a well-formed outbox within its bound, and every record in
  -- it is counted once, as accepted or as rejected.
  pub restore-Inv :
      (records : List J)
      → let (q, o) = restore safe_parse (some records) in
        Inv q × (o.accepted + o.rejected ≡ length records)
  unfolding restore
  restore-Inv records =
      let valid = (validate safe_parse records [] 0).0 in
      let sorted = sort_newest_first [] valid in
      let (v, e) = enqueue_each_lem (reverse_onto sorted []) empty 0 empty-Inv in
      (
        v,
        omega (
          arith,
          e,
          length-reverse_onto sorted [],
          length-sort [] valid,
          validate_lem records [] 0,
        ),
      )
