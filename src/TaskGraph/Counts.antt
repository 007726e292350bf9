-- ===== src/TaskGraph/Counts.antt =====
-- How often an id stands in a list: what the proofs about the topological sort count with.
use ai_desktop.Base.{
  leb-cases, ℕ, suc, ◌+◌, ◌≤◌, ◌<◌, ◌≡◌, refl, true, List, [], ◌∷◌, ◌++◌, Text, arith, length,
  if◌then◌else◌, text_eq, text_eq_iff, text_eq_refl, text_eq_comm, includes, Bool-cases, inl, inr,
}

-- How often an id stands in a list.
unfoldable pub occ : Text → List Text → ℕ
occ x [] = 0
occ x (y ∷ ys) = (if text_eq y x then 1 else 0) + occ x ys

pub occ-append : (x : Text) (xs ys : List Text) → occ x (xs ++ ys) ≡ occ x xs + occ x ys
unfolding occ
occ-append x [] ys = omega arith
occ-append x (y ∷ xs) ys = ground (arith, occ-append x xs ys)

pub occ_one : (x y : Text) → occ x (y ∷ []) ≡ (if text_eq y x then 1 else 0)
unfolding occ
occ_one x y = ground arith

pub occ_first : (x : Text) (ys : List Text) → 1 ≤ occ x (x ∷ ys)
unfolding occ
occ_first x ys = ground (arith, text_eq_refl x)

pub includes-occ : (xs : List Text) (x : Text) → includes xs x ≡ true → 1 ≤ occ x xs
unfolding includes occ
includes-occ [] x h = cc
includes-occ (y ∷ xs) x h = ground (arith, includes-occ xs x)

pub occ-includes : (xs : List Text) (x : Text) → 1 ≤ occ x xs → includes xs x ≡ true
unfolding includes occ
occ-includes [] x h = ground arith
occ-includes (y ∷ xs) x h = ground (arith, occ-includes xs x)

erase : Text → List Text → List Text
erase x [] = []
erase x (y ∷ ys) = let rest = erase x ys in if text_eq y x then ys else y ∷ rest

length-erase : (x : Text) (ys : List Text) → length ys ≤ suc (length (erase x ys))
unfolding erase
length-erase x [] = omega arith
length-erase x (y ∷ ys) = ground (arith, length-erase x ys)

occ-erase : (x z : Text) (ys : List Text) → occ z ys ≤ occ z (x ∷ []) + occ z (erase x ys)
unfolding erase occ
occ-erase x z [] = omega arith
occ-erase x z (y ∷ ys) = ground (arith, occ-erase x z ys, text_eq_iff y x)

occ-erase_le : (x z : Text) (ys : List Text) → occ z (erase x ys) ≤ occ z ys
unfolding erase occ
occ-erase_le x z [] = omega arith
occ-erase_le x z (y ∷ ys) = ground (arith, occ-erase_le x z ys)

occ-erase_self : (x : Text) (ys : List Text) → 1 ≤ occ x ys → occ x ys ≡ suc (occ x (erase x ys))
unfolding erase occ
occ-erase_self x [] h = omega arith
occ-erase_self x (y ∷ ys) h = ground (arith, occ-erase_self x ys)

shorter :
    (y z : Text) (xs ys : List Text)
    → text_eq y z ≡ true
    → occ z xs ≤ (if text_eq y z then 1 else 0) + occ z ys
    → occ z (erase y xs) ≤ occ z ys
shorter y z xs ys same h = elim (leb-cases 1 (occ y xs)) [
  | inl p ↦ ground (arith, occ-erase_self y xs, text_eq_iff y z)
  | inr n ↦ ground (arith, occ-erase_le y z xs, text_eq_iff y z)
]

-- A list is no longer than one that holds each id at least as often.
pub length-occ : (xs ys : List Text) → ((z : Text) → occ z xs ≤ occ z ys) → length xs ≤ length ys
unfolding occ
length-occ [] ys h = omega arith
length-occ (x ∷ xs) [] h = omega (arith, h x, occ_first x xs)
length-occ (x ∷ xs) (y ∷ ys) h =
    omega (arith, length-erase y (x ∷ xs), length-occ (erase y (x ∷ xs)) ys (λ z. erased z))
  where
    erased : (z : Text) → occ z (erase y (x ∷ xs)) ≤ occ z ys
    erased z = elim (Bool-cases (text_eq y z)) [
      | inl same ↦ shorter y z (x ∷ xs) ys same (h z)
      | inr other ↦ ground (arith, occ-erase_le y z (x ∷ xs), h z)
    ]

-- Of two lists of one length, where the second holds each id at least as often, both hold the same.
pub occ-same :
    (xs ys : List Text)
    → ((z : Text) → occ z xs ≤ occ z ys)
    → length xs ≡ length ys
    → (z : Text) → occ z ys ≤ occ z xs
unfolding occ
occ-same xs ys h e z = elim (leb-cases (occ z ys) (occ z xs)) [
  | inl p ↦ p
  | inr more ↦ omega (arith, length-occ (z ∷ xs) ys (λ y. ground (arith, h y, text_eq_iff z y)))
]

-- How many items of the first list the second holds.
unfoldable pub hits : List Text → List Text → ℕ
hits [] ys = 0
hits (x ∷ xs) ys = occ x ys + hits xs ys

pub hits-snoc : (xs ys : List Text) (c : Text) → hits xs (ys ++ c ∷ []) ≡ hits xs ys + occ c xs
unfolding hits occ
hits-snoc [] ys c = refl
hits-snoc (x ∷ xs) ys c =
    ground (arith, hits-snoc xs ys c, occ-append x ys (c ∷ []), occ_one x c, text_eq_comm x c)

pub hits_none : (xs : List Text) → hits xs [] ≡ 0
unfolding hits occ
hits_none [] = refl
hits_none (x ∷ xs) = omega (arith, hits_none xs)

pub hits-le : (xs ys : List Text) → ((z : Text) → occ z ys ≤ 1) → hits xs ys ≤ length xs
unfolding hits
hits-le [] ys h = omega arith
hits-le (x ∷ xs) ys h = omega (arith, hits-le xs ys h, h x)

-- If the second list holds no id twice and all items count, each is there.
pub hits_all :
    (xs ys : List Text)
    → ((z : Text) → occ z ys ≤ 1)
    → length xs ≤ hits xs ys
    → (x : Text) → 1 ≤ occ x xs
    → 1 ≤ occ x ys
unfolding hits occ
hits_all [] ys h e x p = omega arith
hits_all (w ∷ xs) ys h e x p =
    ground (arith, text_eq_iff w x, hits-le xs ys h, h w, hits_all xs ys h _ x)

-- If not all items count, one is missing.
pub hits_missing :
    (xs ys : List Text) → hits xs ys < length xs → (x : Text) × (1 ≤ occ x xs) × (occ x ys ≡ 0)
unfolding hits occ
hits_missing [] ys e = absurd (omega arith)
hits_missing (w ∷ xs) ys e = elim (leb-cases 1 (occ w ys)) [
  | inr absent ↦ (w, occ_first w xs, omega arith)
  | inl present ↦ let (x, p, q) = hits_missing xs ys (omega arith) in (x, ground arith, q)
]
