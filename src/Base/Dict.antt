-- ===== src/Base/Dict.antt =====
-- A JavaScript `Map` keyed by texts: entries in insertion order, a write to a present key in place.
use Prim.Native.Nat.{suc, ◌+◌}
use mathlib.Core.Path.{◌≡◌, refl}
use mathlib.Core.Bool.{Bool, true, false, ◌||◌}
use mathlib.Core.List.{List, [], ◌∷◌, ◌++◌}
use mathlib.Core.Option.{Option, none, some}
use native.Mathlib.Omega.{arith}
use ai_desktop.Base.Tests.{if◌then◌else◌}
use ai_desktop.Base.Lists.{length, count}
use ai_desktop.Base.Texts.{Text, text_eq, text_eq_iff, text_eq_comm, text_eq_refl}

module _ {ℓ} {V : Type ℓ} where
  unfoldable pub get : Text → List (Text × V) → Option V
  get k [] = none
  get k ((j, v) ∷ m) = if text_eq j k then some v else get k m

  unfoldable pub has : Text → List (Text × V) → Bool
  has k [] = false
  has k ((j, v) ∷ m) = if text_eq j k then true else has k m

  unfoldable pub set : Text → V → List (Text × V) → List (Text × V)
  set k v [] = (k, v) ∷ []
  set k v ((j, w) ∷ m) = if text_eq j k then (j, v) ∷ m else (j, w) ∷ set k v m

  unfoldable pub delete : Text → List (Text × V) → List (Text × V)
  delete k [] = []
  delete k ((j, w) ∷ m) = let rest = delete k m in if text_eq j k then rest else (j, w) ∷ rest

  abbrev pub values : List (Text × V) → List V
  values [] = []
  values ((k, v) ∷ m) = v ∷ values m

  pub get-set :
      (k j : Text) (v : V) (m : List (Text × V))
      → get j (set k v m) ≡ (if text_eq k j then some v else get j m)
  unfolding get set
  get-set k j v [] = refl
  get-set k j v ((i, w) ∷ m) =
      ground (arith, text_eq_iff k j, text_eq_iff i k, text_eq_iff i j, get-set k j v m)

  pub get-set_self : (k : Text) (v : V) (m : List (Text × V)) → get k (set k v m) ≡ some v
  get-set_self k v m = ground (arith, get-set k k v m, text_eq_refl k)

  pub get-delete :
      (k j : Text) (m : List (Text × V))
      → get j (delete k m) ≡ (if text_eq k j then none else get j m)
  unfolding get delete
  get-delete k j [] = ground arith
  get-delete k j ((i, w) ∷ m) =
      ground (arith, text_eq_iff k j, text_eq_iff i k, text_eq_iff i j, get-delete k j m)

  pub get-delete_self : (k : Text) (m : List (Text × V)) → get k (delete k m) ≡ none
  get-delete_self k m = ground (arith, get-delete k k m, text_eq_refl k)

  pub has-get :
      (k : Text) (m : List (Text × V)) → has k m ≡ elim (get k m) [ none ↦ false | some v ↦ true ]
  unfolding get has
  has-get k [] = refl
  has-get k ((j, v) ∷ m) = ground (arith, has-get k m)

  pub has_first : (k : Text) (v : V) (m : List (Text × V)) → has k ((k, v) ∷ m) ≡ true
  unfolding has
  has_first k v m = ground (arith, text_eq_refl k)

  -- A map holds a key at most once.
  abbrev pub IsMap : List (Text × V) → Type 0
  IsMap [] = Unit
  IsMap ((k, v) ∷ m) = (has k m ≡ false) × IsMap m

  pub has-set :
      (k j : Text) (v : V) (m : List (Text × V)) → has j (set k v m) ≡ (text_eq k j || has j m)
  unfolding has set
  has-set k j v [] = ground arith
  has-set k j v ((i, w) ∷ m) =
      ground (arith, text_eq_iff k j, text_eq_iff i k, text_eq_iff i j, has-set k j v m)

  pub has-delete :
      (k j : Text) (m : List (Text × V))
      → has j (delete k m) ≡ (if text_eq k j then false else has j m)
  unfolding has delete
  has-delete k j [] = ground arith
  has-delete k j ((i, w) ∷ m) =
      ground (arith, text_eq_iff k j, text_eq_iff i k, text_eq_iff i j, has-delete k j m)

  pub set-IsMap : (k : Text) (v : V) (m : List (Text × V)) → IsMap m → IsMap (set k v m)
  unfolding has set
  set-IsMap k v [] h = (refl, tt)
  set-IsMap k v ((j, w) ∷ m) h =
      ground (arith, has-set k j v m, text_eq_comm k j, set-IsMap k v m h.1)

  pub delete-IsMap : (k : Text) (m : List (Text × V)) → IsMap m → IsMap (delete k m)
  unfolding has delete
  delete-IsMap k [] h = tt
  delete-IsMap k ((j, w) ∷ m) h = ground (arith, has-delete k j m, delete-IsMap k m h.1)

  pub length-set :
      (k : Text) (v : V) (m : List (Text × V))
      → length (set k v m) ≡ (if has k m then length m else suc (length m))
  unfolding has set
  length-set k v [] = refl
  length-set k v ((j, w) ∷ m) = ground (arith, length-set k v m)

  pub delete-absent : (k : Text) (m : List (Text × V)) → has k m ≡ false → delete k m ≡ m
  unfolding has delete
  delete-absent k [] h = refl
  delete-absent k ((j, w) ∷ m) h = ground (arith, delete-absent k m)

  pub length-delete :
      (k : Text) (m : List (Text × V))
      → IsMap m
      → length m ≡ (if has k m then suc (length (delete k m)) else length (delete k m))
  unfolding has delete
  length-delete k [] h = refl
  length-delete k ((j, w) ∷ m) h =
      ground (arith, length-delete k m h.1, text_eq_iff j k, delete-absent k m)

  -- A write to a present key exchanges one value for another.
  pub count-set :
      (p : V → Bool) (k : Text) (v w : V) (m : List (Text × V))
      → get k m ≡ some v
      → count p (values (set k w m)) + (if p v then 1 else 0)
        ≡ count p (values m) + (if p w then 1 else 0)
  unfolding get set
  count-set p k v w [] h = cc
  count-set p k v w ((j, u) ∷ m) h = ground (arith, count-set p k v w m)

  -- A write to an absent key puts the value last.
  pub values-set_new :
      (k : Text) (v : V) (m : List (Text × V))
      → get k m ≡ none
      → values (set k v m) ≡ values m ++ v ∷ []
  unfolding get set
  values-set_new k v [] h = refl
  values-set_new k v ((j, u) ∷ m) h = ground (arith, values-set_new k v m)
