-- ===== src/Base/Texts.antt =====
-- A JavaScript string is the list of its UTF-16 code units: equality, order and prefixes are those
-- of the list.
use Prim.Native.Nat.{ℕ}
use Prim.Native.Char.{code}
use Prim.Native.String.{String}
use mathlib.Core.Path.{◌≡◌, refl}
use mathlib.Core.Logic.{◌↔◌}
use mathlib.Core.Bool.{Bool, true, false, not, ◌&&◌, ◌||◌}
use mathlib.Core.List.{List, [], ◌∷◌, ◌++◌}
use mathlib.Core.Option.{Option, none, some}
use native.Mathlib.Omega.{arith}
use ai_desktop.Base.Tests.{◌==◌, ltb, leb, if◌then◌else◌}

abbrev pub Text : Type 0
Text = List ℕ

-- The code units of an ASCII literal.
abbrev pub codes : String → Text
codes String.[] = []
codes (String.◌∷◌ c s) = code c ∷ codes s

-- `a === b`.
unfoldable pub text_eq : Text → Text → Bool
text_eq [] [] = true
text_eq [] (y ∷ b) = false
text_eq (x ∷ a) [] = false
text_eq (x ∷ a) (y ∷ b) = x == y && text_eq a b

pub text_eq_iff : (a b : Text) → (text_eq a b ≡ true) ↔ (a ≡ b)
unfolding text_eq
text_eq_iff [] [] = (λ _. refl, λ _. refl)
text_eq_iff [] (y ∷ b) = (λ h. cc, λ h. cc)
text_eq_iff (x ∷ a) [] = (λ h. cc, λ h. cc)
text_eq_iff (x ∷ a) (y ∷ b) = ground (arith, text_eq_iff a b)

pub text_eq_refl : (a : Text) → text_eq a a ≡ true
text_eq_refl a = (text_eq_iff a a).1 refl

pub text_eq_comm : (a b : Text) → text_eq a b ≡ text_eq b a
text_eq_comm a b = ground (arith, text_eq_iff a b, text_eq_iff b a)

-- `a < b`, by code units.
unfoldable pub text_lt : Text → Text → Bool
text_lt a [] = false
text_lt [] (y ∷ b) = true
text_lt (x ∷ a) (y ∷ b) = ltb x y || (x == y && text_lt a b)

-- Of two different texts exactly one is the smaller.
pub text_lt-total : (a b : Text) → text_eq a b ≡ false → text_lt b a ≡ not (text_lt a b)
unfolding text_lt text_eq
text_lt-total [] [] h = cc
text_lt-total [] (y ∷ b) h = refl
text_lt-total (x ∷ a) [] h = refl
text_lt-total (x ∷ a) (y ∷ b) h = ground (arith, text_lt-total a b)

pub text_lt_trans : (a b c : Text) → text_lt a b ≡ true → text_lt b c ≡ true → text_lt a c ≡ true
unfolding text_lt
text_lt_trans a b [] h k = cc
text_lt_trans a [] (z ∷ c) h k = cc
text_lt_trans [] (y ∷ b) (z ∷ c) h k = refl
text_lt_trans (x ∷ a) (y ∷ b) (z ∷ c) h k = ground (arith, text_lt_trans a b c)

-- `s.startsWith(p)`.
unfoldable pub starts_with : Text → Text → Bool
starts_with s [] = true
starts_with [] (x ∷ p) = false
starts_with (y ∷ s) (x ∷ p) = y == x && starts_with s p

-- Exactly the texts that extend the prefix.
pub starts_with_iff : (s p : Text) → (starts_with s p ≡ true) ↔ ((r : Text) × (s ≡ p ++ r))
unfolding starts_with
starts_with_iff s [] = (λ _. (s, refl), λ _. refl)
starts_with_iff [] (x ∷ p) = (λ h. cc, λ h. cc (h.1))
starts_with_iff (y ∷ s) (x ∷ p) = (
  λ h. let (r, e) = (starts_with_iff s p).0 (ground arith) in (r, ground arith),
  λ h. ground (arith, (starts_with_iff s p).1 (h.0, ground arith)),
)

-- The white space that `trim` removes.
is_space : ℕ → Bool
is_space c =
    (leb 9 c && leb c 13)
    || c == 32
    || c == 160
    || c == 5760
    || (leb 8192 c && leb c 8202)
    || c == 8232
    || c == 8233
    || c == 8239
    || c == 8287
    || c == 12288
    || c == 65279

trim_start : Text → Text
trim_start [] = []
trim_start (c ∷ s) = let rest = trim_start s in if is_space c then rest else c ∷ s

trim_end : Text → Text
trim_end [] = []
trim_end (c ∷ s) = elim (trim_end s) [ [] ↦ if is_space c then [] else c ∷ [] | d ∷ t ↦ c ∷ d ∷ t ]

-- `s.trim()`.
unfoldable pub trim : Text → Text
unfolding trim_start trim_end is_space
trim s = trim_end (trim_start s)

-- An optional text that is set and not empty: `if (t)`.
abbrev pub is_set : Option Text → Bool
is_set none = false
is_set (some []) = false
is_set (some (x ∷ t)) = true

abbrev pub opt_eq : Option Text → Option Text → Bool
opt_eq none none = true
opt_eq none (some b) = false
opt_eq (some a) none = false
opt_eq (some a) (some b) = text_eq a b

-- `value ?? fallback`.
abbrev pub or_else : Option Text → Text → Text
or_else none fallback = fallback
or_else (some s) fallback = s

unfoldable pub includes : List Text → Text → Bool
includes [] a = false
includes (x ∷ xs) a = text_eq x a || includes xs a

pub includes-append :
    (xs ys : List Text) (x : Text) → includes (xs ++ ys) x ≡ (includes xs x || includes ys x)
unfolding includes
includes-append [] ys x = refl
includes-append (y ∷ xs) ys x = ground (arith, includes-append xs ys x)

pub includes_one : (y x : Text) → includes (y ∷ []) x ≡ text_eq y x
unfolding includes
includes_one y x = ground arith

pub includes-cons :
    (y : Text) (ys : List Text) (x : Text) → includes (y ∷ ys) x ≡ (text_eq y x || includes ys x)
unfolding includes
includes-cons y ys x = refl

-- Adding an id that is there changes nothing, so the guard before `push` is invisible to `includes`.
pub includes-add :
    (xs : List Text) (y x : Text)
    → includes (if includes xs y then xs else xs ++ y ∷ []) x ≡ (includes xs x || text_eq y x)
includes-add xs y x =
    ground (arith, includes-append xs (y ∷ []) x, includes_one y x, text_eq_iff y x)
