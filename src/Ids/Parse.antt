-- ===== src/Ids/Parse.antt =====
-- What an accepted id looks like.
use ai_desktop.Base.{ℕ, ◌≡◌, refl, true, false, none, some, [], ◌∷◌, Text, arith, length, all, ◌⊎◌}
use ai_desktop.Ids.{upper_unit, to_upper, in_class, is_ulid, parse_id}

upper_unit_idem : (c : ℕ) → upper_unit (upper_unit c) ≡ upper_unit c
unfolding upper_unit
upper_unit_idem c = ground arith

pub to_upper_idem : (s : Text) → to_upper (to_upper s) ≡ to_upper s
unfolding to_upper
to_upper_idem [] = refl
to_upper_idem (c ∷ s) = ground (arith, upper_unit_idem c, to_upper_idem s)

length-to_upper : (s : Text) → length (to_upper s) ≡ length s
unfolding to_upper
length-to_upper [] = refl
length-to_upper (c ∷ s) = ground (arith, length-to_upper s)

in_class-upper_unit : (c : ℕ) → in_class (upper_unit c) ≡ in_class c
unfolding in_class
in_class-upper_unit c = ground (arith, upper_unit_idem c)

all-in_class-to_upper : (s : Text) → all in_class (to_upper s) ≡ all in_class s
unfolding to_upper
all-in_class-to_upper [] = refl
all-in_class-to_upper (c ∷ s) = ground (arith, in_class-upper_unit c, all-in_class-to_upper s)

-- Upper-casing a text changes nothing about whether it is a ULID.
pub is_ulid-to_upper : (s : Text) → is_ulid (to_upper s) ≡ is_ulid s
unfolding is_ulid
is_ulid-to_upper s = ground (arith, length-to_upper s, all-in_class-to_upper s)

-- An id is accepted exactly if it is a ULID, and parsing an accepted id again returns it unchanged:
-- one entity has one spelling, whatever case the id came in.
pub parse_id-canonical :
    (raw : Text)
    → ((parse_id raw ≡ none) × (is_ulid raw ≡ false))
      ⊎ ((parse_id raw ≡ some (to_upper raw))
          × (is_ulid raw ≡ true)
          × (parse_id (to_upper raw) ≡ some (to_upper raw)))
unfolding parse_id
parse_id-canonical raw = ground (arith, is_ulid-to_upper raw, to_upper_idem raw)
