-- ===== src/Schemas.antt =====
-- packages/shared/src/ipc-contract.ts: the schemas of strings that the records are made of. `none` is a
-- failed parse.
use ai_desktop.Base.{
  ℕ, Bool, ◌&&◌, ◌||◌, false, Option, none, some, [], ◌∷◌, Text, codes, length, leb, ◌==◌,
  if◌then◌else◌, trim,
}
use ai_desktop.Ids.{parse_id}

-- `z.string().trim().min(1).max(max)`.
unfoldable pub fit : ℕ → Text → Option Text
fit max s = let t = trim s in if leb 1 (length t) && leb (length t) max then some t else none

-- `.optional()` of a field.
unfoldable pub optional : (Text → Option Text) → Option Text → Option (Option Text)
optional parse none = some none
optional parse (some s) = elim (parse s) [ none ↦ none | some t ↦ some (some t) ]

infixl 5 ◌>>=◌
abbrev pub ◌>>=◌ {ℓ κ} : {A : Type ℓ} {B : Type κ} → Option A → (A → Option B) → Option B
none >>= k = none
some a >>= k = k a

-- `UlidStringSchema` with its transform (packages/shared/src/ipc-contract.ts).
unfoldable pub ulid_string : Text → Option Text
ulid_string s = parse_id (trim s)

-- The rest of a text after a prefix of this shape, where `0` stands for any digit.
after_shape : Text → Text → Option Text
after_shape [] s = some s
after_shape (d ∷ shape) [] = none
after_shape (d ∷ shape) (c ∷ s) =
    let rest = after_shape shape s in
    if d == 48
    then (if leb 48 c && leb c 57 then rest else none)
    else (if c == d then rest else none)

whole_shape : Text → Text → Bool
unfolding after_shape
whole_shape shape s = elim (after_shape shape s) [ none ↦ false | some rest ↦ length rest == 0 ]

-- `TimestampStringSchema` with `ISO_UTC_PATTERN` (the same file).
unfoldable pub timestamp_string : Text → Option Text
unfolding whole_shape after_shape
timestamp_string s =
    let t = trim s in
    if whole_shape (codes "0000-00-00T00:00:00Z") t
      || whole_shape (codes "0000-00-00T00:00:00.000Z") t
    then some t
    else none

-- `z.string().max(max)`.
unfoldable pub at_most : ℕ → Text → Option Text
at_most max s = if leb (length s) max then some s else none
