-- ===== src/Ids.antt =====
-- packages/shared/src/ids.ts: the ULIDs that name every entity. Random bytes are an argument.
pub mod Timestamp
pub mod Parse
mod Tests
use ai_desktop.Base.{
  ℕ, zero, suc, ◌+◌, ◌-◌, ◌*◌, ◌/◌, ◌%◌, Bool, ◌&&◌, Option, none, some, List, [], ◌∷◌, ◌++◌, map,
  Text, codes, length, all, get_or, ltb, leb, ◌==◌, if◌then◌else◌,
}

-- `CROCKFORD_BASE32`.
abbrev pub crockford_base32 : Text
crockford_base32 = codes "0123456789ABCDEFGHJKMNPQRSTVWXYZ"

abbrev pub max_time : ℕ
max_time = 281474976710655

-- `CROCKFORD_BASE32[i]`.
pub digit : ℕ → ℕ
digit i = get_or crockford_base32 i 0

-- `CROCKFORD_BASE32.indexOf(char)`, `none` for -1.
unfoldable pub index_in : Text → ℕ → Option ℕ
index_in [] c = none
index_in (x ∷ xs) c =
    let rest = index_in xs c in
    if x == c then some 0 else elim rest [ none ↦ none | some i ↦ some (suc i) ]

unfoldable pub index_of : ℕ → Option ℕ
index_of c = index_in crockford_base32 c

-- The loop of `encodeTime`, by the rounds that are left.
pub encode_time_loop : ℕ → ℕ → Text → Text
encode_time_loop zero remainder str = str
encode_time_loop (suc i) remainder str =
    encode_time_loop i ((remainder - remainder % 32) / 32) (digit (remainder % 32) ∷ str)

-- `none` is the RangeError.
pub encode_time : ℕ → Option Text
encode_time time_ms = if ltb max_time time_ms then none else some (encode_time_loop 10 time_ms [])

pub encode_random : List ℕ → Text
encode_random buffer = map (λ b. digit (b % 32)) buffer

pub generate_ulid : ℕ → List ℕ → Option Text
generate_ulid seed_time buffer = elim (encode_time seed_time) [
  | none ↦ none
  | some time ↦ some (time ++ encode_random buffer)
]

-- `toUpperCase` on a code unit of a ULID, which is ASCII.
unfoldable pub upper_unit : ℕ → ℕ
upper_unit c = if leb b'a' c && leb c b'z' then c - 32 else c

unfoldable pub to_upper : Text → Text
to_upper s = map upper_unit s

-- The character class of `ULID_REGEX` under the `i` flag.
unfoldable pub in_class : ℕ → Bool
in_class c = elim (index_of (upper_unit c)) [ none ↦ Bool.false | some i ↦ Bool.true ]

unfoldable pub is_ulid : Text → Bool
is_ulid value = length value == 26 && all in_class value

-- The loop of `getUlidTimestamp`; `none` is the TypeError on a character outside the alphabet.
pub read_time : ℕ → Text → ℕ → Option ℕ
read_time zero upper time = some time
read_time (suc i) [] time = none
read_time (suc i) (char ∷ upper) time = elim (index_of char) [
  | none ↦ none
  | some index ↦ read_time i upper (time * 32 + index)
]

pub get_ulid_timestamp : Text → Option ℕ
get_ulid_timestamp ulid = if is_ulid ulid then read_time 10 (to_upper ulid) 0 else none

-- `parseTaskId` and its siblings: one body under eleven names. `none` is the TypeError.
unfoldable pub parse_id : Text → Option Text
parse_id raw = if is_ulid raw then some (to_upper raw) else none
