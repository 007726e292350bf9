-- ===== src/Ids/Timestamp.antt =====
-- Time stamps of generated ids are read back.
use native.Mathlib.Nat.{pow-suc}
use Prim.Native.Nat.{◌^◌}
use ai_desktop.Base.{
  if◌then◌else◌, ℕ, zero, suc, ◌+◌, ◌-◌, ◌*◌, ◌/◌, ◌%◌, ◌≤◌, ◌<◌, ◌≡◌, refl, ◌∙◌, Bool, true, false,
  ◌&&◌, Option, none, some, List, [], ◌∷◌, ◌++◌, arith, length, all, Text, ◌==◌, ==_iff, ap,
  length-append,
}
use ai_desktop.Ids.{
  digit, index_of, index_in, encode_time_loop, encode_time, encode_random, generate_ulid,
  upper_unit, to_upper, in_class, is_ulid, read_time, get_ulid_timestamp, max_time,
}

-- The test holds of the `count` numbers from `first` on.
every_from : (first count : ℕ) → (ℕ → Bool) → Bool
every_from first zero test = true
every_from first (suc count) test = if test first then every_from (suc first) count test else false

every_from_lem :
    (first count : ℕ) (test : ℕ → Bool) (i : ℕ)
    → every_from first count test ≡ true
    → first ≤ i
    → i < first + count
    → test i ≡ true
unfolding every_from
every_from_lem first zero test i held low high = absurd (omega arith)
every_from_lem first (suc count) test i held low high =
    ground (arith, every_from_lem (suc first) count test i)

abbrev is_some : Option ℕ → ℕ → Bool
is_some none n = false
is_some (some m) n = m == n

-- The alphabet is in upper case, and its digits have their own index.
digit_ok : ℕ → Bool
digit_ok i = is_some (index_of (digit i)) i && upper_unit (digit i) == digit i

digits_ok : every_from 0 32 digit_ok ≡ true
unfolding every_from digit_ok digit index_of index_in upper_unit
digits_ok = refl

digit_facts : (i : ℕ) → i < 32 → (index_of (digit i) ≡ some i) × (upper_unit (digit i) ≡ digit i)
unfolding digit_ok
digit_facts i h = ground (arith, every_from_lem 0 32 digit_ok i digits_ok)

in_class-digit : (i : ℕ) → i < 32 → in_class (digit i) ≡ true
unfolding in_class
in_class-digit i h = ground (arith, digit_facts i h)

-- A text of digits of the alphabet.
abbrev Digits : Text → Type 0
Digits [] = Unit
Digits (c ∷ s) = ((i : ℕ) × (i < 32) × (c ≡ digit i)) × Digits s

Digits-append : (s t : Text) → Digits s → Digits t → Digits (s ++ t)
Digits-append [] t d e = e
Digits-append (c ∷ s) t d e = (d.0, Digits-append s t d.1 e)

Digits-in_class : (s : Text) → Digits s → all in_class s ≡ true
Digits-in_class [] d = refl
Digits-in_class (c ∷ s) ((i, h, e), d) = rw (e, in_class-digit i h) (Digits-in_class s d)

Digits-upper : (s : Text) → Digits s → to_upper s ≡ s
unfolding to_upper
Digits-upper [] d = refl
Digits-upper (c ∷ s) ((i, h, e), d) = ground (arith, digit_facts i h, Digits-upper s d)

encode_time_loop-Digits : (n r : ℕ) (s : Text) → Digits s → Digits (encode_time_loop n r s)
unfolding encode_time_loop
encode_time_loop-Digits zero r s d = d
encode_time_loop-Digits (suc n) r s d =
    encode_time_loop-Digits n ((r - r % 32) / 32) (digit (r % 32) ∷ s)
      ((r % 32, omega arith, refl), d)

length-encode_time_loop : (n r : ℕ) (s : Text) → length (encode_time_loop n r s) ≡ n + length s
unfolding encode_time_loop
length-encode_time_loop zero r s = omega arith
length-encode_time_loop (suc n) r s =
    omega (arith, length-encode_time_loop n ((r - r % 32) / 32) (digit (r % 32) ∷ s))

encode_random-Digits : (buffer : List ℕ) → Digits (encode_random buffer)
unfolding encode_random
encode_random-Digits [] = tt
encode_random-Digits (b ∷ buffer) = ((b % 32, omega arith, refl), encode_random-Digits buffer)

length-encode_random : (buffer : List ℕ) → length (encode_random buffer) ≡ length buffer
unfolding encode_random
length-encode_random [] = refl
length-encode_random (b ∷ buffer) = ap suc (length-encode_random buffer)

Digits-valid : (s : Text) → Digits s → length s ≡ 26 → is_ulid s ≡ true
unfolding is_ulid
Digits-valid s d l = rw ((==_iff (length s) 26).1 l) (Digits-in_class s d)

-- One more round of reading takes one digit.
read_time-digit :
    (m i acc : ℕ) (s : Text)
    → i < 32
    → read_time (suc m) (digit i ∷ s) acc ≡ read_time m s (acc * 32 + i)
unfolding read_time
read_time-digit m i acc s h = rw ((digit_facts i h).0, read_time)

-- `n` rounds of reading undo `n` rounds of writing.
read_time-encode_time_loop :
    (n m r acc : ℕ) (s t : Text)
    → r < 32 ^ n
    → read_time (n + m) (encode_time_loop n r s ++ t) acc ≡ read_time m (s ++ t) (acc * 32 ^ n + r)
unfolding encode_time_loop
read_time-encode_time_loop zero m r acc s t h = ground arith
read_time-encode_time_loop (suc n) m r acc s t h =
    let q = (r - r % 32) / 32 in
    let wide : 32 ^ suc n ≡ 32 ^ n * 32 = pow-suc 32 n in
    let rounds : suc n + m ≡ n + suc m = omega arith in
    let fits : q < 32 ^ n = omega arith in
    let sum : (acc * 32 ^ n + q) * 32 + r % 32 ≡ acc * 32 ^ suc n + r = rw wide (omega arith) in
    rw (rounds, read_time-encode_time_loop n (suc m) q acc (digit (r % 32) ∷ s) t fits)
      (read_time-digit m (r % 32) (acc * 32 ^ n + q) (s ++ t) (omega arith)
        ∙ ap (read_time m (s ++ t)) sum)

-- Generating an id for a time that fits 48 bits, from 16 random bytes, gives a valid ULID, and its
-- time stamp is read back.
pub get_ulid_timestamp-generate_ulid :
    (seed_time : ℕ) (buffer : List ℕ)
    → seed_time ≤ max_time
    → length buffer ≡ 16
    → (ulid : Text) × (generate_ulid seed_time buffer ≡ some ulid)
      × (is_ulid ulid ≡ true)
      × (get_ulid_timestamp ulid ≡ some seed_time)
unfolding generate_ulid encode_time get_ulid_timestamp read_time
get_ulid_timestamp-generate_ulid seed_time buffer h l =
    let time = encode_time_loop 10 seed_time [] in
    let random = encode_random buffer in
    let digits =
      Digits-append time random (encode_time_loop-Digits 10 seed_time [] tt)
        (encode_random-Digits buffer) in
    let valid = Digits-valid (time ++ random) digits (
      omega (
        arith,
        length-append {0} time random,
        length-encode_time_loop 10 seed_time [],
        length-encode_random buffer,
      )) in
    let done : read_time 0 random (0 * 32 ^ 10 + seed_time) ≡ some seed_time =
      ap some (omega arith) in
    let read = read_time-encode_time_loop 10 0 seed_time 0 [] random (omega arith) in
    (time ++ random, ground arith, valid, rw (valid, Digits-upper _ digits) (read ∙ done))
