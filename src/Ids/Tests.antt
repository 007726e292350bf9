-- ===== src/Ids/Tests.antt =====
-- The theorems on packages/shared/src/ids.ts at concrete ids.
use ai_desktop.Base.{ℕ, ◌≡◌, refl, true, some, List, [], ◌∷◌, Text, codes, arith}
use ai_desktop.Ids.{generate_ulid, is_ulid, get_ulid_timestamp}
use ai_desktop.Ids.Timestamp.{get_ulid_timestamp-generate_ulid}

abbrev sixteen_bytes : List ℕ
sixteen_bytes = 0 ∷ 31 ∷ 32 ∷ 255 ∷ 7 ∷ 8 ∷ 9 ∷ 10 ∷ 11 ∷ 12 ∷ 13 ∷ 14 ∷ 15 ∷ 16 ∷ 17 ∷ 18 ∷ []

abbrev lower_id : Text
lower_id = codes "01arz3ndektsv4rrffq69g5fav"

get_ulid_timestamp-generate_ulid_example :
    (ulid : Text) × (generate_ulid 1469918176385 sixteen_bytes ≡ some ulid)
    × (is_ulid ulid ≡ true)
    × (get_ulid_timestamp ulid ≡ some 1469918176385)
get_ulid_timestamp-generate_ulid_example =
    get_ulid_timestamp-generate_ulid 1469918176385 sixteen_bytes (omega arith) refl
