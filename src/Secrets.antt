-- ===== src/Secrets.antt =====
-- packages/ai-core/src/background-tasks.ts, `assertNoSecrets`: the guard before anything is stored. It
-- searches the JSON form of a text, so escapes are written out.
use ai_desktop.Base.{
  ℕ, ◌+◌, ◌/◌, ◌%◌, Bool, false, not, Option, none, some, ◌&&◌, ◌||◌, List, [], ◌∷◌, ◌++◌, map,
  Text, codes, any, leb, ltb, ◌==◌, if◌then◌else◌, starts_with,
}

-- Case folding of the `i` flag; the keywords are ASCII.
pub lower_unit : ℕ → ℕ
lower_unit c = if leb b'A' c && leb c b'Z' then c + 32 else c

hex_digit : ℕ → ℕ
hex_digit d = if ltb d 10 then 48 + d else 87 + d

-- One code unit inside `JSON.stringify` of a string.
escape_unit : ℕ → Text
escape_unit c =
    if c == 34 || c == 92
    then 92 ∷ c ∷ []
    else (if c == 8
        then codes "\\b"
        else (if c == 9
            then codes "\\t"
            else (if c == 10
                then codes "\\n"
                else (if c == 12
                    then codes "\\f"
                    else (if c == 13
                        then codes "\\r"
                        else (if ltb c 32
                            then codes "\\u00" ++ (hex_digit (c / 16) ∷ hex_digit (c % 16) ∷ [])
                            else c ∷ []))))))

is_high : ℕ → Bool
is_high c = leb 55296 c && leb c 56319

is_low : ℕ → Bool
is_low c = leb 56320 c && leb c 57343

abbrev starts_low : Text → Bool
starts_low [] = false
starts_low (c ∷ s) = is_low c

-- A surrogate that stands alone is escaped.
escape_lone : ℕ → Text
escape_lone c =
    codes "\\u"
    ++ (hex_digit (c / 4096)
        ∷ hex_digit (c / 256 % 16)
        ∷ hex_digit (c / 16 % 16)
        ∷ hex_digit (c % 16)
        ∷ [])

-- `closes` is set on the second unit of a surrogate pair; both units of a pair are left as they are.
escape_units : Bool → Text → Text
escape_units closes [] = []
escape_units closes (c ∷ s) =
    let opens = not closes && is_high c && starts_low s in
    let rest = escape_units opens s in
    (if closes || opens
      then c ∷ []
      else (if is_high c || is_low c then escape_lone c else escape_unit c))
    ++ rest

stringify : Text → Text
unfolding escape_units escape_unit escape_lone hex_digit is_high is_low
stringify s = 34 ∷ escape_units false s ++ (34 ∷ [])

-- `SECRET_KEYS_PATTERN`: `api[_-]?key` is three of these.
abbrev keywords : List Text
keywords =
    codes "apikey"
    ∷ codes "api_key"
    ∷ codes "api-key"
    ∷ codes "oauth"
    ∷ codes "token"
    ∷ codes "secret"
    ∷ codes "password"
    ∷ codes "credential"
    ∷ codes "authorization"
    ∷ []

keyword_here : Text → Bool
keyword_here s = any (λ k. starts_with s k) keywords

-- Whether the pattern matches anywhere.
pattern_test : Text → Bool
pattern_test [] = false
pattern_test (c ∷ s) = keyword_here (c ∷ s) || pattern_test s

-- `assertNoSecrets` throws.
unfoldable pub has_secrets : Text → Bool
unfolding stringify pattern_test keyword_here lower_unit starts_with
has_secrets value = pattern_test (map lower_unit (stringify value))

-- The guard on a field that may be absent.
unfoldable pub field_has_secrets : Option Text → Bool
field_has_secrets none = false
field_has_secrets (some s) = has_secrets s

-- `assertNoSecrets` throws at a value that is not a string, by its JSON text.
unfoldable pub json_has_secrets : Text → Bool
unfolding pattern_test keyword_here lower_unit starts_with
json_has_secrets json = pattern_test (map lower_unit json)
