-- ===== src/Sync/Payload/Fields.antt =====
-- The fields of a JSON object, and the payload of a schedule that comes in.
use ai_desktop.Base.{
  ◌≡◌, ◌∙◌, false, none, some, Text, codes, text_eq, text_eq_iff, arith, if◌then◌else◌,
}
use ai_desktop.Sync.Payload.{
  JsonValue, JsonFields, boolean, no_fields, field, get_field, without_field, set_field,
}

get_field-without_field :
    (k j : Text) (fs : JsonFields)
    → get_field j (without_field k fs) ≡ (if text_eq k j then none else get_field j fs)
unfolding get_field without_field
get_field-without_field k j no_fields = ground arith
get_field-without_field k j (field i v fs) =
    ground
      (arith, text_eq_iff k j, text_eq_iff i k, text_eq_iff i j, get_field-without_field k j fs)

get_field-set_field :
    (k j : Text) (w : JsonValue) (fs : JsonFields)
    → get_field j (set_field k w fs) ≡ (if text_eq k j then some w else get_field j fs)
unfolding get_field set_field
get_field-set_field k j w no_fields = ground arith
get_field-set_field k j w (field i v fs) =
    ground (arith, text_eq_iff k j, text_eq_iff i k, text_eq_iff i j, get_field-set_field k j w fs)

-- An object that is switched off and has no runs.
abbrev pub IsInert : JsonFields → Type 0
IsInert fs =
    (get_field (codes "enabled") fs ≡ some (boolean false))
    × (get_field (codes "runs") fs ≡ none)
    × (get_field (codes "executions") fs ≡ none)

pub set_field-IsInert :
    (fs : JsonFields)
    → IsInert (
        set_field
          (codes "enabled")
          (boolean false)
          (without_field (codes "executions") (without_field (codes "runs") fs)))
unfolding text_eq
set_field-IsInert fs =
    let clean = without_field (codes "executions") (without_field (codes "runs") fs) in
    let off = boolean false in
    (
      get_field-set_field (codes "enabled") (codes "enabled") off clean,
      get_field-set_field (codes "enabled") (codes "runs") off clean
          ∙ get_field-without_field (codes "executions") (codes "runs")
              (without_field (codes "runs") fs)
          ∙ get_field-without_field (codes "runs") (codes "runs") fs,
      get_field-set_field (codes "enabled") (codes "executions") off clean
          ∙ get_field-without_field (codes "executions") (codes "executions")
              (without_field (codes "runs") fs),
    )
