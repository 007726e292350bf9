-- ===== src/Permissions/Policy.antt =====
-- packages/permissions/src/core/permission-policy.ts and policy-evaluator.ts, with the contracts of
-- packages/ai-core/src/permissions.ts. `Date.now()` is an argument.
pub mod Matching
pub mod Precedence
mod Tests
use ai_desktop.Base.{
  ℕ, Bool, true, false, ◌&&◌, ◌||◌, Option, none, some, List, [], ◌∷◌, ◌++◌, map, Text, codes,
  length, get_elem?, ltb, leb, ◌==◌, if◌then◌else◌, text_eq, starts_with, is_set, trim,
}

pub data RiskLevel : Type 0 where
  low medium high critical : RiskLevel

pub data PermissionStatus : Type 0 where
  pending granted denied expired : PermissionStatus

pub data PermissionScope : Type 0 where
  once session workspace project always : PermissionScope

pub data Decision : Type 0 where
  allow deny : Decision

pub record PermissionPolicy : Type 0 where
  pub id : Text
  pub project_id : Option Text
  pub capability : Text
  pub action : Option Text
  pub resource_pattern : Option Text
  pub decision : Decision
  pub scope : PermissionScope
  pub created_at : ℕ
  pub updated_at : ℕ
  pub expires_at : Option ℕ

pub record PermissionCheck : Type 0 where
  pub capability : Text
  pub action : Text
  pub resource : Text
  pub scope : PermissionScope
  pub risk : RiskLevel
  pub related_tool_call_ids : List Text
  pub reason : Option Text

abbrev pub star : Text
star = codes "*"

abbrev pub filesystem : Text
filesystem = codes "filesystem"

abbrev pub execution : Text
execution = codes "execution"

abbrev pub slash : ℕ
slash = b'/'

abbrev pub space : ℕ
space = 32

-- `p.replace(/\\/g, "/")`.
unfoldable pub forward_slashes : Text → Text
forward_slashes p = map (λ c. if c == 92 then slash else c) p

-- `s.endsWith("/")`.
unfoldable pub ends_with_slash : Text → Bool
ends_with_slash [] = false
ends_with_slash (c ∷ []) = c == slash
ends_with_slash (c ∷ d ∷ s) = ends_with_slash (d ∷ s)

-- `s.slice(0, -1)`.
unfoldable pub drop_last : Text → Text
drop_last [] = []
drop_last (c ∷ []) = []
drop_last (c ∷ d ∷ s) = c ∷ drop_last (d ∷ s)

unfoldable pub normalize_path : Text → Text
normalize_path p =
    let forward = forward_slashes p in
    if ltb 1 (length forward) && ends_with_slash forward then drop_last forward else forward

unfoldable pub matches_filesystem_path : Text → Text → Bool
matches_filesystem_path pattern resource =
    let norm_pattern = normalize_path pattern in
    let norm_resource = normalize_path resource in
    if text_eq norm_pattern star || text_eq norm_pattern norm_resource
    then true
    else starts_with norm_resource (norm_pattern ++ slash ∷ [])

-- `nextChar === " " || nextChar === undefined`.
abbrev pub at_boundary : Option ℕ → Bool
at_boundary none = true
at_boundary (some c) = c == space

unfoldable pub matches_execution_command : Text → Text → Bool
matches_execution_command pattern resource =
    let trimmed_pattern = trim pattern in
    let trimmed_resource = trim resource in
    if text_eq trimmed_pattern star || text_eq trimmed_pattern trimmed_resource
    then true
    else (if starts_with trimmed_resource trimmed_pattern
        then at_boundary (get_elem? trimmed_resource (length trimmed_pattern))
        else false)

-- Guard 1 of `matchesPolicy`.
unfoldable pub capability_matches : PermissionPolicy → PermissionCheck → Bool
capability_matches policy check =
    text_eq policy.capability star || text_eq policy.capability check.capability

-- Guard 2: an action that is absent or empty matches any.
abbrev action_ok : Option Text → Text → Bool
action_ok none action = true
action_ok (some []) action = true
action_ok (some (c ∷ a)) action = text_eq (c ∷ a) star || text_eq (c ∷ a) action

unfoldable pub action_matches : PermissionPolicy → PermissionCheck → Bool
action_matches policy check = action_ok policy.action check.action

-- The domain of the capability decides how a pattern is read.
unfoldable pub pattern_matches : Text → PermissionCheck → Bool
pattern_matches pattern check =
    if text_eq check.capability filesystem
    then matches_filesystem_path pattern check.resource
    else (if text_eq check.capability execution
        then matches_execution_command pattern check.resource
        else text_eq pattern check.resource || starts_with check.resource pattern)

-- Guard 3.
abbrev pattern_ok : Option Text → PermissionCheck → Bool
pattern_ok none check = true
pattern_ok (some []) check = true
pattern_ok (some (c ∷ p)) check =
    if text_eq (c ∷ p) star
    then true
    else (if is_set (some check.resource) then pattern_matches (c ∷ p) check else false)

unfoldable pub resource_matches : PermissionPolicy → PermissionCheck → Bool
resource_matches policy check = pattern_ok policy.resource_pattern check

-- Guard 4: an expiry of 0 is none.
abbrev in_time : Option ℕ → ℕ → Bool
in_time none now = true
in_time (some t) now = t == 0 || leb now t

unfoldable pub not_expired : PermissionPolicy → ℕ → Bool
not_expired policy now = in_time policy.expires_at now

unfoldable pub matches_policy : ℕ → PermissionPolicy → PermissionCheck → Bool
matches_policy now policy check =
    capability_matches policy check
    && action_matches policy check
    && resource_matches policy check
    && not_expired policy now

-- The result of the evaluator; a denial carries the id of the rule for its reason.
pub data Evaluation : Type 0 where
  allow : Evaluation
  deny : Text → Evaluation
  requires_user : Evaluation

-- The loop of `evaluate`; the flag is `matchedAllow` being set.
unfoldable pub evaluate_from : ℕ → PermissionCheck → Bool → List PermissionPolicy → Evaluation
evaluate_from now check matched_allow [] =
    if matched_allow then Evaluation.allow else Evaluation.requires_user
evaluate_from now check matched_allow (policy ∷ policies) =
    let skip = evaluate_from now check matched_allow policies in
    let keep = evaluate_from now check true policies in
    if matches_policy now policy check
    then elim policy.decision [ Decision.deny ↦ Evaluation.deny policy.id | Decision.allow ↦ keep ]
    else skip

unfoldable pub evaluate : ℕ → PermissionCheck → List PermissionPolicy → Evaluation
unfolding evaluate_from
evaluate now check active_policies = evaluate_from now check false active_policies
