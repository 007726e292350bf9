-- ===== src/Permissions/Policy/Tests.antt =====
-- The theorems on packages/permissions/src/core at concrete policies and checks.
use ai_desktop.Base.{◌≡◌, none, some, [], ◌∷◌, Text, codes}
use ai_desktop.Permissions.Policy.{
  RiskLevel, PermissionScope, Decision, PermissionPolicy, PermissionCheck, evaluate,
}
use ai_desktop.Permissions.Policy.Matching.{}
use ai_desktop.Permissions.Policy.Precedence.{find_deny, some_match, verdict, evaluate-verdict}

abbrev read_check : PermissionCheck
read_check = record {
  capability = codes "filesystem";
  action = codes "read";
  resource = codes "/home/a";
  scope = PermissionScope.once;
  risk = RiskLevel.low;
  related_tool_call_ids = codes "01ARZ3NDEKTSV4RRFFQ69G5FAV" ∷ [];
  reason = none;
}

abbrev read_policy : Decision → Text → PermissionPolicy
read_policy decision id = record {
  id = id;
  project_id = none;
  capability = codes "filesystem";
  action = some (codes "read");
  resource_pattern = some (codes "/home/a");
  decision = decision;
  scope = PermissionScope.session;
  created_at = 1;
  updated_at = 1;
  expires_at = none;
}

abbrev grant : PermissionPolicy
grant = read_policy Decision.allow (codes "p1")

abbrev denial : PermissionPolicy
denial = read_policy Decision.deny (codes "p2")

evaluate-verdict_example :
    evaluate 7 read_check (grant ∷ denial ∷ [])
    ≡ verdict
        (find_deny 7 read_check (grant ∷ denial ∷ []))
        (some_match 7 read_check (grant ∷ denial ∷ []))
evaluate-verdict_example = evaluate-verdict 7 read_check (grant ∷ denial ∷ [])
