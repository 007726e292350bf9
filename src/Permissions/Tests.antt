-- ===== src/Permissions/Tests.antt =====
-- The theorems on packages/permissions/src/core/default-permission-manager.ts at concrete calls, with a
-- storage that is a list of policies.
mod Resolution
use ai_desktop.Base.{
  trim, ◌≡◌, refl, ◌⊎◌, inl, true, false, not, Bool, Option, none, some, List, [], ◌∷◌, ◌++◌, Text,
  codes, filter, count, includes, text_eq,
}
use ai_desktop.Base.Dict
use ai_desktop.Ids.{is_ulid, in_class, to_upper, upper_unit, index_of, index_in}
use ai_desktop.Permissions.Policy.{
  RiskLevel, PermissionStatus, PermissionScope, Decision, PermissionPolicy, PermissionCheck,
  matches_policy, capability_matches, action_matches, pattern_matches, resource_matches,
  not_expired, evaluate_from, evaluate,
}
use ai_desktop.Permissions.Policy.Precedence.{find_deny}
use ai_desktop.Permissions.Repository.{PermissionRepository}
use ai_desktop.Permissions.Manager.{
  PermissionRequest, Env, CheckPermissionOptions, PermissionManager, PermissionDecisionResult,
  decided, parse_check, all_once_authorized, list_active_policies, check_permission, check_parsed,
  check_policies, alive, ask_user, open_batch, new_request, record_audit, emit,
}
use ai_desktop.Permissions.Manager.Checkpoint.{
  AllowedByRules, Covers, check_permission-allow, check_permission-asks,
}
use ai_desktop.Permissions.Manager.Once.{check_permission-once}
use ai_desktop.Permissions.Resolution.{
  UserApprovalMode, ResolvePermissionInput, RevokeScope, RevokePermissionInput, resolved, resolve,
  revoke, revoke_matches, settle_request, settle_applied_request, apply_grant, apply_denial,
  keep_denial, store_denial, push_session, policy_changed, close_request, decision_policy,
}
use ai_desktop.Permissions.Resolution.Settle.{resolve_twice}
use ai_desktop.Permissions.Resolution.Revoke.{revoke-count}
use ai_desktop.Permissions.Resolution.Grants.{
  Decides, SameOperation, check_permission-allow_once, check_permission-allow_session,
  check_permission-deny,
}

abbrev in_memory : PermissionRepository (List PermissionPolicy)
in_memory = record {
  save_policy = λ p s. some (s ++ p ∷ []);
  find_policies = λ p s. some s;
  delete_policies_by_criteria = λ c p r s. some (filter (λ q. not (text_eq q.capability c)) s, 0);
  record_audit = λ a s. some s;
}

abbrev call_id : Text
call_id = codes "01ARZ3NDEKTSV4RRFFQ69G5FAV"

abbrev write_check : PermissionCheck
write_check = record {
  capability = codes "network";
  action = codes "get";
  resource = codes "example.org";
  scope = PermissionScope.once;
  risk = RiskLevel.low;
  related_tool_call_ids = call_id ∷ [];
  reason = none;
}

abbrev session_rule : Decision → PermissionPolicy
session_rule decision = record {
  id = codes "p1";
  project_id = none;
  capability = codes "network";
  action = none;
  resource_pattern = none;
  decision = decision;
  scope = PermissionScope.session;
  created_at = 1;
  updated_at = 1;
  expires_at = none;
}

abbrev at_seven : Env
at_seven = record {
  request_id = codes "r1";
  policy_id = codes "p9";
  audit_id = codes "a1";
  listed_at = 7;
  matched_at = 7;
  stamped_at = 7;
  audited_at = 7;
}

abbrev no_options : CheckPermissionOptions
no_options = record { project_id = none; conversation_id = none; batch_id = none }

abbrev manager :
    Option (List PermissionPolicy)
    → List PermissionPolicy
    → List Text
    → PermissionManager (List PermissionPolicy)
manager storage rules once = record {
  storage = storage;
  has_sink = true;
  pending_requests = [];
  session_policies = rules;
  once_approvals = once;
  coalesced_batches = [];
  events = [];
}

abbrev open_request : PermissionRequest
open_request = record {
  id = codes "r1";
  related_tool_call_ids = call_id ∷ [];
  capability = codes "network";
  action = codes "get";
  resource = codes "example.org";
  scope = PermissionScope.once;
  risk = RiskLevel.low;
  status = PermissionStatus.pending;
  reason = none;
  created_at = 7;
  project_id = none;
  conversation_id = none;
}

abbrev waiting : PermissionManager (List PermissionPolicy)
waiting = record (manager none [] []) { pending_requests = (codes "r1", open_request) ∷ [] }

abbrev decision_of : Bool → UserApprovalMode → ResolvePermissionInput
decision_of granted mode = record {
  request_id = codes "r1";
  is_granted = granted;
  mode = mode;
  reason = none;
}

abbrev allowing : PermissionManager (List PermissionPolicy)
allowing = manager (some []) (session_rule Decision.allow ∷ []) []

write_check-parsed : parse_check write_check ≡ some write_check
unfolding parse_check is_ulid in_class to_upper upper_unit index_of index_in trim
write_check-parsed = refl

allowed_now :
    (check_permission in_memory at_seven no_options write_check allowing).1
    ≡ decided PermissionDecisionResult.allow
unfolding check_permission check_parsed check_policies all_once_authorized list_active_policies
    alive evaluate evaluate_from matches_policy capability_matches action_matches resource_matches
    not_expired parse_check is_ulid in_class to_upper upper_unit index_of index_in trim includes
    text_eq
allowed_now = refl

check_permission-allow_example :
    (check : PermissionCheck) × (parse_check write_check ≡ some check)
    × ((all_once_authorized check allowing ≡ true)
        ⊎ AllowedByRules in_memory at_seven no_options allowing check)
check_permission-allow_example =
    check_permission-allow in_memory at_seven no_options allowing write_check allowed_now

asked_now :
    (check_permission in_memory at_seven no_options write_check (manager (some []) [] [])).1
    ≡ decided (PermissionDecisionResult.requires_user open_request)
unfolding check_permission check_parsed check_policies all_once_authorized list_active_policies
    alive evaluate evaluate_from matches_policy capability_matches action_matches resource_matches
    not_expired parse_check is_ulid in_class to_upper upper_unit index_of index_in trim includes
    text_eq ask_user new_request open_batch
asked_now = refl

check_permission-asks_example :
    let m' =
      (check_permission in_memory at_seven no_options write_check (manager (some []) [] [])).0 in
    (check : PermissionCheck) × (parse_check write_check ≡ some check)
    × (Dict.get (codes "r1") m'.pending_requests ≡ some open_request)
    × Covers in_memory at_seven no_options (manager (some []) [] []) check open_request
check_permission-asks_example =
    check_permission-asks in_memory at_seven no_options (manager (some []) [] []) write_check
      {r = open_request} asked_now

once_granted_now :
    all_once_authorized write_check (manager none (session_rule Decision.deny ∷ []) (call_id ∷ []))
    ≡ true
unfolding all_once_authorized includes text_eq
once_granted_now = refl

shared : includes (call_id ∷ []) call_id ≡ true
unfolding includes text_eq
shared = refl

check_permission-once_example :
    let (m', result) =
      check_permission in_memory at_seven no_options write_check
        (manager none (session_rule Decision.deny ∷ []) (call_id ∷ [])) in
    (result ≡ decided PermissionDecisionResult.allow)
    × (check_permission in_memory at_seven no_options write_check m'
        ≡ check_policies in_memory at_seven no_options write_check m')
check_permission-once_example =
    check_permission-once in_memory at_seven at_seven no_options no_options write_check write_check
      (manager none (session_rule Decision.deny ∷ []) (call_id ∷ [])) write_check-parsed
      write_check-parsed once_granted_now (call_id, shared, shared)
