-- ===== src/Permissions/Tests/Resolution.antt =====
-- The theorems on `resolve` and `revoke` of default-permission-manager.ts at concrete calls.
use ai_desktop.Base.{
  ◌≡◌, refl, true, false, Bool, none, some, List, [], ◌∷◌, Text, codes, includes, text_eq,
}
use ai_desktop.Base.Dict
use ai_desktop.Permissions.Policy.{
  Decision, PermissionPolicy, matches_policy, capability_matches, action_matches, pattern_matches,
  resource_matches, not_expired,
}
use ai_desktop.Permissions.Policy.Precedence.{find_deny}
use ai_desktop.Permissions.Manager.{
  PermissionManager, PermissionDecisionResult, decided, all_once_authorized, list_active_policies,
  check_permission, alive, record_audit, emit,
}
use ai_desktop.Permissions.Manager.Checkpoint.{}
use ai_desktop.Permissions.Resolution.{
  UserApprovalMode, RevokeScope, RevokePermissionInput, resolved, resolve, settle_request,
  settle_applied_request, apply_grant, apply_denial, keep_denial, store_denial, push_session,
  policy_changed, close_request, decision_policy,
}
use ai_desktop.Permissions.Resolution.Settle.{resolve_twice}
use ai_desktop.Permissions.Resolution.Grants.{
  Decides, SameOperation, check_permission-allow_once, check_permission-allow_session,
  check_permission-deny,
}
use ai_desktop.Permissions.Tests.{
  in_memory, write_check, session_rule, at_seven, no_options, open_request, waiting, decision_of,
  write_check-parsed,
}

resolve_twice_example :
    let m' =
      (resolve in_memory at_seven (decision_of true UserApprovalMode.allow_once) waiting).0 in
    resolve in_memory at_seven (decision_of false UserApprovalMode.deny) m' ≡ (m', resolved false)
resolve_twice_example =
    resolve_twice in_memory at_seven at_seven (decision_of true UserApprovalMode.allow_once)
      (decision_of false UserApprovalMode.deny) waiting refl

abbrev revocation : RevokePermissionInput
revocation = record {
  capability = codes "network";
  project_id = none;
  resource_pattern = none;
  scope = some RevokeScope.project;
}

decides :
    (granted : Bool) (mode : UserApprovalMode)
    → Decides waiting (decision_of granted mode) open_request granted mode
unfolding Dict.get text_eq
decides granted mode = record { on_record = refl; is_open = refl; decision = refl; chosen = refl }

same_operation : SameOperation open_request write_check
same_operation = record { capability = refl; action = refl; resource = refl }

check_permission-allow_once_example :
    let m' =
      (resolve in_memory at_seven (decision_of true UserApprovalMode.allow_once) waiting).0 in
    (check_permission in_memory at_seven no_options write_check m').1
    ≡ decided PermissionDecisionResult.allow
check_permission-allow_once_example =
    check_permission-allow_once in_memory at_seven (decision_of true UserApprovalMode.allow_once)
      waiting open_request at_seven no_options write_check
      (decides true UserApprovalMode.allow_once) write_check-parsed (λ x h. h)

abbrev after_session : PermissionManager (List PermissionPolicy)
after_session =
    (resolve in_memory at_seven (decision_of true UserApprovalMode.allow_session) waiting).0

abbrev kept_policy : Decision → PermissionPolicy
kept_policy d = record (session_rule d) {
  id = codes "p9";
  action = some (codes "get");
  resource_pattern = some (codes "example.org");
  created_at = 7;
  updated_at = 7;
}

session_listed :
    list_active_policies in_memory 7 none after_session ≡ some (kept_policy Decision.allow ∷ [])
unfolding resolve settle_request settle_applied_request apply_grant push_session policy_changed
    close_request record_audit emit list_active_policies alive decision_policy Dict.get text_eq
session_listed = refl

no_denial_now : find_deny 7 write_check (kept_policy Decision.allow ∷ []) ≡ none
unfolding find_deny matches_policy capability_matches action_matches resource_matches not_expired
    pattern_matches text_eq
no_denial_now = refl

check_permission-allow_session_example :
    (check_permission in_memory at_seven no_options write_check after_session).1
    ≡ decided PermissionDecisionResult.allow
check_permission-allow_session_example =
    check_permission-allow_session in_memory at_seven
      (decision_of true UserApprovalMode.allow_session) waiting open_request at_seven no_options
      write_check (decides true UserApprovalMode.allow_session) write_check-parsed same_operation
      session_listed no_denial_now

abbrev after_denial : PermissionManager (List PermissionPolicy)
after_denial = (resolve in_memory at_seven (decision_of false UserApprovalMode.deny) waiting).0

denial_listed :
    list_active_policies in_memory 7 none after_denial ≡ some (kept_policy Decision.deny ∷ [])
unfolding resolve settle_request settle_applied_request apply_denial keep_denial store_denial
    push_session policy_changed close_request record_audit emit list_active_policies alive
    decision_policy Dict.get text_eq
denial_listed = refl

no_once_left : all_once_authorized write_check after_denial ≡ false
unfolding resolve settle_request settle_applied_request apply_denial keep_denial store_denial
    push_session policy_changed close_request record_audit emit all_once_authorized Dict.get text_eq
    includes
no_once_left = refl

check_permission-deny_example :
    (rule : Text) × ((check_permission in_memory at_seven no_options write_check after_denial).1
      ≡ decided (PermissionDecisionResult.deny rule))
check_permission-deny_example =
    check_permission-deny in_memory at_seven (decision_of false UserApprovalMode.deny) waiting
      open_request at_seven no_options write_check (decides false UserApprovalMode.deny) refl
      write_check-parsed same_operation no_once_left denial_listed
