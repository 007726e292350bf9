-- ===== src/Permissions/Resolution.antt =====
-- packages/permissions/src/core/default-permission-manager.ts: `resolve` and `revoke`, what the user
-- decides.
pub mod Settle
pub mod Revoke
pub mod Grants
use ai_desktop.Base.{
  ℕ, suc, ◌+◌, Bool, true, false, ◌&&◌, Option, none, some, List, [], ◌∷◌, ◌++◌, Text,
  if◌then◌else◌, text_eq, is_set, opt_eq,
}
use ai_desktop.Base.Dict
use ai_desktop.Permissions.Policy.{
  Decision, PermissionStatus, PermissionScope, PermissionPolicy, PermissionCheck,
}
use ai_desktop.Permissions.Repository.{AuditDecision, DecidedBy, Audit, PermissionRepository}
use ai_desktop.Permissions.Manager.{
  PermissionRequest, PermissionEvent, Env, PermissionManager, add_all, emit, record_audit,
}

pub data UserApprovalMode : Type 0 where
  allow_once allow_session allow_project deny : UserApprovalMode

pub record ResolvePermissionInput : Type 0 where
  pub request_id : Text
  pub is_granted : Bool
  pub mode : UserApprovalMode
  pub reason : Option Text

pub data RevokeScope : Type 0 where
  session project : RevokeScope

pub record RevokePermissionInput : Type 0 where
  pub capability : Text
  pub project_id : Option Text
  pub resource_pattern : Option Text
  pub scope : Option RevokeScope

-- `rejected` is the promise that a StorageError rejects.
pub data Settled {ℓ} (A : Type ℓ) : Type ℓ where
  resolved : A → Settled A
  rejected : Settled A

-- The policy that a decision about a request creates.
unfoldable pub decision_policy :
    Env → PermissionRequest → Decision → PermissionScope → PermissionPolicy
decision_policy env request decision scope = record {
  id = env.policy_id;
  project_id = request.project_id;
  capability = request.capability;
  action = some request.action;
  resource_pattern = some request.resource;
  decision = decision;
  scope = scope;
  created_at = env.stamped_at;
  updated_at = env.stamped_at;
  expires_at = none;
}

-- The check that the audit of a decision shows.
unfoldable pub request_check : PermissionRequest → PermissionCheck
request_check request = record {
  capability = request.capability;
  action = request.action;
  resource = request.resource;
  scope = request.scope;
  risk = request.risk;
  related_tool_call_ids = request.related_tool_call_ids;
  reason = none;
}

abbrev pub is_pending : PermissionStatus → Bool
is_pending PermissionStatus.pending = true
is_pending _ = false

-- `!input.f || policy.f === input.f`.
abbrev unless_given : Option Text → Option Text → Bool
unless_given none given = true
unless_given (some []) given = true
unless_given (some (c ∷ f)) given = opt_eq given (some (c ∷ f))

unfoldable pub revoke_matches : RevokePermissionInput → PermissionPolicy → Bool
revoke_matches input policy =
    text_eq policy.capability input.capability
    && unless_given input.project_id policy.project_id
    && unless_given input.resource_pattern policy.resource_pattern

-- The loop over `_sessionPolicies`: what stays, and how many went.
unfoldable pub revoke_session :
    RevokePermissionInput → List PermissionPolicy → List PermissionPolicy × ℕ
revoke_session input [] = ([], 0)
revoke_session input (policy ∷ policies) =
    let (kept, n) = revoke_session input policies in
    if revoke_matches input policy then (kept, suc n) else (policy ∷ kept, n)

-- `!input.scope || input.scope === "project"`.
abbrev pub reaches_storage : Option RevokeScope → Bool
reaches_storage none = true
reaches_storage (some RevokeScope.project) = true
reaches_storage (some RevokeScope.session) = false

module _ {S : Type 0} where
  unfoldable pub push_session : PermissionPolicy → PermissionManager S → PermissionManager S
  push_session policy m = record m { session_policies = m.session_policies ++ policy ∷ [] }

  unfoldable pub policy_changed :
      Text → Option PermissionScope → PermissionManager S → PermissionManager S
  policy_changed capability scope m = emit (PermissionEvent.policy_created capability scope) m

  module _ (repo : PermissionRepository S) where
    -- `none` is a StorageError.
    unfoldable pub save_policy :
        PermissionPolicy → PermissionManager S → Option (PermissionManager S)
    save_policy policy m = elim m.storage [
      | none ↦ some m
      | some s ↦ elim (repo.save_policy policy s) [
        | none ↦ none
        | some s' ↦ some (record m { storage = some s' })
      ]
    ]

    module _ (env : Env) (request : PermissionRequest) where
      unfoldable pub apply_grant :
          UserApprovalMode → PermissionManager S → Option (PermissionManager S)
      apply_grant UserApprovalMode.allow_once m =
          some
            (record m { once_approvals = add_all request.related_tool_call_ids m.once_approvals })
      apply_grant UserApprovalMode.allow_session m = some (
          policy_changed request.capability (some PermissionScope.session)
            (push_session (decision_policy env request Decision.allow PermissionScope.session) m))
      apply_grant UserApprovalMode.allow_project m =
          elim (save_policy (decision_policy env request Decision.allow PermissionScope.project)
            m) [
              | none ↦ none
              | some m' ↦ some (policy_changed request.capability (some PermissionScope.project) m')
            ]
      apply_grant UserApprovalMode.deny m = some m

      -- With a project and a storage the denial is stored, else it lasts for the session.
      unfoldable pub store_denial : PermissionManager S → Option (PermissionManager S)
      store_denial m =
          let in_session =
            push_session (decision_policy env request Decision.deny PermissionScope.session) m in
          elim m.storage [
            | none ↦ some in_session
            | some s ↦
                if is_set request.project_id
                then save_policy (decision_policy env request Decision.deny PermissionScope.project)
                    m
                else some in_session
          ]

      unfoldable pub keep_denial : PermissionManager S → Option (PermissionManager S)
      keep_denial m = elim (store_denial m) [
        | none ↦ none
        | some m' ↦ some (policy_changed request.capability none m')
      ]

      unfoldable pub apply_denial :
          UserApprovalMode → PermissionManager S → Option (PermissionManager S)
      apply_denial UserApprovalMode.allow_project m = keep_denial m
      apply_denial UserApprovalMode.deny m = keep_denial m
      apply_denial UserApprovalMode.allow_once m = some m
      apply_denial UserApprovalMode.allow_session m = some m

    -- The audit and the event that close a request.
    unfoldable pub close_request :
        Env → ResolvePermissionInput → PermissionRequest → PermissionManager S → PermissionManager S
    close_request env input request m =
        let audit : Audit = record {
          id = env.audit_id;
          project_id = request.project_id;
          conversation_id = request.conversation_id;
          permission_request_id = some request.id;
          check = request_check request;
          decision = if input.is_granted then AuditDecision.allow else AuditDecision.deny;
          decided_by = DecidedBy.user;
          reason = input.reason;
          timestamp = env.audited_at;
        } in
        let event =
          if input.is_granted
          then PermissionEvent.granted request.id request.scope input.reason
          else PermissionEvent.denied request.id input.reason in
        emit event (record_audit repo audit m)

    -- `none` is a StorageError that the decision met.
    unfoldable pub settle_applied_request :
        Env
        → ResolvePermissionInput
        → PermissionRequest
        → PermissionManager S
        → Option (PermissionManager S)
        → PermissionManager S × Settled Bool
    settle_applied_request env input request m none = (m, rejected)
    settle_applied_request env input request m (some m') =
        (close_request env input request m', resolved true)

    unfoldable pub settle_request :
        Env
        → ResolvePermissionInput
        → PermissionRequest
        → PermissionManager S
        → PermissionManager S × Settled Bool
    settle_request env input request m =
        let m' = record m { pending_requests = Dict.delete input.request_id m.pending_requests } in
        settle_applied_request env input request m' (
          if input.is_granted
          then apply_grant env request input.mode m'
          else apply_denial env request input.mode m')

    unfoldable pub resolve :
        Env → ResolvePermissionInput → PermissionManager S → PermissionManager S × Settled Bool
    resolve env input m = elim (Dict.get input.request_id m.pending_requests) [
      | none ↦ (m, resolved false)
      | some request ↦
          if is_pending request.status
          then settle_request env input request m
          else (m, resolved false)
    ]

    -- The events of a revocation of `n` policies.
    unfoldable pub close_revoke :
        RevokePermissionInput → ℕ → PermissionManager S → PermissionManager S × Settled ℕ
    close_revoke input n m = (
      emit (PermissionEvent.policy_deleted input.capability none)
          (emit (PermissionEvent.revoked input.capability input.resource_pattern) m),
      resolved n,
    )

    unfoldable pub revoke :
        RevokePermissionInput → PermissionManager S → PermissionManager S × Settled ℕ
    revoke input m =
        let (kept, n) = revoke_session input m.session_policies in
        let m' = record m { session_policies = kept } in
        elim m.storage [
          | none ↦ close_revoke input n m'
          | some s ↦
              if reaches_storage input.scope
              then elim (repo.delete_policies_by_criteria input.capability input.project_id
                  input.resource_pattern s) [
                    | none ↦ (m', rejected)
                    | some (s', k) ↦ close_revoke input (n + k) (record m' { storage = some s' })
                  ]
              else close_revoke input n m'
        ]
