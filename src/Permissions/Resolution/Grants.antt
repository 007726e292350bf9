-- ===== src/Permissions/Resolution/Grants.antt =====
-- What the user's decision means for later checks.
use ai_desktop.Base.{
  ℕ, ◌≡◌, refl, ap, ◌∙◌, Bool, true, false, ◌&&◌, Option, none, some, List, [], ◌∷◌, ◌++◌, Text,
  arith, any, filter, Bool-cases, Option-cases, inl, inr, includes, any-append, any-filter,
}
use ai_desktop.Base.Dict
use ai_desktop.Permissions.Policy.{
  Decision, PermissionScope, PermissionPolicy, PermissionCheck, Evaluation, matches_policy,
  evaluate,
}
use ai_desktop.Permissions.Policy.Matching.{matches_policy_self}
use ai_desktop.Permissions.Policy.Precedence.{
  is_deny, find_deny, some_match, verdict, found, found-find_deny, evaluate-verdict,
}
use ai_desktop.Permissions.Repository.{PermissionRepository}
use ai_desktop.Permissions.Manager.{
  PermissionRequest, Env, CheckPermissionOptions, PermissionManager, PermissionDecisionResult,
  decided, parse_check, alive, add_all, emit, list_active_policies, all_once_authorized,
  check_permission,
}
use ai_desktop.Permissions.Manager.Checkpoint.{policies_allow, policies_deny}
use ai_desktop.Permissions.Manager.Frames.{emit-SameGrants}
use ai_desktop.Permissions.Manager.Once.{
  parse_check-length, all_of_includes, includes-add_all, via_once, via_policies,
}
use ai_desktop.Permissions.Resolution.{
  UserApprovalMode, ResolvePermissionInput, decision_policy, is_pending, resolve, settle_request,
  settle_applied_request, apply_grant, apply_denial, keep_denial, store_denial, push_session,
  policy_changed,
}
use ai_desktop.Permissions.Resolution.Settle.{resolve_open, close_request-SameGrants}

-- The request is on record and the user decides it in this way.
pub record Decides {S : Type 0} (m : PermissionManager S) (input : ResolvePermissionInput)
    (r : PermissionRequest) (g : Bool) (mode : UserApprovalMode) : Type 0 where
  pub on_record : Dict.get input.request_id m.pending_requests ≡ some r
  pub is_open : is_pending r.status ≡ true
  pub decision : input.is_granted ≡ g
  pub chosen : input.mode ≡ mode

-- The check is about the operation that the request names.
pub record SameOperation (r : PermissionRequest) (c : PermissionCheck) : Type 0 where
  pub capability : r.capability ≡ c.capability
  pub action : r.action ≡ c.action
  pub resource : r.resource ≡ c.resource

verdict-found :
    (o : Option PermissionPolicy) (b : Bool)
    → found o ≡ true
    → (p : PermissionPolicy) × (verdict o b ≡ Evaluation.deny p.id)
unfolding found
verdict-found none b h = cc
verdict-found (some p) b h = (p, refl)

module _ {S : Type 0} (repo : PermissionRepository S) where
  listed-any :
      (q : PermissionPolicy → Bool) (now : ℕ) (p : Option Text) (m : PermissionManager S)
      {active : List PermissionPolicy}
      → list_active_policies repo now p m ≡ some active
      → any q (filter (alive now) m.session_policies) ≡ true
      → any q active ≡ true
  unfolding list_active_policies
  listed-any q now p m h a = elim (Option-cases m.storage) [
    | inl e ↦ ground arith
    | inr (s, e) ↦ elim (Option-cases (repo.find_policies p s)) [
      | inl f ↦ absurd (ground arith)
      | inr (stored, f) ↦
          ground (
            arith,
            any-append q (filter (alive now) m.session_policies) (filter (alive now) stored),
          )
    ]
  ]

  -- A session policy that was just pushed is found, if it satisfies the test.
  pushed-any :
      (q : PermissionPolicy → Bool) (now : ℕ) (p : Option Text) (m : PermissionManager S)
      (ps : List PermissionPolicy) (policy : PermissionPolicy) {active : List PermissionPolicy}
      → m.session_policies ≡ ps ++ policy ∷ []
      → list_active_policies repo now p m ≡ some active
      → policy.expires_at ≡ none
      → q policy ≡ true
      → any q active ≡ true
  unfolding alive
  pushed-any q now p m ps policy pushed listed lasting good = listed-any q now p m listed (
      rw pushed (
        any-filter q (alive now) (ps ++ policy ∷ [])
        ∙ any-append (λ x. alive now x && q x) ps (policy ∷ [])
        ∙ ground arith))

  module _ (env : Env) (input : ResolvePermissionInput) (m : PermissionManager S)
      (r : PermissionRequest) where
    once_granted :
        Decides m input r true UserApprovalMode.allow_once
        → (resolve repo env input m).0.once_approvals
          ≡ add_all r.related_tool_call_ids m.once_approvals
    unfolding settle_request settle_applied_request apply_grant
    once_granted d =
        rw
          (
            resolve_open repo env input m r d.on_record d.is_open,
            d.decision,
            settle_request,
            d.chosen,
            apply_grant,
          )
          (close_request-SameGrants repo env _ r _).once

    session_granted :
        Decides m input r true UserApprovalMode.allow_session
        → (resolve repo env input m).0.session_policies
          ≡ m.session_policies ++ decision_policy env r Decision.allow PermissionScope.session ∷ []
    unfolding settle_request settle_applied_request apply_grant push_session policy_changed emit
    session_granted d =
        rw
          (
            resolve_open repo env input m r d.on_record d.is_open,
            d.decision,
            settle_request,
            d.chosen,
            apply_grant,
          )
          ((close_request-SameGrants repo env _ r _).session ∙ (emit-SameGrants _ _).session)

    -- Without a project or a storage a denial is kept for the session.
    session_denied :
        Decides m input r false UserApprovalMode.deny
        → m.storage ≡ none
        → (resolve repo env input m).0.session_policies
          ≡ m.session_policies ++ decision_policy env r Decision.deny PermissionScope.session ∷ []
    unfolding settle_request settle_applied_request apply_denial keep_denial store_denial
        push_session policy_changed
    session_denied d n =
        rw
          (
            resolve_open repo env input m r d.on_record d.is_open,
            d.decision,
            settle_request,
            d.chosen,
            apply_denial,
            n,
            keep_denial,
            store_denial,
          )
          ((close_request-SameGrants repo env _ r _).session ∙ (emit-SameGrants _ _).session)

    own_policy_matches :
        (now : ℕ) (decision : Decision) (scope : PermissionScope) (c : PermissionCheck)
        → SameOperation r c
        → matches_policy now (decision_policy env r decision scope) c ≡ true
    unfolding decision_policy
    own_policy_matches now decision scope c same =
        matches_policy_self now (decision_policy env r decision scope) c same.capability
          (ap some same.action) (ap some same.resource) refl

    -- After `allow_once` a check whose tool calls the request covers is allowed, whatever policies
    -- are in force, denials included.
    pub check_permission-allow_once :
        (env' : Env) (options : CheckPermissionOptions) (request : PermissionCheck)
        {c : PermissionCheck}
        → Decides m input r true UserApprovalMode.allow_once
        → parse_check request ≡ some c
        → ((x : Text)
            → includes c.related_tool_call_ids x ≡ true
            → includes r.related_tool_call_ids x ≡ true)
        → (check_permission repo env' options request (resolve repo env input m).0).1
          ≡ decided PermissionDecisionResult.allow
    unfolding all_once_authorized
    check_permission-allow_once env' options request {c} d parsed covered =
        let m' = (resolve repo env input m).0 in
        let granted = once_granted d in
        let every =
          all_of_includes (λ id. includes m'.once_approvals id) c.related_tool_call_ids
            (λ x h.
              ap (λ o. includes o x) granted
              ∙ includes-add_all r.related_tool_call_ids m.once_approvals x
              ∙ ground (arith, covered x h)) in
        ap (λ t. t.1)
          (via_once repo env' options request m' parsed
            (ground (arith, every, parse_check-length request parsed)))

    -- After `allow_session` a later check of the same operation is allowed, unless it meets a denial
    -- among the policies in force by then; once-grants aside.
    pub check_permission-allow_session :
        (env' : Env) (options : CheckPermissionOptions) (request : PermissionCheck)
        {c : PermissionCheck} {active : List PermissionPolicy}
        → Decides m input r true UserApprovalMode.allow_session
        → parse_check request ≡ some c
        → SameOperation r c
        → list_active_policies repo env'.listed_at options.project_id (resolve repo env input m).0
          ≡ some active
        → find_deny env'.matched_at c active ≡ none
        → (check_permission repo env' options request (resolve repo env input m).0).1
          ≡ decided PermissionDecisionResult.allow
    unfolding decision_policy
    check_permission-allow_session env' options request {c} {active} d parsed same listed
          no_denial =
        let m' = (resolve repo env input m).0 in
        let grants : some_match env'.matched_at c active ≡ true =
          pushed-any (λ p. matches_policy env'.matched_at p c) env'.listed_at options.project_id m'
            m.session_policies _ (session_granted d) listed refl
            (own_policy_matches env'.matched_at Decision.allow PermissionScope.session c same) in
        let allowed : evaluate env'.matched_at c active ≡ Evaluation.allow =
          evaluate-verdict env'.matched_at c active ∙ rw (no_denial, grants) in
        elim (Bool-cases (all_once_authorized c m')) [
          | inl once ↦ ap (λ t. t.1) (via_once repo env' options request m' parsed once)
          | inr more ↦
              ap (λ t. t.1) (via_policies repo env' options request m' parsed more)
              ∙ policies_allow repo env' options m' c listed allowed
        ]

    -- After `deny`, with no storage, a later check of the same operation that holds no once-grants
    -- is denied, even where other policies in force allow it.
    pub check_permission-deny :
        (env' : Env) (options : CheckPermissionOptions) (request : PermissionCheck)
        {c : PermissionCheck} {active : List PermissionPolicy}
        → Decides m input r false UserApprovalMode.deny
        → m.storage ≡ none
        → parse_check request ≡ some c
        → SameOperation r c
        → all_once_authorized c (resolve repo env input m).0 ≡ false
        → list_active_policies repo env'.listed_at options.project_id (resolve repo env input m).0
          ≡ some active
        → (rule : Text) × ((check_permission repo env' options request
              (resolve repo env input m).0).1
            ≡ decided (PermissionDecisionResult.deny rule))
    unfolding decision_policy
    check_permission-deny env' options request {c} {active} d n parsed same no_once listed =
        let m' = (resolve repo env input m).0 in
        let denies : any (λ p. matches_policy env'.matched_at p c && is_deny p.decision) active
            ≡ true =
          pushed-any (λ p. matches_policy env'.matched_at p c && is_deny p.decision) env'.listed_at
            options.project_id m' m.session_policies _ (session_denied d n) listed refl
            (ground (
              arith,
              own_policy_matches env'.matched_at Decision.deny PermissionScope.session c same,
            )) in
        let (rule, denied) =
          verdict-found _ (some_match env'.matched_at c active)
            (found-find_deny env'.matched_at c active ∙ denies) in
        (
          rule.id,
          ap (λ t. t.1) (via_policies repo env' options request m' parsed no_once)
              ∙ policies_deny repo env' options m' c listed
                  (evaluate-verdict env'.matched_at c active ∙ denied),
        )
