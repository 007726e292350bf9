-- ===== src/Permissions/Manager/Checkpoint.antt =====
-- What a decision of the checkpoint rests on.
use ai_desktop.Base.{
  ◌≡◌, refl, sym, ap, ◌∙◌, ◌⊎◌, inl, inr, Bool, true, false, ◌||◌, Option, none, some, List, [],
  ◌∷◌, ◌++◌, Text, arith, if◌then◌else◌, includes, includes-add, includes-cons, Bool-cases,
  Option-cases,
}
use ai_desktop.Base.Dict
use ai_desktop.Permissions.Policy.{PermissionPolicy, PermissionCheck, Evaluation, evaluate}
use ai_desktop.Permissions.Policy.Precedence.{find_deny, some_match, verdict, evaluate-verdict}
use ai_desktop.Permissions.Repository.{PermissionRepository}
use ai_desktop.Permissions.Manager.{
  PermissionRequest, Env, CheckPermissionOptions, PermissionManager, PermissionDecisionResult,
  decided, parse_check, list_active_policies, ask_user, check_policies, all_once_authorized,
  check_parsed, check_permission, merge_ids, open_batch, new_request,
}
use ai_desktop.Permissions.Manager.Frames.{remember_batch-SameGrants, opened-pending}

pub includes-merge_ids :
    (xs ys : List Text) (x : Text) → includes (merge_ids xs ys) x ≡ (includes xs x || includes ys x)
unfolding merge_ids includes
includes-merge_ids xs [] x = ground arith
includes-merge_ids xs (y ∷ ys) x = ground (
  arith,
  includes-merge_ids (if includes xs y then xs else xs ++ y ∷ []) ys x,
  includes-add xs y x,
  includes-cons y ys x,
)

module _ {S : Type 0} (repo : PermissionRepository S) (env : Env) (options : CheckPermissionOptions)
    (m : PermissionManager S) where
  -- The rules in force say so: one matches, and none that matches denies.
  pub record AllowedByRules (check : PermissionCheck) : Type 0 where
    pub active : List PermissionPolicy
    pub listed : list_active_policies repo env.listed_at options.project_id m ≡ some active
    pub no_denial : find_deny env.matched_at check active ≡ none
    pub some_grant : some_match env.matched_at check active ≡ true

  verdict-allow :
      (o : Option PermissionPolicy) (b : Bool)
      → verdict o b ≡ Evaluation.allow
      → (o ≡ none) × (b ≡ true)
  verdict-allow (some p) b h = cc
  verdict-allow none true h = (refl, refl)
  verdict-allow none false h = cc

  check_policies-allow :
      (check : PermissionCheck)
      → (check_policies repo env options check m).1 ≡ decided PermissionDecisionResult.allow
      → AllowedByRules check
  unfolding check_policies
  check_policies-allow check h =
      elim (Option-cases (list_active_policies repo env.listed_at options.project_id m)) [
        | inl e ↦ absurd (ground arith)
        | inr (active, e) ↦
            let says : evaluate env.matched_at check active ≡ Evaluation.allow = ground arith in
            let (d, g) =
              verdict-allow _ _ (sym (evaluate-verdict env.matched_at check active) ∙ says) in
            record { active = active; listed = e; no_denial = d; some_grant = g }
      ]

  pub policies_allow :
      (check : PermissionCheck) {active : List PermissionPolicy}
      → list_active_policies repo env.listed_at options.project_id m ≡ some active
      → evaluate env.matched_at check active ≡ Evaluation.allow
      → (check_policies repo env options check m).1 ≡ decided PermissionDecisionResult.allow
  unfolding check_policies
  policies_allow check l e = rw (l, check_policies, e)

  pub policies_deny :
      (check : PermissionCheck) {active : List PermissionPolicy} {rule : Text}
      → list_active_policies repo env.listed_at options.project_id m ≡ some active
      → evaluate env.matched_at check active ≡ Evaluation.deny rule
      → (check_policies repo env options check m).1 ≡ decided (PermissionDecisionResult.deny rule)
  unfolding check_policies
  policies_deny check l e = rw (l, check_policies, e)

  -- No tool call passes unless the request is well formed and either each of its calls holds a
  -- once-grant, or some policy in force matches and none that matches denies.
  pub check_permission-allow :
      (request : PermissionCheck)
      → (check_permission repo env options request m).1 ≡ decided PermissionDecisionResult.allow
      → (check : PermissionCheck) × (parse_check request ≡ some check)
        × ((all_once_authorized check m ≡ true) ⊎ AllowedByRules check)
  unfolding check_permission check_parsed
  check_permission-allow request h = elim (Option-cases (parse_check request)) [
    | inl e ↦ absurd (ground arith)
    | inr (check, e) ↦ elim (Bool-cases (all_once_authorized check m)) [
      | inl once ↦ (check, e, inl once)
      | inr more ↦ (check, e, inr (check_policies-allow check (ground arith)))
    ]
  ]

  -- The request shows every call of the check.
  abbrev pub Covers : PermissionCheck → PermissionRequest → Type 0
  Covers check r =
      (x : Text)
      → includes check.related_tool_call_ids x ≡ true
      → includes r.related_tool_call_ids x ≡ true

  ask_user-pending :
      (check : PermissionCheck)
      → let (m', request) = ask_user repo env options check m in
        (Dict.get request.id m'.pending_requests ≡ some request) × Covers check request
  unfolding ask_user new_request
  ask_user-pending check = elim (Option-cases (open_batch options.batch_id check m)) [
    | inl e ↦
        rw (e, ask_user)
          (
            ap (Dict.get env.request_id)
                  (opened-pending repo _ _ options.batch_id check (new_request env options check) _)
                ∙ Dict.get-set_self env.request_id (new_request env options check)
                    m.pending_requests,
            λ x h. h,
          )
    | inr (existing, e) ↦
        rw (e, ask_user)
          (
            ap (Dict.get existing.id) (remember_batch-SameGrants options.batch_id check _ _).pending
                ∙ Dict.get-set_self existing.id _ m.pending_requests,
            λ x h.
                includes-merge_ids existing.related_tool_call_ids check.related_tool_call_ids x
                ∙ ground arith,
          )
  ]

  asked_by_rules :
      (check : PermissionCheck) {r : PermissionRequest}
      → (check_policies repo env options check m).1
        ≡ decided (PermissionDecisionResult.requires_user r)
      → (Dict.get r.id (check_policies repo env options check m).0.pending_requests ≡ some r)
        × Covers check r
  unfolding check_policies
  asked_by_rules check h = ground (arith, ask_user-pending check)

  -- When the user is asked, the request that is shown is on record as pending under its id, and
  -- covers every related tool call of the check.
  pub check_permission-asks :
      (request : PermissionCheck) {r : PermissionRequest}
      → (check_permission repo env options request m).1
        ≡ decided (PermissionDecisionResult.requires_user r)
      → (check : PermissionCheck) × (parse_check request ≡ some check)
        × (Dict.get r.id (check_permission repo env options request m).0.pending_requests ≡ some r)
        × Covers check r
  unfolding check_permission check_parsed
  check_permission-asks request h = elim (Option-cases (parse_check request)) [
    | inl e ↦ absurd (ground arith)
    | inr (check, e) ↦ elim (Bool-cases (all_once_authorized check m)) [
      | inl once ↦ absurd (ground arith)
      | inr more ↦
          let (p, c) = asked_by_rules check (ground arith) in
          (check, e, rw (e, check_permission, more, check_parsed) p, c)
    ]
  ]
