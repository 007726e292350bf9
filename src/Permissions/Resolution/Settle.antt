-- ===== src/Permissions/Resolution/Settle.antt =====
-- What a resolved request leaves behind.
use ai_desktop.Base.{
  ◌≡◌, refl, ap, ◌∙◌, Bool, true, false, Option, none, some, arith, if◌then◌else◌, Bool-cases,
  Option-cases, inl, inr,
}
use ai_desktop.Base.Dict
use ai_desktop.Permissions.Policy.{PermissionPolicy}
use ai_desktop.Permissions.Repository.{PermissionRepository}
use ai_desktop.Permissions.Manager.{PermissionRequest, Env, PermissionManager, emit, record_audit}
use ai_desktop.Permissions.Manager.Frames.{SameGrants}
use ai_desktop.Permissions.Resolution.{
  UserApprovalMode, ResolvePermissionInput, resolved, resolve, settle_request,
  settle_applied_request, is_pending, apply_grant, apply_denial, save_policy, store_denial,
  keep_denial, push_session, policy_changed, close_request,
}

module _ {S : Type 0} (repo : PermissionRepository S) where
  pub close_request-SameGrants :
      (env : Env) (input : ResolvePermissionInput) (r : PermissionRequest) (m : PermissionManager S)
      → SameGrants (close_request repo env input r m) m
  unfolding close_request emit record_audit
  close_request-SameGrants env input r m = ground arith

  save_policy-pending :
      (p : PermissionPolicy) (m : PermissionManager S) {m' : PermissionManager S}
      → save_policy repo p m ≡ some m'
      → m'.pending_requests ≡ m.pending_requests
  unfolding save_policy
  save_policy-pending p m h = ground arith

  apply_grant-pending :
      (env : Env) (r : PermissionRequest) (mode : UserApprovalMode) (m : PermissionManager S)
      {m' : PermissionManager S}
      → apply_grant repo env r mode m ≡ some m'
      → m'.pending_requests ≡ m.pending_requests
  unfolding apply_grant save_policy policy_changed push_session emit
  apply_grant-pending env r UserApprovalMode.allow_once m h = ground arith
  apply_grant-pending env r UserApprovalMode.allow_session m h = ground arith
  apply_grant-pending env r UserApprovalMode.allow_project m h = ground arith
  apply_grant-pending env r UserApprovalMode.deny m h = ground arith

  apply_denial-pending :
      (env : Env) (r : PermissionRequest) (mode : UserApprovalMode) (m : PermissionManager S)
      {m' : PermissionManager S}
      → apply_denial repo env r mode m ≡ some m'
      → m'.pending_requests ≡ m.pending_requests
  unfolding apply_denial keep_denial store_denial save_policy policy_changed push_session emit
  apply_denial-pending env r UserApprovalMode.allow_once m h = ground arith
  apply_denial-pending env r UserApprovalMode.allow_session m h = ground arith
  apply_denial-pending env r UserApprovalMode.allow_project m h = ground arith
  apply_denial-pending env r UserApprovalMode.deny m h = ground arith

  module _ (env : Env) (input : ResolvePermissionInput) (m : PermissionManager S) where
    abbrev opened : PermissionManager S
    opened = record m { pending_requests = Dict.delete input.request_id m.pending_requests }

    settle_applied :
        (r : PermissionRequest) (applied : Option (PermissionManager S))
        → ((m' : PermissionManager S)
            → applied ≡ some m'
            → m'.pending_requests ≡ opened.pending_requests)
        → (settle_applied_request repo env input r opened applied).0.pending_requests
          ≡ opened.pending_requests
    unfolding settle_applied_request
    settle_applied r none keep = refl
    settle_applied r (some m') keep =
        (close_request-SameGrants env input r m').pending ∙ keep m' refl

    settle-pending :
        (r : PermissionRequest)
        → (settle_request repo env input r m).0.pending_requests
          ≡ Dict.delete input.request_id m.pending_requests
    unfolding settle_request
    settle-pending r = settle_applied r _ (applied_keeps input.is_granted r)
      where
        applied_keeps :
            (g : Bool) (r : PermissionRequest) (m' : PermissionManager S)
            → (if g
                then apply_grant repo env r input.mode opened
                else apply_denial repo env r input.mode opened)
              ≡ some m'
            → m'.pending_requests ≡ opened.pending_requests
        applied_keeps true r m' e = apply_grant-pending env r input.mode opened e
        applied_keeps false r m' e = apply_denial-pending env r input.mode opened e

    resolve-none :
        Dict.get input.request_id m.pending_requests ≡ none
        → resolve repo env input m ≡ (m, resolved false)
    unfolding resolve
    resolve-none e = rw (e, resolve)

    resolve_closed :
        (r : PermissionRequest)
        → Dict.get input.request_id m.pending_requests ≡ some r
        → is_pending r.status ≡ false
        → resolve repo env input m ≡ (m, resolved false)
    unfolding resolve
    resolve_closed r e c = rw (e, resolve, c)

    pub resolve_open :
        (r : PermissionRequest)
        → Dict.get input.request_id m.pending_requests ≡ some r
        → is_pending r.status ≡ true
        → resolve repo env input m ≡ settle_request repo env input r m
    unfolding resolve
    resolve_open r e c = rw (e, resolve, c)

  -- A request is decided once: after any call of `resolve`, whatever it decided and also if the
  -- storage failed, every further call for the same request returns false and changes nothing.
  pub resolve_twice :
      (env env' : Env) (input input' : ResolvePermissionInput) (m : PermissionManager S)
      → input'.request_id ≡ input.request_id
      → let m' = (resolve repo env input m).0 in resolve repo env' input' m' ≡ (m', resolved false)
  resolve_twice env env' input input' m same =
      elim (Option-cases (Dict.get input.request_id m.pending_requests)) [
        | inl e ↦ rw (resolve-none env input m e) (resolve-none env' input' m (rw same e))
        | inr (r, e) ↦ elim (Bool-cases (is_pending r.status)) [
          | inl o ↦ rw (resolve_open env input m r e o) (
              resolve-none env' input' (settle_request repo env input r m).0 (
                ap (Dict.get input'.request_id) (settle-pending env input m r)
                ∙ rw same (Dict.get-delete_self input.request_id m.pending_requests)))
          | inr c ↦
              rw (resolve_closed env input m r e c) (resolve_closed env' input' m r (rw same e) c)
        ]
      ]
