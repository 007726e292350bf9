-- ===== src/Permissions/Manager/Frames.antt =====
-- What the helpers of the manager leave alone.
use ai_desktop.Base.{◌≡◌, refl, ◌∙◌, Option, none, some, Text, arith}
use ai_desktop.Permissions.Policy.{PermissionCheck}
use ai_desktop.Permissions.Repository.{Audit, PermissionRepository}
use ai_desktop.Permissions.Manager.{
  PermissionRequest, PermissionEvent, PermissionManager, emit, record_audit, remember_batch,
}

-- Two managers that agree on requests, session policies and once-grants.
pub record SameGrants {S : Type 0} (m n : PermissionManager S) : Type 0 where
  pub pending : m.pending_requests ≡ n.pending_requests
  pub session : m.session_policies ≡ n.session_policies
  pub once : m.once_approvals ≡ n.once_approvals

module _ {S : Type 0} where
  pub emit-SameGrants : (e : PermissionEvent) (m : PermissionManager S) → SameGrants (emit e m) m
  unfolding emit
  emit-SameGrants e m = ground arith

  pub storage-emit :
      (e : PermissionEvent) (m : PermissionManager S) → (emit e m).storage ≡ m.storage
  unfolding emit
  storage-emit e m = ground arith

  pub remember_batch-SameGrants :
      (b : Option Text) (c : PermissionCheck) (r : PermissionRequest) (m : PermissionManager S)
      → SameGrants (remember_batch b c r m) m
  unfolding remember_batch
  remember_batch-SameGrants none c r m = ground arith
  remember_batch-SameGrants (some b) c r m = ground arith

  module _ (repo : PermissionRepository S) where
    pub record_audit-SameGrants :
        (a : Audit) (m : PermissionManager S) → SameGrants (record_audit repo a m) m
    unfolding record_audit
    record_audit-SameGrants a m = record { pending = refl; session = refl; once = refl }

    -- The tail of `check` that opens a request leaves the pending requests as they were set.
    pub opened-pending :
        (e : PermissionEvent) (a : Audit) (b : Option Text) (c : PermissionCheck)
        (r : PermissionRequest) (m : PermissionManager S)
        → (emit e (record_audit repo a (remember_batch b c r m))).pending_requests
          ≡ m.pending_requests
    opened-pending e a b c r m =
        (emit-SameGrants e (record_audit repo a (remember_batch b c r m))).pending
        ∙ (record_audit-SameGrants a (remember_batch b c r m)).pending
        ∙ (remember_batch-SameGrants b c r m).pending

  -- Writing an audit entry does not change the policies that a query finds.
  abbrev pub AuditKeepsPolicies : PermissionRepository S → Type 0
  AuditKeepsPolicies repo =
      (a : Audit) (s s' : S) (p : Option Text)
      → repo.record_audit a s ≡ some s'
      → repo.find_policies p s' ≡ repo.find_policies p s
