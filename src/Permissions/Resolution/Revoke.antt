-- ===== src/Permissions/Resolution/Revoke.antt =====
-- What a revocation removes.
use ai_desktop.Base.{◌≡◌, refl, false, not, none, List, [], ◌∷◌, arith, filter, count, ◌⊎◌}
use ai_desktop.Permissions.Policy.{PermissionPolicy}
use ai_desktop.Permissions.Repository.{PermissionRepository}
use ai_desktop.Permissions.Manager.{PermissionManager, emit}
use ai_desktop.Permissions.Resolution.{
  RevokePermissionInput, resolved, revoke_matches, revoke_session, close_revoke, revoke,
  reaches_storage,
}

revoke_session_lem :
    (input : RevokePermissionInput) (ps : List PermissionPolicy)
    → ((revoke_session input ps).0 ≡ filter (λ p. not (revoke_matches input p)) ps)
      × ((revoke_session input ps).1 ≡ count (revoke_matches input) ps)
unfolding revoke_session
revoke_session_lem input [] = (refl, refl)
revoke_session_lem input (p ∷ ps) = ground (arith, revoke_session_lem input ps)

module _ {S : Type 0} (repo : PermissionRepository S) (input : RevokePermissionInput)
    (m : PermissionManager S) where
  -- A revocation takes exactly the matching policies out of the session, keeps the order of the
  -- others, and leaves pending requests and once-grants alone, whatever scope it names and also if
  -- the storage then fails.
  revoke_session_policies :
      let m' = (revoke repo input m).0 in
      (m'.session_policies ≡ filter (λ p. not (revoke_matches input p)) m.session_policies)
      × (m'.pending_requests ≡ m.pending_requests)
      × (m'.once_approvals ≡ m.once_approvals)
  unfolding revoke close_revoke emit
  revoke_session_policies = ground (arith, revoke_session_lem input m.session_policies)

  -- Without a storage, or with the scope `session`, the number returned counts the session policies
  -- removed and the stored policies stay.
  pub revoke-count :
      (m.storage ≡ none) ⊎ (reaches_storage input.scope ≡ false)
      → ((revoke repo input m).1 ≡ resolved (count (revoke_matches input) m.session_policies))
        × ((revoke repo input m).0.storage ≡ m.storage)
  unfolding revoke close_revoke emit
  revoke-count h = ground (arith, revoke_session_lem input m.session_policies)
