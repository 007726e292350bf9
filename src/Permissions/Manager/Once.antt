-- ===== src/Permissions/Manager/Once.antt =====
-- A once-grant lets each tool call through a single time.
use ai_desktop.Base.{
  ◌≡◌, refl, inl, inr, Bool, true, false, not, ◌&&◌, ◌||◌, some, List, [], ◌∷◌, ◌++◌, Text, arith,
  trim, all, length, length-map, ltb, filter, if◌then◌else◌, text_eq_iff, text_eq_refl, includes,
  includes-add, Bool-cases,
}
use ai_desktop.Ids.{to_upper}
use ai_desktop.Permissions.Policy.{PermissionCheck}
use ai_desktop.Permissions.Repository.{PermissionRepository}
use ai_desktop.Permissions.Manager.{
  Env, CheckPermissionOptions, PermissionManager, PermissionDecisionResult, decided, parse_check,
  remove_all, add_all, consume_once, check_policies, all_once_authorized, check_parsed,
  check_permission, record_audit,
}

pub all-includes :
    (p : Text → Bool) (xs : List Text) (x : Text)
    → all p xs ≡ true
    → includes xs x ≡ true
    → p x ≡ true
unfolding includes
all-includes p [] x h i = cc
all-includes p (y ∷ xs) x h i = ground (arith, text_eq_iff y x, all-includes p xs x)

pub all_of_includes :
    (p : Text → Bool) (xs : List Text)
    → ((x : Text) → includes xs x ≡ true → p x ≡ true)
    → all p xs ≡ true
unfolding includes
all_of_includes p [] h = refl
all_of_includes p (y ∷ xs) h =
    rw (h y (ground (arith, text_eq_refl y))) (all_of_includes p xs (λ x i. h x (ground arith)))

includes-filter :
    (p : Text → Bool) (xs : List Text) (x : Text)
    → includes (filter p xs) x ≡ (includes xs x && p x)
unfolding includes
includes-filter p [] x = refl
includes-filter p (y ∷ xs) x = ground (arith, includes-filter p xs x, text_eq_iff y x)

pub includes-add_all :
    (ids once : List Text) (x : Text)
    → includes (add_all ids once) x ≡ (includes once x || includes ids x)
unfolding add_all includes
includes-add_all [] once x = ground arith
includes-add_all (y ∷ ids) once x = ground (
  arith,
  includes-add_all ids (if includes once y then once else once ++ y ∷ []) x,
  includes-add once y x,
)

-- Two checks that share a tool call.
abbrev pub Shares : PermissionCheck → PermissionCheck → Type 0
Shares c d =
    (x : Text) × (includes c.related_tool_call_ids x ≡ true)
    × (includes d.related_tool_call_ids x ≡ true)

-- A parsed check relates to some call.
pub parse_check-length :
    (request : PermissionCheck) {c : PermissionCheck}
    → parse_check request ≡ some c
    → ltb 0 (length c.related_tool_call_ids) ≡ true
unfolding parse_check
parse_check-length request h =
    ground (arith, length-map request.related_tool_call_ids (λ id. to_upper (trim id)))

module _ {S : Type 0} (repo : PermissionRepository S) where
  once_spent :
      (env : Env) (options : CheckPermissionOptions) (c d : PermissionCheck)
      (m : PermissionManager S)
      → Shares c d
      → all_once_authorized d (consume_once repo env options c m) ≡ false
  unfolding all_once_authorized consume_once remove_all record_audit
  once_spent env options c d m (x, in_c, in_d) =
      let left = remove_all c.related_tool_call_ids m.once_approvals in
      let gone : includes left x
          ≡ (includes m.once_approvals x && not (includes c.related_tool_call_ids x)) =
        includes-filter (λ id. not (includes c.related_tool_call_ids id)) m.once_approvals x in
      elim (Bool-cases (all (λ id. includes left id) d.related_tool_call_ids)) [
        | inl h ↦
            absurd (
              ground
                (arith, all-includes (λ id. includes left id) d.related_tool_call_ids x h in_d))
        | inr n ↦ rw n
      ]

  pub via_once :
      (env : Env) (options : CheckPermissionOptions) (request : PermissionCheck)
      {c : PermissionCheck} (m : PermissionManager S)
      → parse_check request ≡ some c
      → all_once_authorized c m ≡ true
      → check_permission repo env options request m
        ≡ (consume_once repo env options c m, decided PermissionDecisionResult.allow)
  unfolding check_permission check_parsed
  via_once env options request m p once = rw (p, check_permission, once, check_parsed)

  pub via_policies :
      (env : Env) (options : CheckPermissionOptions) (request : PermissionCheck)
      {c : PermissionCheck} (m : PermissionManager S)
      → parse_check request ≡ some c
      → all_once_authorized c m ≡ false
      → check_permission repo env options request m ≡ check_policies repo env options c m
  unfolding check_permission check_parsed
  via_policies env options request m p once = rw (p, check_permission, once, check_parsed)

  -- A check whose calls all hold once-grants is allowed, whatever the policies say, and uses the
  -- grants up: any later check that shares one of its calls is left to the policies.
  pub check_permission-once :
      (env env' : Env) (options options' : CheckPermissionOptions)
      (request request' : PermissionCheck) {c d : PermissionCheck} (m : PermissionManager S)
      → parse_check request ≡ some c
      → parse_check request' ≡ some d
      → all_once_authorized c m ≡ true
      → Shares c d
      → let (m', result) = check_permission repo env options request m in
        (result ≡ decided PermissionDecisionResult.allow)
        × (check_permission repo env' options' request' m' ≡ check_policies repo env' options' d m')
  check_permission-once env env' options options' request request' {c} {d} m pc pd once shares =
      let spent = once_spent env options c d m shares in
      rw (via_once env options request m pc once)
        (refl, via_policies env' options' request' (consume_once repo env options c m) pd spent)
