-- ===== src/Permissions/Policy/Matching.antt =====
-- What the resource matchers accept.
use mathlib.Core.List.{append-nil, append_assoc}
use ai_desktop.Base.{
  trim, ℕ, ◌≡◌, refl, sym, ap, ◌∙◌, ◌↔◌, ◌⊎◌, inl, inr, Bool, true, false, ◌||◌, none, some, [],
  ◌∷◌, ◌++◌, Text, arith, length, get_elem?, if◌then◌else◌, text_eq, text_eq_iff, text_eq_refl,
  starts_with, starts_with_iff, Bool-cases,
}
use ai_desktop.Permissions.Policy.{
  PermissionPolicy, PermissionCheck, star, slash, space, normalize_path, matches_filesystem_path,
  at_boundary, matches_execution_command, action_ok, pattern_ok, capability_matches, action_matches,
  pattern_matches, resource_matches, not_expired, matches_policy,
}

-- Both matchers accept a star and an equal text before they look for a boundary.
star_or_equal_iff :
    (p r : Text) (b : Bool) (P : Type 0)
    → ((b ≡ true) ↔ P)
    → ((if text_eq p star || text_eq p r then true else b) ≡ true) ↔ ((p ≡ star) ⊎ (p ≡ r) ⊎ P)
star_or_equal_iff p r b P (to, from) = (
  λ h. elim (Bool-cases (text_eq p star)) [
    | inl e ↦ inl ((text_eq_iff p star).0 e)
    | inr n ↦ elim (Bool-cases (text_eq p r)) [
      | inl e ↦ inr (inl ((text_eq_iff p r).0 e))
      | inr m ↦ inr (inr (to (ground arith)))
    ]
  ],
  λ h. elim h [
    | inl e ↦ rw ((text_eq_iff p star).1 e)
    | inr (inl e) ↦ ground (arith, text_eq_iff p r)
    | inr (inr x) ↦ ground (arith, from x)
  ],
)

starts_with_unit_iff :
    (p r : Text) (c : ℕ)
    → (starts_with r (p ++ c ∷ []) ≡ true) ↔ ((rest : Text) × (r ≡ p ++ c ∷ rest))
starts_with_unit_iff p r c = (
  λ h.
      let (rest, e) = (starts_with_iff r (p ++ c ∷ [])).0 h in
      (rest, e ∙ append_assoc p (c ∷ []) rest),
  λ h. (starts_with_iff r (p ++ c ∷ [])).1 (h.0, h.1 ∙ sym (append_assoc p (c ∷ []) h.0)),
)

-- A filesystem pattern accepts exactly itself, everything if it is `*`, and what lies below it: the
-- match ends at a path separator, so `/a/b` does not accept `/a/bc`.
pub matches_filesystem_path_iff :
    (pattern resource : Text)
    → let p = normalize_path pattern in
      let r = normalize_path resource in
      (matches_filesystem_path pattern resource ≡ true)
      ↔ ((p ≡ star) ⊎ (p ≡ r) ⊎ ((rest : Text) × (r ≡ p ++ slash ∷ rest)))
unfolding matches_filesystem_path
matches_filesystem_path_iff pattern resource =
    let p = normalize_path pattern in
    let r = normalize_path resource in star_or_equal_iff p r _ _ (starts_with_unit_iff p r slash)

-- What follows a prefix decides the boundary test.
get_elem?-append : (p r : Text) → get_elem? (p ++ r) (length p) ≡ get_elem? r 0
get_elem?-append [] r = refl
get_elem?-append (c ∷ p) r = get_elem?-append p r

ends : (p : Text) → get_elem? p (length p) ≡ none
ends [] = refl
ends (c ∷ p) = ends p

abbrev StartsAtWord : Text → Type 0
StartsAtWord r = (r ≡ []) ⊎ ((rest : Text) × (r ≡ space ∷ rest))

boundary_iff : (r : Text) → (at_boundary (get_elem? r 0) ≡ true) ↔ StartsAtWord r
boundary_iff [] = (λ _. inl refl, λ _. refl)
boundary_iff (c ∷ r) = (λ h. inr (r, ground arith), λ h. ground arith)

abbrev StartsAtWordAfter : Text → Text → Type 0
StartsAtWordAfter p r = (p ≡ r) ⊎ ((rest : Text) × (r ≡ p ++ space ∷ rest))

word_prefix_iff :
    (p r : Text)
    → ((if starts_with r p then at_boundary (get_elem? r (length p)) else false) ≡ true)
      ↔ StartsAtWordAfter p r
word_prefix_iff p r = (λ h. to h, λ h. from h)
  where
    prefixed : (rest : Text) → r ≡ p ++ rest → StartsAtWord rest → StartsAtWordAfter p r
    prefixed rest e (inl n) = inl (sym (e ∙ ap (◌++◌ p) n ∙ append-nil p))
    prefixed rest e (inr (more, n)) = inr (more, e ∙ ap (◌++◌ p) n)

    to :
        (if starts_with r p then at_boundary (get_elem? r (length p)) else false) ≡ true
        → StartsAtWordAfter p r
    to h =
        let (rest, e) = (starts_with_iff r p).0 (ground arith) in
        let b : at_boundary (get_elem? r (length p)) ≡ true = ground arith in
        prefixed rest e ((boundary_iff rest).0 (rw (← get_elem?-append p rest, ← e) b))

    from :
        StartsAtWordAfter p r
        → (if starts_with r p then at_boundary (get_elem? r (length p)) else false) ≡ true
    from (inl e) = rw (← e, (starts_with_iff p p).1 ([], sym (append-nil p)), ends p)
    from (inr (rest, e)) = rw (
      e,
      (starts_with_iff (p ++ space ∷ rest) p).1 (space ∷ rest, refl),
      get_elem?-append p (space ∷ rest),
    )

-- A prefix with nothing behind it is the text itself.
three_ways :
    (p r : Text)
    → (p ≡ star) ⊎ (p ≡ r) ⊎ StartsAtWordAfter p r
    → (p ≡ star) ⊎ (p ≡ r) ⊎ ((rest : Text) × (r ≡ p ++ space ∷ rest))
three_ways p r (inl e) = inl e
three_ways p r (inr (inl e)) = inr (inl e)
three_ways p r (inr (inr h)) = inr h

ways_back :
    (p r : Text)
    → (p ≡ star) ⊎ (p ≡ r) ⊎ ((rest : Text) × (r ≡ p ++ space ∷ rest))
    → (p ≡ star) ⊎ (p ≡ r) ⊎ StartsAtWordAfter p r
ways_back p r (inl e) = inl e
ways_back p r (inr h) = inr (inr h)

-- A command pattern accepts exactly itself, everything if it is `*`, and itself followed by a space
-- and arguments, all three after trimming: `git` does not accept `gitk`.
pub matches_execution_command_iff :
    (pattern resource : Text)
    → let p = trim pattern in
      let r = trim resource in
      (matches_execution_command pattern resource ≡ true)
      ↔ ((p ≡ star) ⊎ (p ≡ r) ⊎ ((rest : Text) × (r ≡ p ++ space ∷ rest)))
unfolding matches_execution_command
matches_execution_command_iff pattern resource =
    let p = trim pattern in
    let r = trim resource in
    let (to, from) =
      star_or_equal_iff p r
        (if starts_with r p then at_boundary (get_elem? r (length p)) else false)
        (StartsAtWordAfter p r) (word_prefix_iff p r) in
    (λ h. three_ways p r (to h), λ h. from (ways_back p r h))

action_ok_self : (a : Text) → action_ok (some a) a ≡ true
action_ok_self [] = refl
action_ok_self (c ∷ a) = ground (arith, text_eq_refl (c ∷ a))

pattern_matches_self : (check : PermissionCheck) → pattern_matches check.resource check ≡ true
unfolding pattern_matches
pattern_matches_self check = ground (
  arith,
  (matches_filesystem_path_iff check.resource check.resource).1 (inr (inl refl)),
  (matches_execution_command_iff check.resource check.resource).1 (inr (inl refl)),
  text_eq_refl check.resource,
)

pattern_ok_self :
    (p : Text) (check : PermissionCheck) → check.resource ≡ p → pattern_ok (some p) check ≡ true
pattern_ok_self [] check e = refl
pattern_ok_self (c ∷ p) check e = ground (arith, pattern_matches_self check)

-- A policy made of a check's own capability, action and resource, without an expiry, matches that
-- check, whatever the domain of the capability.
pub matches_policy_self :
    (now : ℕ) (policy : PermissionPolicy) (check : PermissionCheck)
    → policy.capability ≡ check.capability
    → policy.action ≡ some check.action
    → policy.resource_pattern ≡ some check.resource
    → policy.expires_at ≡ none
    → matches_policy now policy check ≡ true
unfolding matches_policy capability_matches action_matches resource_matches not_expired
matches_policy_self now policy check c a r e = ground (
  arith,
  text_eq_iff policy.capability check.capability,
  action_ok_self check.action,
  pattern_ok_self check.resource check refl,
)
