-- ===== src/Permissions/Policy/Precedence.antt =====
-- The evaluator against its contract.
use mathlib.Core.List.{Perm, Permᴰ}
use mathlib.Core.Logic.{∥∥₁_elim}
use ai_desktop.Base.{
  ℕ, ◌≡◌, refl, sym, ◌∙◌, Bool, true, false, ◌&&◌, ◌||◌, Option, none, some, List, [], ◌∷◌, arith,
  if◌then◌else◌, any,
}
use ai_desktop.Permissions.Policy.{
  Decision, PermissionPolicy, PermissionCheck, matches_policy, Evaluation, evaluate_from, evaluate,
}

abbrev pub is_deny : Decision → Bool
is_deny Decision.deny = true
is_deny Decision.allow = false

-- The first matching rule that denies.
unfoldable pub find_deny : ℕ → PermissionCheck → List PermissionPolicy → Option PermissionPolicy
find_deny now check [] = none
find_deny now check (p ∷ ps) =
    if matches_policy now p check && is_deny p.decision then some p else find_deny now check ps

-- Some rule matches.
abbrev pub some_match : ℕ → PermissionCheck → List PermissionPolicy → Bool
some_match now check ps = any (λ p. matches_policy now p check) ps

abbrev pub verdict : Option PermissionPolicy → Bool → Evaluation
verdict (some p) m = Evaluation.deny p.id
verdict none true = Evaluation.allow
verdict none false = Evaluation.requires_user

evaluate_from-verdict :
    (now : ℕ) (check : PermissionCheck) (m : Bool) (ps : List PermissionPolicy)
    → evaluate_from now check m ps ≡ verdict (find_deny now check ps) (m || some_match now check ps)
unfolding evaluate_from find_deny
evaluate_from-verdict now check m [] = ground arith
evaluate_from-verdict now check m (p ∷ ps) =
    ground (arith, evaluate_from-verdict now check m ps, evaluate_from-verdict now check true ps)

-- An explicit denial wins over every grant, wherever it stands in the list: the outcome is `deny`
-- with the first matching rule that denies if there is one, else `allow` if any rule matches, else
-- the user is asked.
pub evaluate-verdict :
    (now : ℕ) (check : PermissionCheck) (ps : List PermissionPolicy)
    → evaluate now check ps ≡ verdict (find_deny now check ps) (some_match now check ps)
unfolding evaluate
evaluate-verdict now check ps = evaluate_from-verdict now check false ps

or_swap : (a b c : Bool) → (a || (b || c)) ≡ (b || (a || c))
or_swap a b c = ground arith

any-perm {ℓ} : {A : Type ℓ} (p : A → Bool) {xs ys : List A} → Permᴰ xs ys → any p xs ≡ any p ys
any-perm p Permᴰ.nil = refl
any-perm p (Permᴰ.cons e h) = ground (arith, any-perm p h)
any-perm p (Permᴰ.swap {a = a} {b = b} {a' = a'} {b' = b'} {l = l} e f) =
    rw (e, f) (or_swap (p b') (p a') (any p l))
any-perm p (Permᴰ.trans h k) = any-perm p h ∙ any-perm p k

-- Whether there is such a rule.
unfoldable pub found : Option PermissionPolicy → Bool
found none = false
found (some p) = true

pub found-find_deny :
    (now : ℕ) (check : PermissionCheck) (ps : List PermissionPolicy)
    → found (find_deny now check ps)
      ≡ any (λ p. matches_policy now p check && is_deny p.decision) ps
unfolding found find_deny
found-find_deny now check [] = refl
found-find_deny now check (p ∷ ps) = ground (arith, found-find_deny now check ps)

-- The outcome without the rule that a denial names.
pub data Outcome : Type 0 where
  allowed denied asked : Outcome

abbrev pub outcome : Evaluation → Outcome
outcome Evaluation.allow = allowed
outcome (Evaluation.deny id) = denied
outcome Evaluation.requires_user = asked

outcome-verdict :
    (o q : Option PermissionPolicy) (m : Bool)
    → found o ≡ found q
    → outcome (verdict o m) ≡ outcome (verdict q m)
unfolding found
outcome-verdict none none m h = refl
outcome-verdict none (some q) m h = cc
outcome-verdict (some p) none m h = cc
outcome-verdict (some p) (some q) m h = refl

Outcome-set : IsSet Outcome
Outcome-set = hlevel

-- The order in which session and stored policies are listed does not change the outcome.
outcome-evaluate-perm :
    (now : ℕ) (check : PermissionCheck) {ps qs : List PermissionPolicy}
    → Perm ps qs
    → outcome (evaluate now check ps) ≡ outcome (evaluate now check qs)
outcome-evaluate-perm now check {ps} {qs} perm = ∥∥₁_elim perm (Outcome-set _ _) λ h.
    let same_denials =
      found-find_deny now check ps
      ∙ any-perm (λ p. matches_policy now p check && is_deny p.decision) h
      ∙ sym (found-find_deny now check qs) in
    let same_matches = any-perm (λ p. matches_policy now p check) h in
    rw (evaluate-verdict now check ps, evaluate-verdict now check qs, same_matches)
      (outcome-verdict (find_deny now check ps) (find_deny now check qs) _ same_denials)
