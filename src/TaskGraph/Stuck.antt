-- ===== src/TaskGraph/Stuck.antt =====
-- What the topological sort of task-graph.ts leaves out when it falls short.
use ai_desktop.Base.{
  leb-cases, ◌≤◌, ◌<◌, ◌≡◌, ◌≢◌, refl, ◌∙◌, sym, Bool, true, false, not, none, List, [], ◌∷◌, ◌++◌,
  Text, arith, length, if◌then◌else◌, text_eq, text_eq_iff, Bool-cases, inl, inr, ap, includes,
  includes-append, includes_one, filter,
}
use ai_desktop.Base.Dict
use ai_desktop.Base.Dict.{IsMap}
use ai_desktop.TaskGraph.{Nodes, Degrees, check_references, keys}
use ai_desktop.TaskGraph.Counts.{length-occ, occ, includes-occ, occ-includes, hits, hits_missing}
use ai_desktop.TaskGraph.Edges.{Closed, AllClosed, dependencies}
use ai_desktop.TaskGraph.Release.{reached-lt}
use ai_desktop.TaskGraph.Start.{check_dependencies-Closed}
use ai_desktop.TaskGraph.Sorting.{Follows, Sorting, placed-keys, length-keys}

pub includes-filter :
    (p : Text → Bool) (xs : List Text) (n : Text)
    → includes (filter p xs) n ≡ (if includes xs n then p n else false)
unfolding includes
includes-filter p [] n = refl
includes-filter p (x ∷ xs) n = elim (Bool-cases (text_eq x n)) [
  | inl same ↦ ground (arith, includes-filter p xs n, ap p ((text_eq_iff x n).0 same))
  | inr other ↦ ground (arith, includes-filter p xs n)
]

keys-has : (nodes : Nodes) (n : Text) → includes (keys nodes) n ≡ Dict.has n nodes
unfolding includes Dict.has
keys-has [] n = refl
keys-has ((k, node) ∷ nodes) n = ground (arith, keys-has nodes n)

keys-once : (nodes : Nodes) → IsMap nodes → (n : Text) → occ n (keys nodes) ≤ 1
unfolding occ
keys-once [] m n = omega arith
keys-once ((k, node) ∷ nodes) m n =
    ground
      (arith, keys-once nodes m.1 n, text_eq_iff k n, keys-has nodes k, occ-includes (keys nodes) n)

Closed-has :
    (deps : List Text) (nodes : Nodes)
    → Closed deps nodes
    → (d : Text) → includes deps d ≡ true
    → Dict.has d nodes ≡ true
unfolding includes
Closed-has [] nodes c d h = ground arith
Closed-has (x ∷ deps) nodes c d h =
    ground (arith, c.0, text_eq_iff x d, Closed-has deps nodes c.1 d)

pub dependencies-has :
    (rest nodes : Nodes) (n d : Text)
    → AllClosed rest nodes
    → includes (dependencies n rest) d ≡ true
    → Dict.has d nodes ≡ true
unfolding dependencies includes
dependencies-has [] nodes n d c h = ground arith
dependencies-has ((k, node) ∷ rest) nodes n d c h = ground (
  arith,
  includes-append node.depends_on (dependencies n rest) d,
  Closed-has node.depends_on nodes c.0 d,
  dependencies-has rest nodes n d c.1,
)

pub check_references-keys :
    (all rest : Nodes) → check_references all rest ≡ none → AllClosed rest all
unfolding check_references
check_references-keys all [] h = tt
check_references-keys all ((k, node) ∷ rest) h = (
  check_dependencies-Closed all k node.depends_on (ground arith),
  check_references-keys all rest (ground arith),
)

-- Below, a test `p` on ids such that each id that passes has a dependency that passes.
module _ (nodes : Nodes) (p : Text → Bool)
    (down : (n : Text)
      → p n ≡ true
      → (d : Text) × (includes (dependencies n nodes) d ≡ true) × (p d ≡ true)) where
  next_fails :
      (placed : List Text) (c : Text)
      → ((d : Text) → includes (dependencies c nodes) d ≡ true → includes placed d ≡ true)
      → ((d : Text) → includes placed d ≡ true → p d ≡ false)
      → p c ≡ false
  next_fails placed c f h = elim (Bool-cases (p c)) [
    | inl stuck ↦ let (d, i, q) = down c stuck in absurd (ground (arith, h d (f d i)))
    | inr free ↦ free
  ]

  -- No id of an order passes.
  pub grounded :
      (placed order : List Text)
      → Follows nodes placed order
      → ((d : Text) → includes placed d ≡ true → p d ≡ false)
      → (n : Text) → includes order n ≡ true
      → p n ≡ false
  unfolding includes
  grounded placed [] f h n i = ground arith
  grounded placed (c ∷ order) f h n i =
      let first = next_fails placed c f.0 h in
      elim (Bool-cases (text_eq c n)) [
        | inl same ↦ ap p (sym ((text_eq_iff c n).0 same)) ∙ first
        | inr other ↦
            grounded (placed ++ c ∷ []) order f.1
              (λ d j. elim (Bool-cases (text_eq c d)) [
                | inl e ↦ ap p (sym ((text_eq_iff c d).0 e)) ∙ first
                | inr distinct ↦
                    h d (ground (arith, includes-append placed (c ∷ []) d, includes_one c d))
              ])
              n (ground arith)
      ]

-- Ids that nothing can start: each has a dependency among them.
abbrev pub Stuck : Nodes → List Text → Type 0
Stuck nodes stuck =
    (1 ≤ length stuck)
    × ((n : Text)
        → includes stuck n ≡ true
        → (d : Text) × (includes (dependencies n nodes) d ≡ true) × (includes stuck d ≡ true))

includes_empty : (xs : List Text) (n : Text) → length xs < 1 → includes xs n ≡ false
unfolding includes
includes_empty [] n h = refl
includes_empty (x ∷ xs) n h = absurd (omega arith)

module _ (nodes : Nodes) (m : IsMap nodes) {degrees : Degrees} (order : List Text)
    (s : Sorting nodes degrees [] order) where
  -- The nodes that are not in the order.
  abbrev pub left : List Text
  left = filter (λ id. not (includes order id)) (keys nodes)

  left-includes :
      (n : Text) → includes left n ≡ (if Dict.has n nodes then not (includes order n) else false)
  left-includes n =
      ground
        (arith, includes-filter (λ id. not (includes order id)) (keys nodes) n, keys-has nodes n)

  absent_occ : (n : Text) → includes order n ≡ false → occ n order ≡ 0
  absent_occ n h = ground (arith, occ-includes order n)

  -- Where nothing is left, the order holds every node.
  none_left : length left < 1 → (n : Text) → occ n (keys nodes) ≤ occ n order
  none_left h n = elim (Bool-cases (includes order n)) [
    | inl placed ↦ omega (arith, keys-once nodes m n, includes-occ order n placed)
    | inr absent ↦ elim (Bool-cases (Dict.has n nodes)) [
      | inl key ↦ absurd (ground (arith, includes_empty left n h, left-includes n))
      | inr foreign ↦ ground (arith, keys-has nodes n, occ-includes (keys nodes) n)
    ]
  ]

  pub some_left : length order ≢ length nodes → 1 ≤ length left
  some_left d = elim (leb-cases 1 (length left)) [
    | inl more ↦ more
    | inr empty ↦ absurd (
        d (
          omega (
            arith,
            length-occ (keys nodes) order (none_left empty),
            length-occ order (keys nodes) (λ n. omega (arith, placed-keys nodes s n)),
            length-keys nodes nodes,
          )))
  ]

  pub blocked_by :
      AllClosed nodes nodes
      → (n : Text) → includes left n ≡ true
      → (d : Text) × (includes (dependencies n nodes) d ≡ true) × (includes left d ≡ true)
  unfolding occ
  blocked_by c n i =
      let deps = dependencies n nodes in
      let key : Dict.has n nodes ≡ true = ground (arith, left-includes n) in
      let unplaced = absent_occ n (ground (arith, left-includes n)) in
      let (d, dep, missing) = hits_missing deps order (
        reached-lt (length deps) (hits deps order)
          (omega (arith, (s.waits n key).once, unplaced))) in
      (
        d,
        occ-includes deps d dep,
        ground (
          arith,
          left-includes d,
          includes-occ order d,
          dependencies-has nodes nodes n d c (occ-includes deps d dep),
        ),
      )
