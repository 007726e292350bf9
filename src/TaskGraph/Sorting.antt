-- ===== src/TaskGraph/Sorting.antt =====
-- The loop of the topological sort in task-graph.ts: its invariant, and that it ends within as many rounds
-- as there are nodes.
use ai_desktop.Base.{
  ℕ, zero, suc, ◌+◌, ◌≤◌, ◌≡◌, refl, ◌∙◌, true, false, some, List, [], ◌∷◌, ◌++◌, Text, arith,
  length, Bool-cases, inl, inr, subst, ap, includes-append, includes_one, includes-cons,
  length-append, includes,
}
use ai_desktop.Base.Dict
use ai_desktop.Base.Dict.{IsMap}
use ai_desktop.TaskGraph.{Nodes, Degrees, Adjacency, release, neighbors_of, kahn, keys}
use ai_desktop.TaskGraph.Counts.{
  occ, occ-append, occ_one, occ_first, includes-occ, occ-includes, length-occ, hits, hits-snoc,
  hits_all,
}
use ai_desktop.TaskGraph.Edges.{dependencies, edge}
use ai_desktop.TaskGraph.Release.{Waits, reached-le, reached_le_one, release-Waits, release-occ}

-- Every dependency of a node of the order stands before it.
abbrev pub Follows : Nodes → List Text → List Text → Type 0
Follows nodes placed [] = Unit
Follows nodes placed (c ∷ order) =
    ((d : Text) → includes (dependencies c nodes) d ≡ true → includes placed d ≡ true)
    × Follows nodes (placed ++ c ∷ []) order

includes_nil : (d : Text) → includes [] d ≡ false
unfolding includes
includes_nil d = refl

pub Follows-snoc :
    (nodes : Nodes) (placed order : List Text) (c : Text)
    → Follows nodes placed order
    → ((d : Text) → includes (dependencies c nodes) d ≡ true → includes (placed ++ order) d ≡ true)
    → Follows nodes placed (order ++ c ∷ [])
Follows-snoc nodes placed [] c f r =
    (λ d p. ground (arith, r d p, includes-append placed [] d, includes_nil d), tt)
Follows-snoc nodes placed (x ∷ order) c f r = (
  f.0,
  Follows-snoc nodes (placed ++ x ∷ []) order c f.1 (λ d p. ground (
    arith,
    r d p,
    includes-append placed (x ∷ order) d,
    includes-append (placed ++ x ∷ []) order d,
    includes-append placed (x ∷ []) d,
    includes-cons x order d,
    includes_one x d,
  )),
)

pub record Sorting (nodes : Nodes) (degrees : Degrees) (queue order : List Text) : Type 0 where
  pub waits :
      (n : Text)
      → Dict.has n nodes ≡ true
      → Waits degrees
          (occ n queue + occ n order)
          n
          (length (dependencies n nodes))
          (hits (dependencies n nodes) order)
  pub alien : (n : Text) → Dict.has n nodes ≡ false → occ n queue + occ n order ≡ 0
  pub sorted : Follows nodes [] order

module _ (nodes : Nodes) where
  dependencies_absent : (m : Nodes) (n : Text) → Dict.has n m ≡ false → dependencies n m ≡ []
  unfolding dependencies Dict.has
  dependencies_absent [] n h = refl
  dependencies_absent ((k, node) ∷ m) n h = ground (arith, dependencies_absent m n)

  pub occ-keys : (m : Nodes) (n : Text) → Dict.has n m ≡ true → 1 ≤ occ n (keys m)
  unfolding Dict.has occ
  occ-keys [] n h = ground arith
  occ-keys ((k, node) ∷ m) n h = ground (arith, occ-keys m n)

  pub length-keys : (m : Nodes) → length (keys m) ≡ length m
  length-keys [] = refl
  length-keys ((k, node) ∷ m) = ap suc (length-keys m)

  -- Each id is placed once at most.
  once :
      {degrees : Degrees} {queue order : List Text}
      → Sorting nodes degrees queue order
      → (n : Text) → occ n queue + occ n order ≤ 1
  once s n = elim (Bool-cases (Dict.has n nodes)) [
    | inl key ↦ omega (
      arith,
      (s.waits n key).once,
      reached_le_one (length (dependencies n nodes)) (hits (dependencies n nodes) _),
    )
    | inr foreign ↦ omega (arith, s.alien n foreign)
  ]

  -- Only nodes are placed.
  pub placed-keys :
      {degrees : Degrees} {queue order : List Text}
      → Sorting nodes degrees queue order
      → (n : Text) → occ n queue + occ n order ≤ occ n (keys nodes)
  placed-keys s n = elim (Bool-cases (Dict.has n nodes)) [
    | inl key ↦ omega (arith, once s n, occ-keys nodes n key)
    | inr foreign ↦ omega (arith, s.alien n foreign)
  ]

  -- So no more than there are.
  placed-bound :
      {degrees : Degrees} {queue order : List Text}
      → Sorting nodes degrees queue order
      → length queue + length order ≤ length nodes
  placed-bound {queue = queue} {order = order} s = omega (
    arith,
    length-occ (queue ++ order) (keys nodes)
        (λ n. omega (arith, occ-append n queue order, placed-keys s n)),
    length-append queue order,
    length-keys nodes,
  )

  -- The head of the queue has all its dependencies in the order.
  ready :
      {degrees : Degrees} (c : Text) (queue order : List Text)
      → Sorting nodes degrees (c ∷ queue) order
      → (d : Text) → includes (dependencies c nodes) d ≡ true
      → includes order d ≡ true
  ready c queue order s d p = elim (Bool-cases (Dict.has c nodes)) [
    | inl key ↦ occ-includes order d (
        hits_all (dependencies c nodes) order (λ z. omega (arith, once s z))
          (reached-le (length (dependencies c nodes)) (hits (dependencies c nodes) order)
            (omega (arith, (s.waits c key).once, occ_first c queue)))
          d (includes-occ (dependencies c nodes) d p))
    | inr foreign ↦ absurd (omega (arith, s.alien c foreign, occ_first c queue))
  ]

  module _ (adjacency : Adjacency)
      (edges : (d n : Text) → edge adjacency d n ≡ occ d (dependencies n nodes)) where
    -- One round.
    round :
        (degrees : Degrees) (c : Text) (queue order : List Text)
        → Sorting nodes degrees (c ∷ queue) order
        → let (degrees', queue') = release (neighbors_of (Dict.get c adjacency)) degrees queue in
          Sorting nodes degrees' queue' (order ++ c ∷ [])
    unfolding edge occ
    round degrees c queue order s =
        let neighbors = neighbors_of (Dict.get c adjacency) in
        let (degrees', queue') = release neighbors degrees queue in
        record {
          waits = λ n key.
              let deps = dependencies n nodes in
              let w =
                release-Waits neighbors degrees queue n (length deps) (hits deps order)
                  (occ n (order ++ c ∷ []))
                  (subst (λ k. Waits degrees k n (length deps) (hits deps order))
                    (omega (arith, occ-append n order (c ∷ []), occ_one n c)) (s.waits n key)) in
              subst (λ k. Waits degrees' (occ n queue' + occ n (order ++ c ∷ [])) n (length deps) k)
                (omega (arith, hits-snoc deps order c, edges c n)) w;
          alien = λ n foreign. omega (
            arith,
            s.alien n foreign,
            edges c n,
            release-occ neighbors degrees queue n
                (edges c n ∙ ap (occ c) (dependencies_absent nodes n foreign)),
            occ-append n order (c ∷ []),
            occ_one n c,
          );
          sorted = Follows-snoc nodes [] order c s.sorted (ready c queue order s);
        }

    -- With a round for each node the loop ends, with the queue empty.
    pub kahn-Sorting :
        (fuel : ℕ) (degrees : Degrees) (queue order : List Text)
        → fuel + length order ≡ length nodes
        → Sorting nodes degrees queue order
        → (final : List Text) × (degrees' : Degrees) × (kahn fuel adjacency degrees queue order
            ≡ some final)
          × Sorting nodes degrees' [] final
    unfolding kahn
    kahn-Sorting fuel degrees [] order e s = (order, degrees, refl, s)
    kahn-Sorting zero degrees (c ∷ queue) order e s = absurd (omega (arith, placed-bound s))
    kahn-Sorting (suc fuel) degrees (c ∷ queue) order e s =
        let (degrees', queue') = release (neighbors_of (Dict.get c adjacency)) degrees queue in
        kahn-Sorting fuel degrees' queue' (order ++ c ∷ [])
          (omega (arith, length-append order (c ∷ []))) (round degrees c queue order s)
