-- ===== src/TaskGraph/Order.antt =====
-- The topological sort of task-graph.ts as a whole: it ends, and an order of full length is a schedule.
use ai_desktop.Base.{
  ◌+◌, ◌≡◌, ◌∙◌, sym, none, some, List, [], Text, arith, length, Bool-cases, inl, inr, subst, ap,
  includes,
}
use ai_desktop.Base.Dict
use ai_desktop.Base.Dict.{IsMap}
use ai_desktop.TaskGraph.{
  Nodes, Degrees, pos, check_references, zero_degrees, no_neighbors, count_all_edges, roots, keys,
  finish_order, sort_graph,
}
use ai_desktop.TaskGraph.Counts.{occ, includes-occ, occ-includes, occ-same, hits_none}
use ai_desktop.TaskGraph.Edges.{dependencies, count_all_edges-edge, count_all_edges-degree}
use ai_desktop.TaskGraph.Release.{Waits, reached_start}
use ai_desktop.TaskGraph.Start.{
  zero_degrees-get, zero_degrees-has, zero_degrees-IsMap, no_neighbors-edge,
  check_references-AllClosed, count_all_edges-has, count_all_edges-IsMap, roots_absent, roots_lem,
}
use ai_desktop.TaskGraph.Sorting.{
  Follows, Sorting, kahn-Sorting, placed-keys, occ-keys, length-keys,
}

module _ (nodes : Nodes) (m : IsMap nodes) where
  start-Sorting :
      let (degrees, adjacency) = count_all_edges nodes (zero_degrees nodes) (no_neighbors nodes) in
      Sorting nodes degrees (roots degrees) []
  unfolding occ
  start-Sorting =
      let (degrees, adjacency) = count_all_edges nodes (zero_degrees nodes) (no_neighbors nodes) in
      let unique =
        count_all_edges-IsMap nodes (zero_degrees nodes) (no_neighbors nodes)
          (zero_degrees-IsMap nodes m) in
      record {
        waits = λ n key.
            let deps = dependencies n nodes in
            let found =
              count_all_edges-degree nodes (zero_degrees nodes) (no_neighbors nodes) n 0
                (zero_degrees-get nodes n key) in
            subst (λ s. Waits degrees (occ n (roots degrees) + 0) n (length deps) s)
              (sym (hits_none deps))
              (record {
                degree = ground arith;
                once = ground (
                  arith,
                  roots_lem degrees n (pos (0 + length deps)) unique found,
                  reached_start (length deps),
                );
              });
        alien = λ n foreign. omega (
          arith,
          roots_absent degrees n (
              count_all_edges-has nodes (zero_degrees nodes) (no_neighbors nodes) n foreign
                (zero_degrees-has nodes n ∙ foreign)),
        );
        sorted = tt;
      }

  -- The sort ends, and its loop's result has the invariant.
  pub sorted_result :
      check_references nodes nodes ≡ none
      → (order : List Text) × (degrees : _) × (sort_graph nodes ≡ finish_order nodes (some order))
        × Sorting nodes degrees [] order
  unfolding sort_graph
  sorted_result h =
      let (degrees, adjacency) = count_all_edges nodes (zero_degrees nodes) (no_neighbors nodes) in
      let (order, final, e, s) =
        kahn-Sorting nodes adjacency
          (λ d n.
            count_all_edges-edge nodes (zero_degrees nodes) (no_neighbors nodes) d n
              (check_references-AllClosed nodes nodes h)
            ∙ ap (λ k. k + occ d (dependencies n nodes)) (no_neighbors-edge nodes d n)
            ∙ omega arith)
          (length nodes) degrees (roots degrees) [] (omega arith) start-Sorting in
      (order, final, ap (finish_order nodes) e, s)

-- The nodes and no other id, each after its dependencies.
abbrev pub IsOrder : Nodes → List Text → Type 0
IsOrder nodes order = Follows nodes [] order × ((n : Text) → includes order n ≡ Dict.has n nodes)

-- An order with each node once.
abbrev pub Schedule : Nodes → List Text → Type 0
Schedule nodes order =
    Follows nodes [] order
    × ((n : Text) → includes order n ≡ Dict.has n nodes)
    × (length order ≡ length nodes)

module _ (nodes : Nodes) (m : IsMap nodes) {degrees : Degrees} (order : List Text)
    (s : Sorting nodes degrees [] order) where
  pub complete : length order ≡ length nodes → Schedule nodes order
  unfolding occ
  complete e = (
    s.sorted,
    λ n. elim (Bool-cases (Dict.has n nodes)) [
      | inl key ↦ ground (
        arith,
        occ-same order (keys nodes) (λ z. omega (arith, placed-keys nodes s z))
            (e ∙ sym (length-keys nodes nodes)) n,
        occ-keys nodes nodes n key,
        occ-includes order n,
      )
      | inr foreign ↦ ground (arith, s.alien n foreign, includes-occ order n)
    ],
    e,
  )
