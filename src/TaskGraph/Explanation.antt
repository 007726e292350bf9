-- ===== src/TaskGraph/Explanation.antt =====
-- What the errors of `validateTaskGraph` in task-graph.ts say of the graph.
use ai_desktop.Base.{
  ◌≡◌, subst, true, false, some, List, [], ◌∷◌, Text, arith, text_eq, text_eq_iff, text_eq_refl,
  includes, includes-append, includes-cons, Option-cases, Bool-cases, inl, inr,
}
use ai_desktop.Base.Dict
use ai_desktop.Base.Dict.{IsMap}
use ai_desktop.TaskGraph.{
  Nodes, GraphError, self_dependency, missing_reference, cycle, invalid, check_dependencies,
  check_references, validate_task_graph,
}
use ai_desktop.TaskGraph.Edges.{dependencies}
use ai_desktop.TaskGraph.Stuck.{Stuck}
use ai_desktop.TaskGraph.Acceptance.{refused_references, sort-cases}

-- The graph has what the error says.
abbrev pub Explains : Nodes → GraphError → Type 0
Explains nodes (self_dependency n) = includes (dependencies n nodes) n ≡ true
Explains nodes (missing_reference n d) =
    (includes (dependencies n nodes) d ≡ true) × (Dict.has d nodes ≡ false)
Explains nodes (cycle stuck) = Stuck nodes stuck
Explains nodes _ = ⊥

check_dependencies-Explains :
    (nodes : Nodes) (k : Text) (deps : List Text) (e : GraphError)
    → ((d : Text) → includes deps d ≡ true → includes (dependencies k nodes) d ≡ true)
    → check_dependencies nodes k deps ≡ some e
    → Explains nodes e
unfolding check_dependencies
check_dependencies-Explains nodes k [] e i h = cc
check_dependencies-Explains nodes k (dep ∷ deps) e i h = elim (Bool-cases (text_eq dep k)) [
  | inl self ↦
      let found = i dep (ground (arith, includes-cons dep deps dep, text_eq_refl dep)) in
      subst (Explains nodes) {x = self_dependency k} (ground arith)
        (subst (λ z. includes (dependencies k nodes) z ≡ true) ((text_eq_iff dep k).0 self) found)
  | inr other ↦ elim (Bool-cases (Dict.has dep nodes)) [
    | inl there ↦
        check_dependencies-Explains nodes k deps e
          (λ d j. i d (ground (arith, includes-cons dep deps d))) (ground arith)
    | inr missing ↦
        subst (Explains nodes) {x = missing_reference k dep} (ground arith)
          (i dep (ground (arith, includes-cons dep deps dep, text_eq_refl dep)), missing)
  ]
]

check_references-Explains :
    (nodes rest : Nodes) (e : GraphError)
    → ((n d : Text)
        → includes (dependencies n rest) d ≡ true
        → includes (dependencies n nodes) d ≡ true)
    → check_references nodes rest ≡ some e
    → Explains nodes e
unfolding check_references dependencies
check_references-Explains nodes [] e i h = cc
check_references-Explains nodes ((k, node) ∷ rest) e i h =
    elim (Option-cases (check_dependencies nodes k node.depends_on)) [
      | inl passed ↦
          check_references-Explains nodes rest e
            (λ n d j.
              i n d (ground (arith, includes-append node.depends_on (dependencies n rest) d)))
            (ground arith)
      | inr (err, failed) ↦
          check_dependencies-Explains nodes k node.depends_on e
            (λ d j. i k d (
              ground
                (arith, text_eq_refl k, includes-append node.depends_on (dependencies k rest) d)))
            (ground arith)
    ]

-- On a map of nodes, an error of the validation is true of the graph: the node that it says depends on
-- itself does, the node that it says depends on an unknown id does, and a cycle error names at least one
-- id and with each id one of its dependencies. No other error occurs.
pub validate_task_graph-Explains :
    (nodes : Nodes) (e : GraphError)
    → IsMap nodes
    → validate_task_graph nodes ≡ invalid e
    → Explains nodes e
validate_task_graph-Explains nodes e m h = elim (Option-cases (check_references nodes nodes)) [
  | inl passed ↦ elim (sort-cases nodes m passed) [
    | inl (order, f, _) ↦ absurd (ground arith)
    | inr (stuck, f, s) ↦ subst (Explains nodes) {x = cycle stuck} (ground arith) s
  ]
  | inr (err, failed) ↦
      check_references-Explains nodes nodes e (λ n d j. j)
        (ground (arith, refused_references nodes err failed))
]
