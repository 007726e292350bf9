-- ===== src/TaskGraph/Acceptance.antt =====
-- What `validateTaskGraph` of task-graph.ts promises: an order of execution, or a cycle.
use ai_desktop.Base.{
  ◌≡◌, ◌↔◌, true, none, some, List, [], ◌∷◌, Text, arith, length, text_eq, text_eq_iff,
  text_eq_refl, Option-cases, Bool-cases, inl, inr, ◌⊎◌, subst, includes, includes-append, ◌==◌,
}
use ai_desktop.Base.Dict
use ai_desktop.Base.Dict.{IsMap}
use ai_desktop.TaskGraph.{
  Nodes, GraphError, valid, invalid, cycle, check_dependencies, check_references, finish_order,
  validate_task_graph,
}
use ai_desktop.TaskGraph.Edges.{Closed, AllClosed, dependencies}
use ai_desktop.TaskGraph.Start.{}
use ai_desktop.TaskGraph.Order.{Schedule, IsOrder, sorted_result, complete}
use ai_desktop.TaskGraph.Stuck.{Stuck, left, some_left, blocked_by, grounded, check_references-keys}

-- With all references valid, the result is a schedule or what is stuck.
pub sort-cases :
    (nodes : Nodes)
    → IsMap nodes
    → check_references nodes nodes ≡ none
    → ((order : List Text) × (validate_task_graph nodes ≡ valid order) × Schedule nodes order)
      ⊎ ((stuck : List Text) × (validate_task_graph nodes ≡ invalid (cycle stuck))
          × Stuck nodes stuck)
unfolding validate_task_graph finish_order
sort-cases nodes m h =
    let (order, degrees, e, s) = sorted_result nodes m h in
    elim (Bool-cases (length order == length nodes)) [
      | inl full ↦ inl (order, ground arith, complete nodes m order s (ground arith))
      | inr short ↦ inr (
        left nodes m order s,
        ground arith,
        (
          some_left nodes m order s (λ same. ground arith),
          blocked_by nodes m order s (check_references-keys nodes nodes h),
        ),
      )
    ]

pub refused_references :
    (nodes : Nodes) (e : GraphError)
    → check_references nodes nodes ≡ some e
    → validate_task_graph nodes ≡ invalid e
unfolding validate_task_graph
refused_references nodes e h = ground arith

-- Where all dependencies are nodes, only a node that depends on itself is refused.
check_dependencies_self :
    (nodes : Nodes) (node_id : Text) (deps : List Text) (e : GraphError)
    → Closed deps nodes
    → check_dependencies nodes node_id deps ≡ some e
    → includes deps node_id ≡ true
unfolding check_dependencies includes
check_dependencies_self nodes node_id [] e c h = cc
check_dependencies_self nodes node_id (dep ∷ deps) e c h =
    ground (arith, c.0, check_dependencies_self nodes node_id deps e c.1)

check_references_self :
    (nodes rest : Nodes) (e : GraphError)
    → AllClosed rest nodes
    → check_references nodes rest ≡ some e
    → (n : Text) × (includes (dependencies n rest) n ≡ true)
unfolding check_references dependencies
check_references_self nodes [] e c h = cc
check_references_self nodes ((k, node) ∷ rest) e c h =
    elim (Option-cases (check_dependencies nodes k node.depends_on)) [
      | inl passed ↦
          let (n, i) = check_references_self nodes rest e c.1 (ground arith) in
          (n, ground (arith, includes-append node.depends_on (dependencies n rest) n))
      | inr (err, failed) ↦ (
        k,
        ground (
          arith,
          text_eq_refl k,
          includes-append node.depends_on (dependencies k rest) k,
          check_dependencies_self nodes k node.depends_on err c.0 failed,
        ),
      )
    ]

pub dependencies-key :
    (nodes : Nodes) (n d : Text)
    → includes (dependencies n nodes) d ≡ true
    → Dict.has n nodes ≡ true
unfolding dependencies Dict.has includes
dependencies-key [] n d h = cc
dependencies-key ((k, node) ∷ nodes) n d h = ground (arith, dependencies-key nodes n d)

-- An order rules both errors out.
no-Stuck : (nodes : Nodes) (order stuck : List Text) → IsOrder nodes order → Stuck nodes stuck → ⊥
unfolding includes
no-Stuck nodes order [] f s = omega (arith, s.0)
no-Stuck nodes order (x ∷ stuck) f s =
    let (d, i, q) = s.1 x (ground (arith, text_eq_refl x)) in
    ground (
      arith,
      text_eq_refl x,
      f.1 x,
      dependencies-key nodes x d i,
      grounded nodes (includes (x ∷ stuck)) s.1 [] order f.0 (λ d h. cc) x,
    )

pub no_self :
    (nodes : Nodes) (order : List Text) (n : Text)
    → IsOrder nodes order
    → ¬ (includes (dependencies n nodes) n ≡ true)
unfolding includes
no_self nodes order n f i = ground (
  arith,
  text_eq_refl n,
  f.1 n,
  dependencies-key nodes n n i,
  grounded nodes (text_eq n)
      (λ k p. (
        n,
        subst (λ z. includes (dependencies z nodes) n ≡ true) ((text_eq_iff n k).0 p) i,
        text_eq_refl n,
      ))
      [] order f.0 (λ d h. cc) n,
)

-- On a map of nodes, an order that the validation returns is a schedule: it has every node, no other
-- id, as many entries as there are nodes, and each node stands after all its dependencies.
pub validate_task_graph-Schedule :
    (nodes : Nodes) (order : List Text)
    → IsMap nodes
    → validate_task_graph nodes ≡ valid order
    → Schedule nodes order
validate_task_graph-Schedule nodes order m e = elim (Option-cases (check_references nodes nodes)) [
  | inl passed ↦ elim (sort-cases nodes m passed) [
    | inl (found, f, schedule) ↦ subst (Schedule nodes) (ground arith) schedule
    | inr (stuck, f, _) ↦ absurd (ground arith)
  ]
  | inr (err, failed) ↦ absurd (ground (arith, refused_references nodes err failed))
]

-- The validation of a map of nodes succeeds exactly if all dependencies are nodes and some list of the
-- nodes has each after all its dependencies.
pub validate_task_graph_iff :
    (nodes : Nodes)
    → IsMap nodes
    → ((order : List Text) × (validate_task_graph nodes ≡ valid order))
      ↔ (AllClosed nodes nodes × ((order : List Text) × IsOrder nodes order))
validate_task_graph_iff nodes m = (
  λ (order, e). elim (Option-cases (check_references nodes nodes)) [
    | inl passed ↦ (
      check_references-keys nodes nodes passed,
      let f = validate_task_graph-Schedule nodes order m e in (order, (f.0, f.1)),
    )
    | inr (err, failed) ↦ absurd (ground (arith, refused_references nodes err failed))
  ],
  λ (c, (order, f)). elim (Option-cases (check_references nodes nodes)) [
    | inl passed ↦ elim (sort-cases nodes m passed) [
      | inl (found, e, _) ↦ (found, e)
      | inr (stuck, e, s) ↦ absurd (no-Stuck nodes order stuck f s)
    ]
    | inr (err, failed) ↦
        let (n, i) = check_references_self nodes nodes err c failed in
        absurd (no_self nodes order n f i)
  ],
)
