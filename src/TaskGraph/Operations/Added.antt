-- ===== src/TaskGraph/Operations/Added.antt =====
-- task-graph.ts: what `addNode` makes of a graph with an order of execution.
use ai_desktop.Base.{
  ℕ, ◌≡◌, ◌↔◌, refl, sym, true, false, ◌&&◌, ◌||◌, Option, none, some, List, [], ◌∷◌, ◌++◌, Text,
  arith, text_eq, text_eq_iff, text_eq_refl, text_eq_comm, Bool-cases, inl, inr, subst, includes,
  includes-append, or_else,
}
use ai_desktop.Base.Dict
use ai_desktop.Base.Dict.{IsMap}
use ai_desktop.TaskGraph.{
  AgentNodeStatus, RuntimeTaskNode, Nodes, Checked, valid, invalid, validate_task_graph,
}
use ai_desktop.TaskGraph.Edges.{Closed, AllClosed, dependencies}
use ai_desktop.TaskGraph.Sorting.{Follows, Follows-snoc}
use ai_desktop.TaskGraph.Order.{IsOrder}
use ai_desktop.TaskGraph.Acceptance.{validate_task_graph_iff, no_self, dependencies-key}
use ai_desktop.TaskGraph.Operations.{
  TaskGraph, TaskNodeSpec, listed, new_node, insert_node, checked_node, add_node, execution_order,
}

abbrev pub asked : Option (List Text) → List Text
asked none = []
asked (some ids) = ids

-- The node that a spec asks for, untouched.
pub record IsAsked (id task_id : Text) (now : ℕ) (spec : TaskNodeSpec) (node : RuntimeTaskNode)
    : Type 0 where
  pub same_id : node.id ≡ id
  pub same_task : node.task_id ≡ task_id
  pub same_parent : node.parent_id ≡ spec.parent_id
  pub same_goal : node.goal ≡ spec.goal
  pub same_dependencies : node.depends_on ≡ asked spec.depends_on
  pub untouched : (node.status ≡ AgentNodeStatus.pending) × (node.attempts ≡ 0)
  pub blank : (node.result ≡ none) × (node.error ≡ none)
  pub times : (node.created_at ≡ now) × (node.updated_at ≡ now)

asked_same : (ids : Option (List Text)) → listed ids ≡ asked ids
asked_same none = refl
asked_same (some ids) = refl

checked_node_iff :
    (node : RuntimeTaskNode) (v : Checked (List Text))
    → (checked_node node v ≡ valid node) ↔ ((order : List Text) × (v ≡ valid order))
checked_node_iff node (valid order) = (λ h. (order, refl), λ h. refl)
checked_node_iff node (invalid err) = (λ h. cc, λ (order, h). cc)

module _ (id : Text) (node : RuntimeTaskNode) where
  set-dependencies :
      (nodes : Nodes) (n d : Text)
      → Dict.has id nodes ≡ false
      → includes (dependencies n (Dict.set id node nodes)) d
        ≡ (includes (dependencies n nodes) d || (text_eq id n && includes node.depends_on d))
  unfolding dependencies Dict.set Dict.has includes
  set-dependencies [] n d h = elim (Bool-cases (text_eq id n)) [
    | inl same ↦ ground (arith, includes-append node.depends_on [] d)
    | inr other ↦ ground arith
  ]
  set-dependencies ((k, x) ∷ nodes) n d h = ground (
    arith,
    set-dependencies nodes n d,
    includes-append x.depends_on (dependencies n nodes) d,
    includes-append x.depends_on (dependencies n (Dict.set id node nodes)) d,
  )

  set-Closed :
      (deps : List Text) (nodes : Nodes) → Closed deps nodes → Closed deps (Dict.set id node nodes)
  set-Closed [] nodes c = tt
  set-Closed (d ∷ deps) nodes c =
      (ground (arith, c.0, Dict.has-set id d node nodes), set-Closed deps nodes c.1)

  set_both-AllClosed :
      (rest nodes : Nodes) → AllClosed rest nodes → AllClosed rest (Dict.set id node nodes)
  set_both-AllClosed [] nodes c = tt
  set_both-AllClosed ((k, x) ∷ rest) nodes c =
      (set-Closed x.depends_on nodes c.0, set_both-AllClosed rest nodes c.1)

  set-AllClosed :
      (rest m : Nodes)
      → AllClosed rest m
      → Closed node.depends_on m
      → AllClosed (Dict.set id node rest) m
  unfolding Dict.set
  set-AllClosed [] m c d = (d, tt)
  set-AllClosed ((k, x) ∷ rest) m c d = elim (Bool-cases (text_eq k id)) [
    | inl same ↦ rw (same) (d, c.1)
    | inr other ↦ rw (other) (c.0, set-AllClosed rest m c.1 d)
  ]

  Closed-set : (rest m : Nodes) → AllClosed (Dict.set id node rest) m → Closed node.depends_on m
  unfolding Dict.set
  Closed-set [] m = λ c. c.0
  Closed-set ((k, x) ∷ rest) m = elim (Bool-cases (text_eq k id)) [
    | inl same ↦ rw (same) (λ c. c.0)
    | inr other ↦ rw (other) (λ c. Closed-set rest m c.1)
  ]

  -- A dependency that is in the larger graph and is not the new node was there.
  Closed-before :
      (deps : List Text) (nodes : Nodes)
      → Closed deps (Dict.set id node nodes)
      → includes deps id ≡ false
      → Closed deps nodes
  unfolding includes
  Closed-before [] nodes c h = tt
  Closed-before (d ∷ deps) nodes c h = (
    ground (arith, c.0, Dict.has-set id d node nodes, text_eq_comm d id),
    Closed-before deps nodes c.1 (ground arith),
  )

  Closed-has :
      (deps : List Text) (nodes : Nodes) (d : Text)
      → Closed deps nodes
      → includes deps d ≡ true
      → Dict.has d nodes ≡ true
  unfolding includes
  Closed-has [] nodes d c h = cc
  Closed-has (x ∷ deps) nodes d c h =
      ground (arith, c.0, text_eq_iff x d, Closed-has deps nodes d c.1)

  set-Follows :
      (nodes : Nodes) (placed order : List Text)
      → Dict.has id nodes ≡ false
      → includes order id ≡ false
      → Follows nodes placed order
      → Follows (Dict.set id node nodes) placed order
  unfolding includes
  set-Follows nodes placed [] h away f = tt
  set-Follows nodes placed (c ∷ order) h away f = (
    λ d p. ground (arith, set-dependencies nodes c d h, text_eq_comm id c, f.0 d),
    set-Follows nodes (placed ++ c ∷ []) order h (ground arith) f.1,
  )

  includes_only : (n : Text) → includes (id ∷ []) n ≡ text_eq id n
  unfolding includes
  includes_only n = ground arith

  set-IsOrder :
      (nodes : Nodes) (order : List Text)
      → Dict.has id nodes ≡ false
      → Closed node.depends_on nodes
      → IsOrder nodes order
      → IsOrder (Dict.set id node nodes) (order ++ id ∷ [])
  set-IsOrder nodes order h c (f, covers) = (
    Follows-snoc (Dict.set id node nodes) [] order id
        (set-Follows nodes [] order h (ground (arith, covers id)) f)
        (λ d p. ground (
          arith,
          set-dependencies nodes id d h,
          dependencies-key nodes id d,
          Closed-has node.depends_on nodes d c,
          covers d,
        )),
    λ n. ground (
      arith,
      covers n,
      includes-append order (id ∷ []) n,
      includes_only n,
      Dict.has-set id n node nodes,
    ),
  )

  -- In a graph with an order, the graph with the new node has one exactly if the node's dependencies are there.
  accepted_iff :
      (nodes : Nodes)
      → IsMap nodes
      → Dict.has id nodes ≡ false
      → ((order : List Text) × (validate_task_graph nodes ≡ valid order))
      → ((order : List Text) × (validate_task_graph (Dict.set id node nodes) ≡ valid order))
        ↔ Closed node.depends_on nodes
  accepted_iff nodes m h v =
      let iff = validate_task_graph_iff (Dict.set id node nodes) (Dict.set-IsMap id node nodes m) in
      let (c, (order, o)) = (validate_task_graph_iff nodes m).0 v in
      (
        λ w.
            let (c', (order', o')) = iff.0 w in
            Closed-before node.depends_on nodes (Closed-set nodes (Dict.set id node nodes) c')
              (elim (Bool-cases (includes node.depends_on id)) [
                | inl itself ↦ absurd (
                    no_self (Dict.set id node nodes) order' id o'
                      (ground (arith, itself, set-dependencies nodes id id h, text_eq_refl id)))
                | inr other ↦ other
              ]),
        λ d. iff.1 (
          set-AllClosed nodes (Dict.set id node nodes) (set_both-AllClosed nodes nodes c)
              (set-Closed node.depends_on nodes d),
          (order ++ id ∷ [], set-IsOrder nodes order h d o),
        ),
      )

-- To a graph of distinct ids that has an order of execution, `addNode` adds the node that the spec asks for under
-- a new id, and leaves the other nodes as they are, whether or not it throws. It returns that node exactly if
-- every dependency asked for was in the graph before, and exactly if the graph it leaves has an order of
-- execution again; else it throws, and the graph is left without one.
pub add_node-execution_order :
    (spec : TaskNodeSpec) (now : ℕ) (fresh : Text) (g : TaskGraph)
    → IsMap g.nodes
    → Dict.has (or_else spec.id fresh) g.nodes ≡ false
    → ((order : List Text) × (execution_order g ≡ valid order))
    → let (g', result) = add_node spec now fresh g in
      (node : RuntimeTaskNode) × IsAsked (or_else spec.id fresh) g.task_id now spec node
      × (Dict.get (or_else spec.id fresh) g'.nodes ≡ some node)
      × ((k : Text)
          → text_eq (or_else spec.id fresh) k ≡ false
          → Dict.get k g'.nodes ≡ Dict.get k g.nodes)
      × ((result ≡ valid node) ↔ Closed (asked spec.depends_on) g.nodes)
      × ((result ≡ valid node) ↔ ((order' : List Text) × (execution_order g' ≡ valid order')))
unfolding add_node execution_order insert_node new_node
add_node-execution_order spec now fresh g m h v =
    let id = or_else spec.id fresh in
    let node = new_node id g.task_id now spec in
    let nodes = Dict.set id node g.nodes in
    let checked = checked_node_iff node (validate_task_graph nodes) in
    let accepted = accepted_iff id node g.nodes m h v in
    rw (h, add_node)
      (
        node,
        record {
          same_id = refl;
          same_task = refl;
          same_parent = refl;
          same_goal = refl;
          same_dependencies = asked_same spec.depends_on;
          untouched = (refl, refl);
          blank = (refl, refl);
          times = (refl, refl);
        },
        Dict.get-set_self id node g.nodes,
        λ k other. ground (arith, Dict.get-set id k node g.nodes),
        (
          λ r.
              subst (λ ds. Closed ds g.nodes) (asked_same spec.depends_on)
                (accepted.0 (checked.0 r)),
          λ c.
              checked.1
                (accepted.1 (subst (λ ds. Closed ds g.nodes) (sym (asked_same spec.depends_on)) c)),
        ),
        checked,
      )
