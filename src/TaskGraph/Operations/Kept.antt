-- ===== src/TaskGraph/Operations/Kept.antt =====
-- What `removeNode` of the class `TaskGraph` keeps.
use ai_desktop.Base.{
  ◌≡◌, refl, ◌∙◌, Bool, true, false, not, List, [], ◌∷◌, ◌++◌, Text, arith, text_eq, text_eq_refl,
  text_eq_comm, Bool-cases, inl, inr, subst, includes, includes-append, filter,
}
use ai_desktop.Base.Dict
use ai_desktop.Base.Dict.{IsMap}
use ai_desktop.TaskGraph.{Nodes, valid}
use ai_desktop.TaskGraph.Edges.{Closed, AllClosed, dependencies}
use ai_desktop.TaskGraph.Sorting.{Follows}
use ai_desktop.TaskGraph.Stuck.{includes-filter}
use ai_desktop.TaskGraph.Acceptance.{validate_task_graph_iff}
use ai_desktop.TaskGraph.Operations.{
  TaskGraph, remove_node, execution_order, without_dependency, without_dependencies,
}

without-has :
    (id k : Text) (nodes : Nodes) → Dict.has k (without_dependencies id nodes) ≡ Dict.has k nodes
unfolding without_dependencies Dict.has
without-has id k [] = refl
without-has id k ((j, node) ∷ nodes) = ground (arith, without-has id k nodes)

pub without-IsMap :
    (id : Text) (nodes : Nodes) → IsMap nodes → IsMap (without_dependencies id nodes)
unfolding without_dependencies
without-IsMap id [] m = tt
without-IsMap id ((j, node) ∷ nodes) m = (without-has id j nodes ∙ m.0, without-IsMap id nodes m.1)

-- What the graph keeps without an id.
abbrev stays : Text → Text → Bool
stays id dep = not (text_eq dep id)

without-Closed :
    (id : Text) (deps : List Text) (nodes : Nodes)
    → Closed deps nodes
    → Closed (filter (stays id) deps) (without_dependencies id (Dict.delete id nodes))
without-Closed id [] nodes c = tt
without-Closed id (d ∷ deps) nodes c = elim (Bool-cases (text_eq d id)) [
  | inl same ↦ rw (same) (without-Closed id deps nodes c.1)
  | inr other ↦ rw (other) (
    ground (
      arith,
      c.0,
      without-has id d (Dict.delete id nodes),
      Dict.has-delete id d nodes,
      text_eq_comm d id,
    ),
    without-Closed id deps nodes c.1,
  )
]

without-AllClosed :
    (id : Text) (rest nodes : Nodes)
    → AllClosed rest nodes
    → AllClosed
        (without_dependencies id (Dict.delete id rest))
        (without_dependencies id (Dict.delete id nodes))
unfolding without_dependencies without_dependency Dict.delete
without-AllClosed id [] nodes c = tt
without-AllClosed id ((k, node) ∷ rest) nodes c = elim (Bool-cases (text_eq k id)) [
  | inl same ↦ rw (same) (without-AllClosed id rest nodes c.1)
  | inr other ↦
      rw (other) (without-Closed id node.depends_on nodes c.0, without-AllClosed id rest nodes c.1)
]

without-dependencies :
    (id : Text) (nodes : Nodes) (n d : Text)
    → includes (dependencies n (without_dependencies id (Dict.delete id nodes))) d ≡ true
    → (includes (dependencies n nodes) d ≡ true) × (text_eq d id ≡ false)
unfolding without_dependencies without_dependency Dict.delete dependencies includes
without-dependencies id [] n d h = cc
without-dependencies id ((k, node) ∷ nodes) n d h = ground (
  arith,
  without-dependencies id nodes n d,
  includes-append node.depends_on (dependencies n nodes) d,
  includes-append (filter (stays id) node.depends_on)
      (dependencies n (without_dependencies id (Dict.delete id nodes))) d,
  includes-filter (stays id) node.depends_on d,
)

filter_gone :
    (id c : Text) (xs : List Text)
    → text_eq c id ≡ true
    → filter (stays id) (xs ++ c ∷ []) ≡ filter (stays id) xs
filter_gone id c [] h = ground arith
filter_gone id c (x ∷ xs) h = ground (arith, filter_gone id c xs h)

filter_kept :
    (id c : Text) (xs : List Text)
    → text_eq c id ≡ false
    → filter (stays id) (xs ++ c ∷ []) ≡ filter (stays id) xs ++ c ∷ []
filter_kept id c [] h = ground arith
filter_kept id c (x ∷ xs) h = ground (arith, filter_kept id c xs h)

without-Follows :
    (id : Text) (nodes : Nodes) (placed order : List Text)
    → Follows nodes placed order
    → Follows
        (without_dependencies id (Dict.delete id nodes))
        (filter (stays id) placed)
        (filter (stays id) order)
without-Follows id nodes placed [] f = tt
without-Follows id nodes placed (c ∷ order) f = elim (Bool-cases (text_eq c id)) [
  | inl same ↦ rw (same) (
      subst
        (λ z. Follows (without_dependencies id (Dict.delete id nodes)) z (filter (stays id) order))
        (filter_gone id c placed same) (without-Follows id nodes (placed ++ c ∷ []) order f.1))
  | inr other ↦ rw (other) (
    λ d p.
        let (i, q) = without-dependencies id nodes c d p in
        ground (arith, includes-filter (stays id) placed d, f.0 d i),
    subst
        (λ z. Follows (without_dependencies id (Dict.delete id nodes)) z (filter (stays id) order))
        (filter_kept id c placed other) (without-Follows id nodes (placed ++ c ∷ []) order f.1),
  )
]

-- In a graph whose nodes are a map, removing a node that is there leaves no dependency on it, and if the
-- graph has an order of execution, the graph without the node has one too.
pub remove_node-execution_order :
    (id : Text) (g : TaskGraph)
    → IsMap g.nodes
    → Dict.has id g.nodes ≡ true
    → let (g', removed) = remove_node id g in
      ((n : Text) → includes (dependencies n g'.nodes) id ≡ false)
      × (((order : List Text) × (execution_order g ≡ valid order))
          → ((order' : List Text) × (execution_order g' ≡ valid order')))
unfolding remove_node execution_order
remove_node-execution_order id g m h =
    let nodes' = without_dependencies id (Dict.delete id g.nodes) in
    rw (h, remove_node)
      (
        λ n. ground (arith, without-dependencies id g.nodes n id, text_eq_refl id),
        λ (order, e).
            let (c, (found, (f, covers))) = (validate_task_graph_iff g.nodes m).0 (order, e) in
            (validate_task_graph_iff nodes'
                (without-IsMap id (Dict.delete id g.nodes) (Dict.delete-IsMap id g.nodes m))).1
              (
                without-AllClosed id g.nodes g.nodes c,
                (
                  filter (stays id) found,
                  (
                    without-Follows id g.nodes [] found f,
                    λ n. ground (
                      arith,
                      covers n,
                      includes-filter (stays id) found n,
                      without-has id n (Dict.delete id g.nodes),
                      Dict.has-delete id n g.nodes,
                      text_eq_comm n id,
                    ),
                  ),
                ),
              ),
      )
