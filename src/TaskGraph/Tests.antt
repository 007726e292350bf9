-- ===== src/TaskGraph/Tests.antt =====
-- Runs of the validation and the operations of task-graph.ts on small graphs.
use ai_desktop.Base.{
  ◌≡◌, ◌↔◌, refl, true, false, none, some, List, [], ◌∷◌, Text, codes, includes, text_eq,
}
use ai_desktop.Base.Dict
use ai_desktop.Base.Dict.{IsMap}
use ai_desktop.TaskGraph.{
  RuntimeTaskNode, Nodes, valid, invalid, cycle, missing_reference, check_dependencies,
  check_references, zero_degrees, no_neighbors, push_neighbor, count_edges, count_all_edges, roots,
  release, kahn, finish_order, sort_graph, validate_task_graph,
}
use ai_desktop.TaskGraph.Edges.{Closed, AllClosed, dependencies}
use ai_desktop.TaskGraph.Order.{IsOrder, Schedule}
use ai_desktop.TaskGraph.Acceptance.{validate_task_graph-Schedule, validate_task_graph_iff}
use ai_desktop.TaskGraph.Operations.{
  TaskGraph, TaskNodeSpec, new_node, insert_node, add_node, remove_node, execution_order,
}
use ai_desktop.TaskGraph.Explanation.{Explains, validate_task_graph-Explains}
use ai_desktop.TaskGraph.Operations.Added.{IsAsked, add_node-execution_order}
use ai_desktop.TaskGraph.Operations.Kept.{remove_node-execution_order}

abbrev a : Text
a = codes "a"

abbrev b : Text
b = codes "b"

abbrev c : Text
c = codes "c"

abbrev spec : Text → List Text → TaskNodeSpec
spec id deps = record { id = some id; parent_id = none; goal = codes "g"; depends_on = some deps }

abbrev node : Text → List Text → Nodes → Nodes
unfolding new_node
node id deps nodes = (id, new_node id (codes "t") 5 (spec id deps)) ∷ nodes

-- c needs b, and b needs a.
abbrev chain : Nodes
unfolding new_node
chain = node c (b ∷ []) (node a [] (node b (a ∷ []) []))

-- a and b need each other.
abbrev ring : Nodes
ring = node c [] (node a (b ∷ []) (node b (a ∷ []) []))

abbrev graph : Nodes → TaskGraph
graph nodes = record { task_id = codes "t"; nodes = nodes; root_node_ids = [] }

chain-IsMap : IsMap chain
unfolding Dict.has text_eq chain
chain-IsMap = (refl, (refl, (refl, tt)))

ring-IsMap : IsMap ring
unfolding Dict.has text_eq node
ring-IsMap = (refl, (refl, (refl, tt)))

chain_order : validate_task_graph chain ≡ valid (a ∷ b ∷ c ∷ [])
unfolding validate_task_graph check_references check_dependencies zero_degrees no_neighbors
    push_neighbor count_edges count_all_edges roots release kahn finish_order sort_graph includes
    text_eq Dict.has Dict.get Dict.set new_node
chain_order = refl

ring_cycle : validate_task_graph ring ≡ invalid (cycle (a ∷ b ∷ []))
unfolding validate_task_graph check_references check_dependencies zero_degrees no_neighbors
    push_neighbor count_edges count_all_edges roots release kahn finish_order sort_graph includes
    text_eq Dict.has Dict.get Dict.set new_node
ring_cycle = refl

validate_task_graph-Schedule_example : Schedule chain (a ∷ b ∷ c ∷ [])
validate_task_graph-Schedule_example =
    validate_task_graph-Schedule chain (a ∷ b ∷ c ∷ []) chain-IsMap chain_order

validate_task_graph-Explains_example : Explains ring (cycle (a ∷ b ∷ []))
validate_task_graph-Explains_example =
    validate_task_graph-Explains ring (cycle (a ∷ b ∷ [])) ring-IsMap ring_cycle

validate_task_graph_iff_example :
    ((order : List Text) × (validate_task_graph chain ≡ valid order))
    ↔ (AllClosed chain chain × ((order : List Text) × IsOrder chain order))
validate_task_graph_iff_example = validate_task_graph_iff chain chain-IsMap

abbrev d : Text
d = codes "d"

chain_runs : execution_order (graph chain) ≡ valid (a ∷ b ∷ c ∷ [])
unfolding execution_order
chain_runs = chain_order

absent : Dict.has d (graph chain).nodes ≡ false
unfolding Dict.has text_eq chain
absent = refl

-- A node that needs b joins the chain.
add_node-execution_order_example :
    let (g', result) = add_node (spec d (b ∷ [])) 5 a (graph chain) in
    (n : RuntimeTaskNode) × IsAsked d (codes "t") 5 (spec d (b ∷ [])) n
    × (Dict.get d g'.nodes ≡ some n)
    × ((k : Text) → text_eq d k ≡ false → Dict.get k g'.nodes ≡ Dict.get k chain)
    × ((result ≡ valid n) ↔ Closed (b ∷ []) chain)
    × ((result ≡ valid n) ↔ ((order' : List Text) × (execution_order g' ≡ valid order')))
add_node-execution_order_example =
    add_node-execution_order (spec d (b ∷ [])) 5 a (graph chain) chain-IsMap absent
      (a ∷ b ∷ c ∷ [], chain_runs)

present : Dict.has b (graph chain).nodes ≡ true
unfolding Dict.has text_eq chain
present = refl

remove_node-execution_order_example :
    let (g', removed) = remove_node b (graph chain) in
    ((n : Text) → includes (dependencies n g'.nodes) b ≡ false)
    × (((order : List Text) × (execution_order (graph chain) ≡ valid order))
        → ((order' : List Text) × (execution_order g' ≡ valid order')))
remove_node-execution_order_example =
    remove_node-execution_order b (graph chain) chain-IsMap present

refused_stays : (add_node (spec c (b ∷ [])) 5 a (graph [])).1 ≡ invalid (missing_reference c b)
unfolding add_node insert_node validate_task_graph check_references check_dependencies text_eq
    Dict.has Dict.get Dict.set new_node
refused_stays = refl
