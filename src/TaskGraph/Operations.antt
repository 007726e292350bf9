-- ===== src/TaskGraph/Operations.antt =====
-- The class `TaskGraph` of task-graph.ts. An operation returns the graph after it, also after a throw, and its
-- result. `now` is the clock and `fresh` the id that `createTaskNodeId` returns; a node's result is opaque.
pub mod Kept
pub mod Added
pub mod Built
use ai_desktop.Base.{
  ℕ, zero, suc, ◌+◌, Bool, true, false, not, ◌&&◌, ◌||◌, Option, none, some, List, [], ◌∷◌, ◌++◌,
  map, Text, length, all, any, filter, ◌==◌, if◌then◌else◌, text_eq, includes, or_else,
}
use ai_desktop.Base.Dict
use ai_desktop.TaskGraph.{
  AgentNodeStatus, RuntimeTaskNode, Nodes, GraphError, Checked, valid, invalid, duplicate_node,
  unknown_node, validate_task_graph,
}

pub record TaskGraph : Type 0 where
  pub task_id : Text
  pub nodes : Nodes
  pub root_node_ids : List Text

pub record TaskNodeSpec : Type 0 where
  pub id : Option Text
  pub parent_id : Option Text
  pub goal : Text
  pub depends_on : Option (List Text)

abbrev pub listed : Option (List Text) → List Text
listed none = []
listed (some ids) = ids

unfoldable pub new_node : Text → Text → ℕ → TaskNodeSpec → RuntimeTaskNode
new_node id task_id now spec = record {
  id = id;
  task_id = task_id;
  parent_id = spec.parent_id;
  goal = spec.goal;
  status = AgentNodeStatus.pending;
  depends_on = listed spec.depends_on;
  attempts = 0;
  result = none;
  error = none;
  created_at = now;
  updated_at = now;
}

abbrev is_root : List Text → Bool
is_root [] = true
is_root (d ∷ deps) = false

-- The node is stored before the graph is validated.
unfoldable pub insert_node : RuntimeTaskNode → TaskGraph → TaskGraph
insert_node node g = record g {
  nodes = Dict.set node.id node g.nodes;
  root_node_ids =
      if is_root node.depends_on && not (includes g.root_node_ids node.id)
      then g.root_node_ids ++ node.id ∷ []
      else g.root_node_ids;
}

abbrev checked_node : RuntimeTaskNode → Checked (List Text) → Checked RuntimeTaskNode
checked_node node (valid order) = valid node
checked_node node (invalid e) = invalid e

unfoldable pub add_node : TaskNodeSpec → ℕ → Text → TaskGraph → TaskGraph × Checked RuntimeTaskNode
add_node spec now fresh g =
    let id = or_else spec.id fresh in
    let node = new_node id g.task_id now spec in
    let g' = insert_node node g in
    if Dict.has id g.nodes
    then (g, invalid (duplicate_node id))
    else (g', checked_node node (validate_task_graph g'.nodes))

-- The constructor adds its specs in turn; the first that throws leaves no graph.
unfoldable pub add_specs :
    List TaskNodeSpec → (ℕ → ℕ) → (ℕ → Text) → ℕ → TaskGraph → Checked TaskGraph
add_specs [] now fresh i g = valid g
add_specs (spec ∷ specs) now fresh i g =
    let (g', added) = add_node spec (now i) (fresh i) g in
    let rest = add_specs specs now fresh (suc i) g' in
    elim added [ valid node ↦ rest | invalid e ↦ invalid e ]

unfoldable pub create_task_graph :
    Text → List TaskNodeSpec → (ℕ → ℕ) → (ℕ → Text) → Checked TaskGraph
create_task_graph task_id specs now fresh =
    add_specs specs now fresh 0 (record { task_id = task_id; nodes = []; root_node_ids = [] })

-- `splice` at the first index.
unfoldable pub remove_first : Text → List Text → List Text
remove_first id [] = []
remove_first id (x ∷ xs) = let rest = remove_first id xs in if text_eq x id then xs else x ∷ rest

unfoldable pub without_dependency : Text → RuntimeTaskNode → RuntimeTaskNode
without_dependency id node = record node {
  depends_on = filter (λ dep. not (text_eq dep id)) node.depends_on;
}

unfoldable pub without_dependencies : Text → Nodes → Nodes
without_dependencies id [] = []
without_dependencies id ((k, node) ∷ nodes) =
    (k, without_dependency id node) ∷ without_dependencies id nodes

unfoldable pub remove_node : Text → TaskGraph → TaskGraph × Bool
remove_node id g =
    if Dict.has id g.nodes
    then (
      record g {
        nodes = without_dependencies id (Dict.delete id g.nodes);
        root_node_ids = remove_first id g.root_node_ids;
      },
      true,
    )
    else (g, false)

-- A write to a node, which must be there.
unfoldable pub write_node :
    Text → (RuntimeTaskNode → RuntimeTaskNode) → TaskGraph → TaskGraph × Checked RuntimeTaskNode
write_node id write g = elim (Dict.get id g.nodes) [
  | none ↦ (g, invalid (unknown_node id))
  | some node ↦ (record g { nodes = Dict.set id (write node) g.nodes }, valid (write node))
]

unfoldable pub set_node_status :
    Text → AgentNodeStatus → ℕ → TaskGraph → TaskGraph × Checked RuntimeTaskNode
set_node_status id status now g =
    write_node id (λ node. record node { status = status; updated_at = now }) g

-- The result's `attempts` is what the code returns.
unfoldable pub record_attempt : Text → ℕ → TaskGraph → TaskGraph × Checked RuntimeTaskNode
record_attempt id now g =
    write_node id (λ node. record node { attempts = suc node.attempts; updated_at = now }) g

unfoldable pub set_node_result : Text → Text → ℕ → TaskGraph → TaskGraph × Checked RuntimeTaskNode
set_node_result id result now g =
    write_node id (λ node. record node { result = some result; updated_at = now }) g

unfoldable pub set_node_error : Text → Text → ℕ → TaskGraph → TaskGraph × Checked RuntimeTaskNode
set_node_error id error now g =
    write_node id (λ node. record node { error = some error; updated_at = now }) g

unfoldable pub is_completed : Option RuntimeTaskNode → Bool
is_completed (some node) = elim node.status [ AgentNodeStatus.completed ↦ true | _ ↦ false ]
is_completed none = false

abbrev is_pending : AgentNodeStatus → Bool
is_pending AgentNodeStatus.pending = true
is_pending _ = false

unfoldable pub is_ready : Nodes → RuntimeTaskNode → Bool
is_ready nodes node =
    is_pending node.status && all (λ dep. is_completed (Dict.get dep nodes)) node.depends_on

unfoldable pub ready_nodes : TaskGraph → List RuntimeTaskNode
ready_nodes g = filter (is_ready g.nodes) (Dict.values g.nodes)

unfoldable pub get_dependents : Text → TaskGraph → List RuntimeTaskNode
get_dependents id g = filter (λ n. includes n.depends_on id) (Dict.values g.nodes)

unfoldable pub execution_order : TaskGraph → Checked (List Text)
execution_order g = validate_task_graph g.nodes

abbrev is_open : AgentNodeStatus → Bool
is_open AgentNodeStatus.pending = true
is_open AgentNodeStatus.active = true
is_open AgentNodeStatus.blocked = true
is_open _ = false

unfoldable pub all_terminal : TaskGraph → Bool
all_terminal g = all (λ n. not (is_open n.status)) (Dict.values g.nodes)

abbrev is_failed : AgentNodeStatus → Bool
is_failed AgentNodeStatus.failed = true
is_failed _ = false

unfoldable pub has_failed : TaskGraph → Bool
has_failed g = any (λ n. is_failed n.status) (Dict.values g.nodes)
