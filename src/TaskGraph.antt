-- ===== src/TaskGraph.antt =====
-- packages/agent-runtime/src/runtime/task-graph.ts: the graph of a task's nodes and its validation. A
-- thrown TaskGraphError is a value; the state after a throw is kept. `now` is the clock, `fresh` the next id.
pub mod Counts
pub mod Edges
pub mod Release
pub mod Start
pub mod Sorting
pub mod Order
pub mod Stuck
pub mod Acceptance
pub mod Explanation
pub mod Operations
mod Tests
use ai_desktop.Base.{
  ℕ, zero, suc, ◌+◌, Bool, true, false, not, ◌&&◌, ◌||◌, Option, none, some, List, [], ◌∷◌, ◌++◌,
  map, Text, length, all, any, filter, ◌==◌, if◌then◌else◌, text_eq, includes, or_else,
}
use ai_desktop.Base.Dict

pub data AgentNodeStatus : Type 0 where
  pending active blocked completed failed cancelled : AgentNodeStatus

pub record RuntimeTaskNode : Type 0 where
  pub id : Text
  pub task_id : Text
  pub parent_id : Option Text
  pub goal : Text
  pub status : AgentNodeStatus
  pub depends_on : List Text
  pub attempts : ℕ
  pub result : Option Text
  pub error : Option Text
  pub created_at : ℕ
  pub updated_at : ℕ

abbrev pub Nodes : Type 0
Nodes = List (Text × RuntimeTaskNode)

-- A number that counts down past 0.
pub data ℤ : Type 0 where
  pos negsuc : ℕ → ℤ

abbrev pub incr : ℤ → ℤ
incr (pos n) = pos (suc n)
incr (negsuc zero) = pos 0
incr (negsuc (suc n)) = negsuc n

abbrev pub decr : ℤ → ℤ
decr (pos zero) = negsuc 0
decr (pos (suc n)) = pos n
decr (negsuc n) = negsuc (suc n)

abbrev pub is_zero : ℤ → Bool
is_zero (pos n) = n == 0
is_zero (negsuc n) = false

pub data GraphError : Type 0 where
  duplicate_node unknown_node : Text → GraphError
  self_dependency : Text → GraphError
  missing_reference : (node dependency : Text) → GraphError
  cycle : (stuck : List Text) → GraphError
  -- The model's loop was cut off.
  unfinished : GraphError

pub data Checked {ℓ} (A : Type ℓ) : Type ℓ where
  valid : A → Checked A
  invalid : GraphError → Checked A

-- The inner loop over `node.dependsOn`.
unfoldable pub check_dependencies : Nodes → Text → List Text → Option GraphError
check_dependencies nodes node_id [] = none
check_dependencies nodes node_id (dep ∷ deps) =
    let rest = check_dependencies nodes node_id deps in
    if text_eq dep node_id
    then some (self_dependency node_id)
    else (if not (Dict.has dep nodes) then some (missing_reference node_id dep) else rest)

unfoldable pub check_references : Nodes → Nodes → Option GraphError
check_references nodes [] = none
check_references nodes ((node_id, node) ∷ rest) =
    let later = check_references nodes rest in
    elim (check_dependencies nodes node_id node.depends_on) [ some e ↦ some e | none ↦ later ]

abbrev pub Degrees : Type 0
Degrees = List (Text × ℤ)

abbrev pub Adjacency : Type 0
Adjacency = List (Text × List Text)

-- Degree 0 and no neighbours for every node.
unfoldable pub zero_degrees : Nodes → Degrees
zero_degrees [] = []
zero_degrees ((k, _) ∷ nodes) = (k, pos 0) ∷ zero_degrees nodes

unfoldable pub no_neighbors : Nodes → Adjacency
no_neighbors [] = []
no_neighbors ((k, _) ∷ nodes) = (k, []) ∷ no_neighbors nodes

-- `map.get(k) ?? d`.
abbrev pub get_or_default : Option ℤ → ℤ → ℤ
get_or_default none d = d
get_or_default (some v) d = v

-- `adjacency.get(depId)?.push(nodeId)`.
unfoldable pub push_neighbor : Text → Text → Adjacency → Adjacency
push_neighbor dep node_id adjacency = elim (Dict.get dep adjacency) [
  | none ↦ adjacency
  | some ns ↦ Dict.set dep (ns ++ node_id ∷ []) adjacency
]

unfoldable pub count_edges : Text → List Text → Degrees → Adjacency → Degrees × Adjacency
count_edges node_id [] degrees adjacency = (degrees, adjacency)
count_edges node_id (dep ∷ deps) degrees adjacency =
    count_edges node_id deps
      (Dict.set node_id (incr (get_or_default (Dict.get node_id degrees) (pos 0))) degrees)
      (push_neighbor dep node_id adjacency)

unfoldable pub count_all_edges : Nodes → Degrees → Adjacency → Degrees × Adjacency
count_all_edges [] degrees adjacency = (degrees, adjacency)
count_all_edges ((node_id, node) ∷ nodes) degrees adjacency =
    let (degrees', adjacency') = count_edges node_id node.depends_on degrees adjacency in
    count_all_edges nodes degrees' adjacency'

-- The nodes of degree 0, in the order of the map.
unfoldable pub roots : Degrees → List Text
roots [] = []
roots ((k, d) ∷ degrees) = let rest = roots degrees in if is_zero d then k ∷ rest else rest

-- The loop over the neighbours of a node.
unfoldable pub release : List Text → Degrees → List Text → Degrees × List Text
release [] degrees queue = (degrees, queue)
release (neighbor ∷ neighbors) degrees queue =
    let next = decr (get_or_default (Dict.get neighbor degrees) (pos 1)) in
    release neighbors (Dict.set neighbor next degrees)
      (if is_zero next then queue ++ neighbor ∷ [] else queue)

abbrev pub neighbors_of : Option (List Text) → List Text
neighbors_of none = []
neighbors_of (some ns) = ns

-- `while (queue.length > 0)`; each round takes a node, so the fuel is the number of nodes.
unfoldable pub kahn : ℕ → Adjacency → Degrees → List Text → List Text → Option (List Text)
kahn fuel adjacency degrees [] order = some order
kahn zero adjacency degrees (current ∷ queue) order = none
kahn (suc fuel) adjacency degrees (current ∷ queue) order =
    let (degrees', queue') = release (neighbors_of (Dict.get current adjacency)) degrees queue in
    kahn fuel adjacency degrees' queue' (order ++ current ∷ [])

abbrev pub keys : Nodes → List Text
keys [] = []
keys ((k, _) ∷ nodes) = k ∷ keys nodes

unfoldable pub finish_order : Nodes → Option (List Text) → Checked (List Text)
finish_order nodes none = invalid unfinished
finish_order nodes (some order) =
    if length order == length nodes
    then valid order
    else invalid (cycle (filter (λ id. not (includes order id)) (keys nodes)))

-- Kahn's topological sort.
unfoldable pub sort_graph : Nodes → Checked (List Text)
sort_graph nodes =
    let (degrees, adjacency) = count_all_edges nodes (zero_degrees nodes) (no_neighbors nodes) in
    finish_order nodes (kahn (length nodes) adjacency degrees (roots degrees) [])

-- `validateTaskGraph`.
unfoldable pub validate_task_graph : Nodes → Checked (List Text)
validate_task_graph nodes = elim (check_references nodes nodes) [
  | some e ↦ invalid e
  | none ↦ sort_graph nodes
]
