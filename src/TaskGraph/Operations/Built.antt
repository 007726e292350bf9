-- ===== src/TaskGraph/Operations/Built.antt =====
-- The graphs that calls of the class `TaskGraph` build, whatever the calls throw.
use ai_desktop.Base.{
  ℕ, ◌≡◌, refl, some, [], ◌∷◌, Text, arith, text_eq_iff, Option-cases, Bool-cases, inl, inr,
  or_else,
}
use ai_desktop.Base.Dict
use ai_desktop.Base.Dict.{IsMap}
use ai_desktop.TaskGraph.{AgentNodeStatus, RuntimeTaskNode, Nodes}
use ai_desktop.TaskGraph.Operations.{
  TaskGraph, TaskNodeSpec, new_node, insert_node, add_node, remove_node, without_dependency,
  without_dependencies, write_node, set_node_status, record_attempt, set_node_result,
  set_node_error,
}
use ai_desktop.TaskGraph.Operations.Kept.{without-IsMap}

-- The graph after some calls.
pub data Built : TaskGraph → Type 0 where
  empty : (task_id : Text) → Built (record { task_id = task_id; nodes = []; root_node_ids = [] })
  added :
      {g : TaskGraph}
      → Built g
      → (spec : TaskNodeSpec) (now : ℕ) (fresh : Text) → Built ((add_node spec now fresh g).0)
  removed : {g : TaskGraph} → Built g → (id : Text) → Built ((remove_node id g).0)
  status_set :
      {g : TaskGraph}
      → Built g
      → (id : Text) (status : AgentNodeStatus) (now : ℕ)
      → Built ((set_node_status id status now g).0)
  attempt_recorded :
      {g : TaskGraph} → Built g → (id : Text) (now : ℕ) → Built ((record_attempt id now g).0)
  result_set :
      {g : TaskGraph}
      → Built g
      → (id result : Text) (now : ℕ) → Built ((set_node_result id result now g).0)
  error_set :
      {g : TaskGraph}
      → Built g
      → (id error : Text) (now : ℕ) → Built ((set_node_error id error now g).0)

-- Each node stands under its own id.
abbrev pub Keyed : Nodes → Type 0
Keyed [] = Unit
Keyed ((k, node) ∷ nodes) = (node.id ≡ k) × Keyed nodes

pub record Inv (g : TaskGraph) : Type 0 where
  pub is_map : IsMap g.nodes
  pub keyed : Keyed g.nodes

set-Keyed :
    (k : Text) (node : RuntimeTaskNode) (nodes : Nodes)
    → node.id ≡ k
    → Keyed nodes
    → Keyed (Dict.set k node nodes)
unfolding Dict.set
set-Keyed k node [] e h = (e, tt)
set-Keyed k node ((j, w) ∷ nodes) e h =
    ground (arith, text_eq_iff j k, set-Keyed k node nodes e h.1)

delete-Keyed : (k : Text) (nodes : Nodes) → Keyed nodes → Keyed (Dict.delete k nodes)
unfolding Dict.delete
delete-Keyed k [] h = tt
delete-Keyed k ((j, w) ∷ nodes) h = ground (arith, delete-Keyed k nodes h.1)

without-Keyed : (id : Text) (nodes : Nodes) → Keyed nodes → Keyed (without_dependencies id nodes)
unfolding without_dependencies without_dependency
without-Keyed id [] h = tt
without-Keyed id ((j, w) ∷ nodes) h = (h.0, without-Keyed id nodes h.1)

get-Keyed :
    (k : Text) (node : RuntimeTaskNode) (nodes : Nodes)
    → Keyed nodes
    → Dict.get k nodes ≡ some node
    → node.id ≡ k
unfolding Dict.get
get-Keyed k node [] h e = cc
get-Keyed k node ((j, w) ∷ nodes) h e =
    ground (arith, text_eq_iff j k, get-Keyed k node nodes h.1, h.0)

add_node-Inv :
    (spec : TaskNodeSpec) (now : ℕ) (fresh : Text) (g : TaskGraph)
    → Inv g
    → Inv ((add_node spec now fresh g).0)
unfolding add_node insert_node new_node
add_node-Inv spec now fresh g i =
    let id = or_else spec.id fresh in
    let node = new_node id g.task_id now spec in
    elim (Bool-cases (Dict.has id g.nodes)) [
      | inl there ↦ rw (there, add_node) i
      | inr new ↦
          rw (new, add_node)
            (record {
              is_map = Dict.set-IsMap id node g.nodes i.is_map;
              keyed = set-Keyed id node g.nodes refl i.keyed;
            })
    ]

remove_node-Inv : (id : Text) (g : TaskGraph) → Inv g → Inv ((remove_node id g).0)
unfolding remove_node
remove_node-Inv id g i = elim (Bool-cases (Dict.has id g.nodes)) [
  | inl there ↦
      rw (there, remove_node)
        (record {
          is_map =
              without-IsMap id (Dict.delete id g.nodes) (Dict.delete-IsMap id g.nodes i.is_map);
          keyed = without-Keyed id (Dict.delete id g.nodes) (delete-Keyed id g.nodes i.keyed);
        })
  | inr missing ↦ rw (missing, remove_node) i
]

write_node-Inv :
    (id : Text) (write : RuntimeTaskNode → RuntimeTaskNode) (g : TaskGraph)
    → ((node : RuntimeTaskNode) → (write node).id ≡ node.id)
    → Inv g
    → Inv ((write_node id write g).0)
unfolding write_node
write_node-Inv id write g same i = elim (Option-cases (Dict.get id g.nodes)) [
  | inl missing ↦ rw (missing, write_node) i
  | inr (node, found) ↦
      rw (found, write_node)
        (record {
          is_map = Dict.set-IsMap id (write node) g.nodes i.is_map;
          keyed =
              set-Keyed id (write node) g.nodes
                (ground (arith, same node, get-Keyed id node g.nodes i.keyed found)) i.keyed;
        })
]

-- In every graph that calls build, throws included, the nodes are a map and each stands under its own id.
Built-Inv : (g : TaskGraph) → Built g → Inv g
unfolding set_node_status record_attempt set_node_result set_node_error
Built-Inv _ (empty task_id) = record { is_map = tt; keyed = tt }
Built-Inv _ (added {g} b spec now fresh) = add_node-Inv spec now fresh g (Built-Inv g b)
Built-Inv _ (removed {g} b id) = remove_node-Inv id g (Built-Inv g b)
Built-Inv _ (status_set {g} b id status now) = write_node-Inv id _ g (λ node. refl) (Built-Inv g b)
Built-Inv _ (attempt_recorded {g} b id now) = write_node-Inv id _ g (λ node. refl) (Built-Inv g b)
Built-Inv _ (result_set {g} b id result now) = write_node-Inv id _ g (λ node. refl) (Built-Inv g b)
Built-Inv _ (error_set {g} b id error now) = write_node-Inv id _ g (λ node. refl) (Built-Inv g b)
