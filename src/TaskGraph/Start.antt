-- ===== src/TaskGraph/Start.antt =====
-- The state in which the topological sort of task-graph.ts starts: the checks of the references, the maps it
-- counts in, and the nodes without a dependency.
use ai_desktop.Base.{
  ◌≡◌, refl, ◌∙◌, true, false, none, some, List, [], ◌∷◌, Text, arith, if◌then◌else◌, text_eq,
  text_eq_iff,
}
use ai_desktop.Base.Dict
use ai_desktop.Base.Dict.{IsMap}
use ai_desktop.TaskGraph.{
  Nodes, ℤ, pos, is_zero, incr, Degrees, Adjacency, get_or_default, zero_degrees, no_neighbors,
  check_dependencies, check_references, count_edges, count_all_edges, roots,
}
use ai_desktop.TaskGraph.Counts.{occ}
use ai_desktop.TaskGraph.Edges.{Closed, AllClosed, edge}

pub zero_degrees-get :
    (nodes : Nodes) (n : Text)
    → Dict.has n nodes ≡ true
    → Dict.get n (zero_degrees nodes) ≡ some (pos 0)
unfolding zero_degrees Dict.has Dict.get
zero_degrees-get [] n h = ground arith
zero_degrees-get ((k, node) ∷ nodes) n h = ground (arith, zero_degrees-get nodes n)

pub zero_degrees-has :
    (nodes : Nodes) (n : Text) → Dict.has n (zero_degrees nodes) ≡ Dict.has n nodes
unfolding zero_degrees Dict.has
zero_degrees-has [] n = refl
zero_degrees-has ((k, node) ∷ nodes) n = ground (arith, zero_degrees-has nodes n)

pub zero_degrees-IsMap : (nodes : Nodes) → IsMap nodes → IsMap (zero_degrees nodes)
unfolding zero_degrees
zero_degrees-IsMap [] h = tt
zero_degrees-IsMap ((k, node) ∷ nodes) h =
    (zero_degrees-has nodes k ∙ h.0, zero_degrees-IsMap nodes h.1)

no_neighbors-has : (nodes : Nodes) (n : Text) → Dict.has n (no_neighbors nodes) ≡ Dict.has n nodes
unfolding no_neighbors Dict.has
no_neighbors-has [] n = refl
no_neighbors-has ((k, node) ∷ nodes) n = ground (arith, no_neighbors-has nodes n)

pub no_neighbors-edge : (nodes : Nodes) (d n : Text) → edge (no_neighbors nodes) d n ≡ 0
unfolding no_neighbors edge Dict.get occ
no_neighbors-edge [] d n = refl
no_neighbors-edge ((k, node) ∷ nodes) d n = ground (arith, no_neighbors-edge nodes d n)

-- What the inner check passes has only keys.
pub check_dependencies-Closed :
    (nodes : Nodes) (node_id : Text) (deps : List Text)
    → check_dependencies nodes node_id deps ≡ none
    → Closed deps nodes
unfolding check_dependencies
check_dependencies-Closed nodes node_id [] h = tt
check_dependencies-Closed nodes node_id (dep ∷ deps) h =
    (ground arith, check_dependencies-Closed nodes node_id deps (ground arith))

no_neighbors-Closed :
    (nodes : Nodes) (deps : List Text) → Closed deps nodes → Closed deps (no_neighbors nodes)
no_neighbors-Closed nodes [] h = tt
no_neighbors-Closed nodes (d ∷ deps) h =
    (no_neighbors-has nodes d ∙ h.0, no_neighbors-Closed nodes deps h.1)

pub check_references-AllClosed :
    (all rest : Nodes) → check_references all rest ≡ none → AllClosed rest (no_neighbors all)
unfolding check_references
check_references-AllClosed all [] h = tt
check_references-AllClosed all ((k, node) ∷ rest) h = (
  no_neighbors-Closed all node.depends_on
      (check_dependencies-Closed all k node.depends_on (ground arith)),
  check_references-AllClosed all rest (ground arith),
)

count_edges-has :
    (node_id : Text) (deps : List Text) (degrees : Degrees) (adjacency : Adjacency) (n : Text)
    → text_eq node_id n ≡ false
    → Dict.has n degrees ≡ false
    → Dict.has n ((count_edges node_id deps degrees adjacency).0) ≡ false
unfolding count_edges
count_edges-has node_id [] degrees adjacency n h p = p
count_edges-has node_id (dep ∷ deps) degrees adjacency n h p =
    let next = incr (get_or_default (Dict.get node_id degrees) (pos 0)) in
    count_edges-has node_id deps _ _ n h (ground (arith, Dict.has-set node_id n next degrees))

pub count_all_edges-has :
    (nodes : Nodes) (degrees : Degrees) (adjacency : Adjacency) (n : Text)
    → Dict.has n nodes ≡ false
    → Dict.has n degrees ≡ false
    → Dict.has n ((count_all_edges nodes degrees adjacency).0) ≡ false
unfolding count_all_edges Dict.has
count_all_edges-has [] degrees adjacency n h p = p
count_all_edges-has ((k, node) ∷ nodes) degrees adjacency n h p =
    count_all_edges-has nodes _ _ n (ground arith)
      (count_edges-has k node.depends_on degrees adjacency n (ground arith) p)

count_edges-IsMap :
    (node_id : Text) (deps : List Text) (degrees : Degrees) (adjacency : Adjacency)
    → IsMap degrees
    → IsMap ((count_edges node_id deps degrees adjacency).0)
unfolding count_edges
count_edges-IsMap node_id [] degrees adjacency h = h
count_edges-IsMap node_id (dep ∷ deps) degrees adjacency h =
    count_edges-IsMap node_id deps _ _ (Dict.set-IsMap node_id _ degrees h)

pub count_all_edges-IsMap :
    (nodes : Nodes) (degrees : Degrees) (adjacency : Adjacency)
    → IsMap degrees
    → IsMap ((count_all_edges nodes degrees adjacency).0)
unfolding count_all_edges
count_all_edges-IsMap [] degrees adjacency h = h
count_all_edges-IsMap ((k, node) ∷ nodes) degrees adjacency h =
    count_all_edges-IsMap nodes _ _ (count_edges-IsMap k node.depends_on degrees adjacency h)

-- The roots are the keys of degree 0, each once.
pub roots_absent :
    (degrees : Degrees) (n : Text) → Dict.has n degrees ≡ false → occ n (roots degrees) ≡ 0
unfolding roots Dict.has occ
roots_absent [] n h = refl
roots_absent ((k, d) ∷ degrees) n h = ground (arith, roots_absent degrees n)

pub roots_lem :
    (degrees : Degrees) (n : Text) (z : ℤ)
    → IsMap degrees
    → Dict.get n degrees ≡ some z
    → occ n (roots degrees) ≡ (if is_zero z then 1 else 0)
unfolding roots Dict.get occ
roots_lem [] n z m h = cc
roots_lem ((k, d) ∷ degrees) n z m h =
    ground (arith, roots_absent degrees n, text_eq_iff k n, roots_lem degrees n z m.1)
