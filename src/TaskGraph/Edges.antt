-- ===== src/TaskGraph/Edges.antt =====
-- What the validation of task-graph.ts counts before its loop: a node's degree is the number of its
-- dependencies, and the neighbours of an id are the nodes that depend on it.
use ai_desktop.Base.{
  ℕ, ◌+◌, ◌≡◌, true, some, List, [], ◌∷◌, ◌++◌, Text, arith, length, if◌then◌else◌, text_eq,
  text_eq_iff, length-append, Option-cases, Bool-cases, inl, inr,
}
use ai_desktop.Base.Dict
use ai_desktop.Base.Dict.{IsMap}
use ai_desktop.TaskGraph.{
  Nodes, pos, incr, Degrees, Adjacency, get_or_default, push_neighbor, count_edges, count_all_edges,
  neighbors_of,
}
use ai_desktop.TaskGraph.Counts.{occ, occ-append, occ_one}

-- The dependencies of a node.
unfoldable pub dependencies : Text → Nodes → List Text
dependencies n [] = []
dependencies n ((k, node) ∷ nodes) =
    if text_eq k n then node.depends_on ++ dependencies n nodes else dependencies n nodes

-- How often a node stands among the neighbours of an id.
unfoldable pub edge : Adjacency → Text → Text → ℕ
edge adjacency d n = occ n (neighbors_of (Dict.get d adjacency))

push_neighbor-edge :
    (dep node_id d n : Text) (adjacency : Adjacency)
    → Dict.has dep adjacency ≡ true
    → edge (push_neighbor dep node_id adjacency) d n
      ≡ edge adjacency d n + (if text_eq node_id n then occ d (dep ∷ []) else 0)
unfolding edge push_neighbor
push_neighbor-edge dep node_id d n adjacency h = elim (Option-cases (Dict.get dep adjacency)) [
  | inl absent ↦ absurd (ground (arith, Dict.has-get dep adjacency))
  | inr (ns, present) ↦
      rw (present, push_neighbor)
        (ground (
          arith,
          Dict.get-set dep d (ns ++ node_id ∷ []) adjacency,
          text_eq_iff dep d,
          occ_one d dep,
          occ-append n ns (node_id ∷ []),
          occ_one n node_id,
        ))
]

push_neighbor-has :
    (dep node_id d : Text) (adjacency : Adjacency)
    → Dict.has d adjacency ≡ true
    → Dict.has d (push_neighbor dep node_id adjacency) ≡ true
unfolding push_neighbor
push_neighbor-has dep node_id d adjacency h = elim (Option-cases (Dict.get dep adjacency)) [
  | inl absent ↦ ground arith
  | inr (ns, present) ↦ ground (arith, Dict.has-set dep d (ns ++ node_id ∷ []) adjacency)
]

-- All ids are keys.
abbrev pub Closed {ℓ} : {V : Type ℓ} → List Text → List (Text × V) → Type 0
Closed [] m = Unit
Closed (d ∷ deps) m = (Dict.has d m ≡ true) × Closed deps m

push_neighbor-Closed :
    (dep node_id : Text) (deps : List Text) (adjacency : Adjacency)
    → Closed deps adjacency
    → Closed deps (push_neighbor dep node_id adjacency)
push_neighbor-Closed dep node_id [] adjacency h = tt
push_neighbor-Closed dep node_id (d ∷ deps) adjacency h = (
  push_neighbor-has dep node_id d adjacency h.0,
  push_neighbor-Closed dep node_id deps adjacency h.1,
)

pub count_edges-edge :
    (node_id : Text) (deps : List Text) (degrees : Degrees) (adjacency : Adjacency) (d n : Text)
    → Closed deps adjacency
    → edge ((count_edges node_id deps degrees adjacency).1) d n
      ≡ edge adjacency d n + (if text_eq node_id n then occ d deps else 0)
unfolding count_edges occ
count_edges-edge node_id [] degrees adjacency d n h = ground arith
count_edges-edge node_id (dep ∷ deps) degrees adjacency d n h = ground (
  arith,
  push_neighbor-edge dep node_id d n adjacency h.0,
  count_edges-edge node_id deps
      (Dict.set node_id (incr (get_or_default (Dict.get node_id degrees) (pos 0))) degrees)
      (push_neighbor dep node_id adjacency) d n
      (push_neighbor-Closed dep node_id deps adjacency h.1),
)

-- The degree that one more dependency of a node gives another.
counted :
    (node_id n : Text) (degrees : Degrees) (m : ℕ)
    → Dict.get n degrees ≡ some (pos m)
    → Dict.get n
        (Dict.set node_id (incr (get_or_default (Dict.get node_id degrees) (pos 0))) degrees)
      ≡ some (pos (m + (if text_eq node_id n then 1 else 0)))
counted node_id n degrees m h = elim (Bool-cases (text_eq node_id n)) [
  | inl same ↦ ground (arith, text_eq_iff node_id n, Dict.get-set node_id n (incr (pos m)) degrees)
  | inr other ↦ ground (
    arith,
    Dict.get-set node_id n (incr (get_or_default (Dict.get node_id degrees) (pos 0))) degrees,
  )
]

pub count_edges-degree :
    (node_id : Text) (deps : List Text) (degrees : Degrees) (adjacency : Adjacency) (n : Text)
    (m : ℕ)
    → Dict.get n degrees ≡ some (pos m)
    → Dict.get n ((count_edges node_id deps degrees adjacency).0)
      ≡ some (pos (m + (if text_eq node_id n then length deps else 0)))
unfolding count_edges
count_edges-degree node_id [] degrees adjacency n m h = ground arith
count_edges-degree node_id (dep ∷ deps) degrees adjacency n m h =
    let IH =
      count_edges-degree node_id deps
        (Dict.set node_id (incr (get_or_default (Dict.get node_id degrees) (pos 0))) degrees)
        (push_neighbor dep node_id adjacency) n (m + (if text_eq node_id n then 1 else 0))
        (counted node_id n degrees m h) in
    ground arith

-- The dependencies of every node are keys.
abbrev pub AllClosed {ℓ} : {V : Type ℓ} → Nodes → List (Text × V) → Type 0
AllClosed [] m = Unit
AllClosed ((_, node) ∷ nodes) m = Closed node.depends_on m × AllClosed nodes m

count_edges-Closed :
    (node_id : Text) (deps ds : List Text) (degrees : Degrees) (adjacency : Adjacency)
    → Closed ds adjacency
    → Closed ds ((count_edges node_id deps degrees adjacency).1)
unfolding count_edges
count_edges-Closed node_id [] ds degrees adjacency h = h
count_edges-Closed node_id (dep ∷ deps) ds degrees adjacency h =
    count_edges-Closed node_id deps ds _ _ (push_neighbor-Closed dep node_id ds adjacency h)

count_edges-AllClosed :
    (node_id : Text) (deps : List Text) (nodes : Nodes) (degrees : Degrees) (adjacency : Adjacency)
    → AllClosed nodes adjacency
    → AllClosed nodes ((count_edges node_id deps degrees adjacency).1)
count_edges-AllClosed node_id deps [] degrees adjacency h = tt
count_edges-AllClosed node_id deps ((k, node) ∷ nodes) degrees adjacency h = (
  count_edges-Closed node_id deps node.depends_on degrees adjacency h.0,
  count_edges-AllClosed node_id deps nodes degrees adjacency h.1,
)

pub count_all_edges-edge :
    (nodes : Nodes) (degrees : Degrees) (adjacency : Adjacency) (d n : Text)
    → AllClosed nodes adjacency
    → edge ((count_all_edges nodes degrees adjacency).1) d n
      ≡ edge adjacency d n + occ d (dependencies n nodes)
unfolding count_all_edges dependencies occ
count_all_edges-edge [] degrees adjacency d n h = omega arith
count_all_edges-edge ((k, node) ∷ nodes) degrees adjacency d n h =
    let (degrees', adjacency') = count_edges k node.depends_on degrees adjacency in
    ground (
      arith,
      count_edges-edge k node.depends_on degrees adjacency d n h.0,
      occ-append d node.depends_on (dependencies n nodes),
      count_all_edges-edge nodes degrees' adjacency' d n
          (count_edges-AllClosed k node.depends_on nodes degrees adjacency h.1),
    )

pub count_all_edges-degree :
    (nodes : Nodes) (degrees : Degrees) (adjacency : Adjacency) (n : Text) (m : ℕ)
    → Dict.get n degrees ≡ some (pos m)
    → Dict.get n ((count_all_edges nodes degrees adjacency).0)
      ≡ some (pos (m + length (dependencies n nodes)))
unfolding count_all_edges dependencies
count_all_edges-degree [] degrees adjacency n m h = ground arith
count_all_edges-degree ((k, node) ∷ nodes) degrees adjacency n m h =
    let (degrees', adjacency') = count_edges k node.depends_on degrees adjacency in
    let IH =
      count_all_edges-degree nodes degrees' adjacency' n
        (m + (if text_eq k n then length node.depends_on else 0))
        (count_edges-degree k node.depends_on degrees adjacency n m h) in
    ground (arith, length-append node.depends_on (dependencies n nodes))
