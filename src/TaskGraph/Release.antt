-- ===== src/TaskGraph/Release.antt =====
-- The loop of task-graph.ts over a node's neighbours: an id joins the queue at the round in which its last
-- dependency is taken, and only then.
use ai_desktop.Base.{
  ℕ, zero, suc, ◌+◌, ◌≤◌, ◌<◌, ◌≡◌, refl, sym, false, some, List, [], ◌∷◌, ◌++◌, Text, arith,
  if◌then◌else◌, text_eq, text_eq_iff, text_eq_refl, Bool-cases, inl, inr, subst,
}
use ai_desktop.Base.Dict
use ai_desktop.TaskGraph.{ℤ, pos, negsuc, decr, is_zero, Degrees, get_or_default, release}
use ai_desktop.TaskGraph.Counts.{occ, occ-append, occ_one}

-- `t - s`.
abbrev pub minus : ℕ → ℕ → ℤ
minus t zero = pos t
minus zero (suc s) = negsuc s
minus (suc t) (suc s) = minus t s

-- 1 if `s` has reached `t`.
abbrev pub reached : ℕ → ℕ → ℕ
reached zero s = 1
reached (suc t) zero = 0
reached (suc t) (suc s) = reached t s

decr-minus : (t s : ℕ) → decr (minus t s) ≡ minus t (suc s)
decr-minus zero zero = refl
decr-minus (suc t) zero = refl
decr-minus zero (suc s) = refl
decr-minus (suc t) (suc s) = decr-minus t s

is_zero-minus :
    (t s : ℕ) → (if is_zero (minus t (suc s)) then 1 else 0) + reached t s ≡ reached t (suc s)
is_zero-minus zero s = omega arith
is_zero-minus (suc zero) zero = omega arith
is_zero-minus (suc (suc t)) zero = ground arith
is_zero-minus (suc t) (suc s) = is_zero-minus t s

pub reached_start : (t : ℕ) → reached t 0 ≡ (if is_zero (pos t) then 1 else 0)
reached_start zero = refl
reached_start (suc t) = ground arith

pub reached-le : (t s : ℕ) → 1 ≤ reached t s → t ≤ s
reached-le zero s h = omega arith
reached-le (suc t) zero h = omega arith
reached-le (suc t) (suc s) h = omega (arith, reached-le t s h)

pub reached-lt : (t s : ℕ) → reached t s ≡ 0 → s < t
reached-lt zero s h = omega arith
reached-lt (suc t) zero h = omega arith
reached-lt (suc t) (suc s) h = omega (arith, reached-lt t s h)

pub reached_le_one : (t s : ℕ) → reached t s ≤ 1
reached_le_one zero s = omega arith
reached_le_one (suc t) zero = omega arith
reached_le_one (suc t) (suc s) = reached_le_one t s

-- Of `t` dependencies of `n`, `s` were taken; `placed` counts `n` in the queue and the order.
pub record Waits (degrees : Degrees) (placed : ℕ) (n : Text) (t s : ℕ) : Type 0 where
  pub degree : Dict.get n degrees ≡ some (minus t s)
  pub once : placed ≡ reached t s

-- The queue after one neighbour.
abbrev next_queue : Text → ℤ → List Text → List Text
next_queue neighbor next queue = if is_zero next then queue ++ neighbor ∷ [] else queue

next_lem :
    (n : Text) (t s : ℕ) (degrees : Degrees)
    → Dict.get n degrees ≡ some (minus t s)
    → decr (get_or_default (Dict.get n degrees) (pos 1)) ≡ minus t (suc s)
next_lem n t s degrees h = ground (arith, decr-minus t s)

release_same :
    (n : Text) (t s taken : ℕ) (degrees : Degrees) (queue : List Text)
    → Waits degrees (occ n queue + taken) n t s
    → Waits
        (Dict.set n (minus t (suc s)) degrees)
        (occ n (next_queue n (minus t (suc s)) queue) + taken)
        n
        t
        (suc s)
release_same n t s taken degrees queue w = record {
  degree = Dict.get-set_self n (minus t (suc s)) degrees;
  once =
      ground (
        arith,
        w.once,
        occ-append n queue (n ∷ []),
        occ_one n n,
        text_eq_refl n,
        is_zero-minus t s,
      );
}

release_other :
    (m n : Text) (t s taken : ℕ) (degrees : Degrees) (queue : List Text) (next : ℤ)
    → text_eq m n ≡ false
    → Waits degrees (occ n queue + taken) n t s
    → Waits (Dict.set m next degrees) (occ n (next_queue m next queue) + taken) n t s
release_other m n t s taken degrees queue next h w = record {
  degree = ground (arith, w.degree, Dict.get-set m n next degrees);
  once = ground (arith, w.once, occ-append n queue (m ∷ []), occ_one n m);
}

-- One neighbour.
abbrev next_degree : Text → Degrees → ℤ
next_degree m degrees = decr (get_or_default (Dict.get m degrees) (pos 1))

release_step :
    (m n : Text) (t s taken : ℕ) (degrees : Degrees) (queue : List Text)
    → Waits degrees (occ n queue + taken) n t s
    → Waits
        (Dict.set m (next_degree m degrees) degrees)
        (occ n (next_queue m (next_degree m degrees) queue) + taken)
        n
        t
        (s + (if text_eq m n then 1 else 0))
release_step m n t s taken degrees queue w = elim (Bool-cases (text_eq m n)) [
  | inl same ↦
      subst
        (λ k.
          Waits (Dict.set m (next_degree m degrees) degrees)
            (occ n (next_queue m (next_degree m degrees) queue) + taken) n t k)
        (ground arith)
        (subst
          (λ i.
            Waits (Dict.set i (next_degree i degrees) degrees)
              (occ n (next_queue i (next_degree i degrees) queue) + taken) n t (suc s))
          (sym ((text_eq_iff m n).0 same))
          (subst
            (λ z. Waits (Dict.set n z degrees) (occ n (next_queue n z queue) + taken) n t (suc s))
            (sym (next_lem n t s degrees w.degree)) (release_same n t s taken degrees queue w)))
  | inr other ↦
      subst
        (λ k.
          Waits (Dict.set m (next_degree m degrees) degrees)
            (occ n (next_queue m (next_degree m degrees) queue) + taken) n t k)
        (ground arith) (release_other m n t s taken degrees queue (next_degree m degrees) other w)
]

pub release-Waits :
    (neighbors : List Text) (degrees : Degrees) (queue : List Text) (n : Text) (t s taken : ℕ)
    → Waits degrees (occ n queue + taken) n t s
    → let (degrees', queue') = release neighbors degrees queue in
      Waits degrees' (occ n queue' + taken) n t (s + occ n neighbors)
unfolding release occ
release-Waits [] degrees queue n t s taken w =
    subst (λ k. Waits degrees (occ n queue + taken) n t k) (omega arith) w
release-Waits (m ∷ neighbors) degrees queue n t s taken w =
    let next = next_degree m degrees in
    let (degrees', queue') =
      release neighbors (Dict.set m next degrees) (next_queue m next queue) in
    subst (λ k. Waits degrees' (occ n queue' + taken) n t k) (omega arith)
      (release-Waits neighbors (Dict.set m next degrees) (next_queue m next queue) n t
        (s + (if text_eq m n then 1 else 0)) taken (release_step m n t s taken degrees queue w))

-- An id that is no neighbour keeps its place.
pub release-occ :
    (neighbors : List Text) (degrees : Degrees) (queue : List Text) (n : Text)
    → occ n neighbors ≡ 0
    → occ n ((release neighbors degrees queue).1) ≡ occ n queue
unfolding release occ
release-occ [] degrees queue n h = refl
release-occ (m ∷ neighbors) degrees queue n h =
    let next = decr (get_or_default (Dict.get m degrees) (pos 1)) in
    ground (
      arith,
      release-occ neighbors (Dict.set m next degrees) (next_queue m next queue) n (ground arith),
      occ-append n queue (m ∷ []),
      occ_one n m,
    )
