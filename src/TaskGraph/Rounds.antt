-- ===== src/TaskGraph/Rounds.antt =====
-- The loop of src/frontend/src/lib/dag-layout.ts: a round for each node is enough.
use soren.Base.{
  ℕ, zero, suc, ◌+◌, ◌-◌, ◌≤◌, true, List, [], ◌∷◌, Text, nat_eq, ltb, if◌then◌else◌, or_else,
  length, length-append, has, lookup, put, text_Eq, text_eq_iff, ◌==◌, ◌≡◌, refl, ap, ◌∙◌, arith,
  Bool-cases, inl, inr, ◌⊎◌,
}
use soren.TaskGraph.{
  ids_of, TaskDagNode, TaskDagEdge, Kahn, degrees, roots, start, relax_edge, relax, shift_queue,
  process, rounds, incoming,
}

-- How many nodes still wait for an edge
abbrev pub waiting : List (Text × ℕ) → ℕ
waiting [] = 0
waiting ((k, r) ∷ m) = if ltb 0 r then suc (waiting m) else waiting m

-- What the loop has before it
abbrev pub pending : Kahn → ℕ
pending s = length s.queue + waiting s.in_degree_remaining

waiting_tail :
    (r a b c : ℕ) → a + b ≡ c → (if ltb 0 r then suc a else a) + b ≡ (if ltb 0 r then suc c else c)
waiting_tail zero a b c h = ground (arith, h)
waiting_tail (suc r) a b c h = ground (arith, h)

waiting_head :
    (k : Text) (r : ℕ) (m : List (Text × ℕ))
    → waiting ((k, r - 1) ∷ m) + (if nat_eq r 1 then 1 else 0) ≡ waiting ((k, r) ∷ m)
waiting_head k zero m = ground arith
waiting_head k (suc zero) m = ground arith
waiting_head k (suc (suc r)) m = ground arith

waiting-put :
    (k : Text) (v : ℕ) (m : List (Text × ℕ))
    → v ≡ or_else (lookup k m) 0 - 1
    → waiting (put k v m) + (if nat_eq (or_else (lookup k m) 0) 1 then 1 else 0) ≡ waiting m
waiting-put k v [] h = ground (arith, h)
waiting-put k v ((j, r) ∷ m) h = elim (Bool-cases (j == k)) [
  | inl e ↦ rw (e, rw e at h) (waiting_head k r m)
  | inr e ↦ rw e (
      waiting_tail r (waiting (put k v m)) (if nat_eq (or_else (lookup k m) 0) 1 then 1 else 0)
        (waiting m) (waiting-put k v m (rw e at h)))
]

relax_edge-pending : (d : ℕ) (next : Text) (s : Kahn) → pending (relax_edge d next s) ≡ pending s
unfolding relax_edge
relax_edge-pending d next s = ground (
  arith,
  waiting-put next (or_else (lookup next s.in_degree_remaining) 0 - 1) s.in_degree_remaining refl,
  length-append s.queue (next ∷ []),
)

relax-pending : (d : ℕ) (nexts : List Text) (s : Kahn) → pending (relax d nexts s) ≡ pending s
unfolding relax
relax-pending d [] s = refl
relax-pending d (next ∷ nexts) s =
    relax-pending d nexts (relax_edge d next s) ∙ relax_edge-pending d next s

no_pending : (q : List Text) (w : ℕ) → length q + w ≤ 0 → q ≡ []
no_pending [] w h = refl
no_pending (id ∷ q) w h = ground arith

process-pending :
    (out : List (Text × List Text)) (id : Text) (q : List Text) (s : Kahn)
    → s.queue ≡ id ∷ q
    → suc (pending (process out id q s)) ≡ pending s
process-pending out id q s e = ground (
  arith,
  relax-pending (or_else (lookup id s.depth) 0) (or_else (lookup id out) []) (shift_queue q s),
  e,
)

pub queue-cases : (q : List Text) → (q ≡ []) ⊎ ((id : Text) × (rest : List Text) × (q ≡ id ∷ rest))
queue-cases [] = inl refl
queue-cases (id ∷ rest) = inr (id, rest, refl)

pub rounds_stop :
    (out : List (Text × List Text)) (n : ℕ) (s : Kahn) → s.queue ≡ [] → rounds out (suc n) s ≡ s
unfolding rounds
rounds_stop out n s e = rw e refl

pub rounds_step :
    (out : List (Text × List Text)) (n : ℕ) (id : Text) (q : List Text) (s : Kahn)
    → s.queue ≡ id ∷ q
    → rounds out (suc n) s ≡ rounds out n (process out id q s)
unfolding rounds
rounds_step out n id q s e = rw e refl

pub rounds_done :
    (out : List (Text × List Text)) (n : ℕ) (s : Kahn) → pending s ≤ n → (rounds out n s).queue ≡ []
unfolding rounds
rounds_done out zero s h = no_pending s.queue (waiting s.in_degree_remaining) h
rounds_done out (suc n) s h = elim (queue-cases s.queue) [
  | inl e ↦ rw e refl
  | inr (id, q, e) ↦
      rw e (rounds_done out n (process out id q s) (omega (arith, h, process-pending out id q s e)))
]

abbrev pub degree_of : List (Text × List Text) → Text → ℕ
degree_of m k = length (or_else (lookup k m) [])

pub lookup-degrees :
    (m : List (Text × List Text)) (ns : List TaskDagNode) (k : Text)
    → has k (ids_of ns) ≡ true
    → or_else (lookup k (degrees m ns)) 0 ≡ degree_of m k
lookup-degrees m [] k h = cc
lookup-degrees m (n ∷ ns) k h = elim (Bool-cases (n.id == k)) [
  | inl e ↦ rw e (ap (degree_of m) ((text_eq_iff n.id k).0 e))
  | inr e ↦ rw e (lookup-degrees m ns k (rw e at h))
]

roots-waiting :
    (m : List (Text × List Text)) (counts : List (Text × ℕ)) (ns : List TaskDagNode)
    → ((k : Text) → has k (ids_of ns) ≡ true → or_else (lookup k counts) 0 ≡ degree_of m k)
    → length (roots counts ns) + waiting (degrees m ns) ≡ length ns
roots-waiting m counts [] h = refl
roots-waiting m counts (n ∷ ns) h = ground (
  arith,
  h n.id (rw ((text_eq_iff n.id n.id).1 refl) refl),
  roots-waiting m counts ns (λ k z. h k (ground arith)),
)

pub start-pending :
    (nodes : List TaskDagNode) (edges : List TaskDagEdge)
    → pending (start nodes edges) ≡ length nodes
unfolding start
start-pending nodes edges =
    roots-waiting (incoming nodes edges) (degrees (incoming nodes edges) nodes) nodes
      (lookup-degrees (incoming nodes edges) nodes)

-- The loop of the layout ends: after as many rounds as there are nodes, or more, its queue is
-- empty, whatever edges there are and whatever lists of ends it follows.
pub layout_loop_ends :
    (nodes : List TaskDagNode) (edges : List TaskDagEdge) (out : List (Text × List Text)) (n : ℕ)
    → (rounds out (length nodes + n) (start nodes edges)).queue ≡ []
layout_loop_ends nodes edges out n =
    rounds_done out (length nodes + n) (start nodes edges)
      (omega (arith, start-pending nodes edges))
