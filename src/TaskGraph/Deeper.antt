-- ===== src/TaskGraph/Deeper.antt =====
-- Every edge of src/frontend/src/lib/dag-layout.ts from a node that is resolved goes deeper.
use soren.Base.{
  nat_Eq, ℕ, zero, suc, ◌+◌, ◌≤◌, true, ◌&&◌, ◌||◌, List, [], ◌∷◌, Text, subst, length-append,
  length, ◌++◌, or_else, has, Distinct, lookup, lookup-put, text_Eq, text_eq_iff, ◌==◌, ◌≡◌, refl,
  sym, ◌∙◌, arith, Bool-cases, inl, inr, In, In-filter,
}
use soren.TaskGraph.{
  TaskDagNode, TaskDagEdge, Kahn, ids_of, valid_edges, process, rounds, outgoing, incoming,
  fill_incoming, push_to, empty_lists, start, roots, degrees,
}
use soren.TaskGraph.Relaxing.{deg, dep, IsReady, lookup-outgoing, lookup-empty_lists}
use soren.TaskGraph.Rounds.{
  rounds_stop, rounds_step, queue-cases, lookup-degrees, degree_of, rounds_done, start-pending,
}
use soren.TaskGraph.Depths.{IsLayered, round-IsLayered, open_edges}

length-incoming :
    (v : Text) (es : List TaskDagEdge) (m : List (Text × List Text))
    → degree_of (fill_incoming es m) v ≡ degree_of m v + open_edges [] v es
length-incoming v [] m = ground arith
length-incoming v (e ∷ es) m = elim (Bool-cases (e.to == v)) [
  | inl q ↦
      length-incoming v es (push_to e.to e.from m)
      ∙ rw
          (
            lookup-put e.to v (or_else (lookup e.to m) [] ++ e.from ∷ []) m,
            q,
            (text_eq_iff e.to v).0 q,
          )
          (ground (arith, length-append (or_else (lookup v m) []) (e.from ∷ [])))
  | inr q ↦
      length-incoming v es (push_to e.to e.from m)
      ∙ rw (lookup-put e.to v (or_else (lookup e.to m) [] ++ e.from ∷ []) m, q) refl
]

start-deg :
    (nodes : List TaskDagNode) (es : List TaskDagEdge) (v : Text)
    → has v (ids_of nodes) ≡ true
    → deg (start nodes es) v ≡ open_edges [] v es
unfolding start incoming
start-deg nodes es v h =
    lookup-degrees (incoming nodes es) nodes v h
    ∙ length-incoming v es (empty_lists nodes [])
    ∙ rw (lookup-empty_lists v nodes [] refl) (omega arith)

has-roots :
    (m : List (Text × ℕ)) (ns : List TaskDagNode) (v : Text)
    → has v (roots m ns) ≡ (has v (ids_of ns) && or_else (lookup v m) 0 == 0)
has-roots m [] v = refl
has-roots m (n ∷ ns) v = elim (Bool-cases (n.id == v)) [
  | inl q ↦ ground (arith, q, (text_eq_iff n.id v).0 q, has-roots m ns v)
  | inr q ↦ ground (arith, q, has-roots m ns v)
]

roots-Distinct :
    (m : List (Text × ℕ)) (ns : List TaskDagNode) → Distinct (ids_of ns) → Distinct (roots m ns)
roots-Distinct m [] d = tt
roots-Distinct m (n ∷ ns) (f, d) = ground (arith, f, has-roots m ns n.id, roots-Distinct m ns d)

start-IsReady :
    (nodes : List TaskDagNode) (es : List TaskDagEdge)
    → Distinct (ids_of nodes)
    → IsReady (start nodes es)
unfolding start
start-IsReady nodes es d = record {
  ready = λ v h. ground (arith, h, has-roots (degrees (incoming nodes es) nodes) nodes v);
  apart = roots-Distinct (degrees (incoming nodes es) nodes) nodes d;
}

start_all :
    (nodes : List TaskDagNode) (es : List TaskDagEdge) (v : Text)
    → has v (ids_of nodes) ≡ true
    → deg (start nodes es) v ≡ 0
    → (has v (start nodes es).queue || has v []) ≡ true
unfolding start
start_all nodes es v h z =
    ground (arith, h, z, has-roots (degrees (incoming nodes es) nodes) nodes v)

start-IsLayered :
    (nodes : List TaskDagNode) (es : List TaskDagEdge)
    → Distinct (ids_of nodes)
    → IsLayered (ids_of nodes) es [] (start nodes es)
start-IsLayered nodes es d = record {
  counts = start-deg nodes es;
  ready = start-IsReady nodes es d;
  done_ready = λ v h. cc;
  fresh = λ v h. refl;
  all_ready = start_all nodes es;
  deeper = λ e i h. cc;
}

module _ (nodes : List TaskDagNode) (es : List TaskDagEdge)
    (from_ids : (e : TaskDagEdge) → In e es → has e.from (ids_of nodes) ≡ true) where
  process-IsLayered :
      (u : Text) (q done : List Text) (s : Kahn)
      → IsLayered (ids_of nodes) es done s
      → s.queue ≡ u ∷ q
      → IsLayered (ids_of nodes) es (u ∷ done) (process (outgoing nodes es) u q s)
  process-IsLayered u q done s l e =
      rw (lookup-outgoing nodes es u) (round-IsLayered (ids_of nodes) es from_ids u q done s l e)

  rounds-IsLayered :
      (n : ℕ) (done : List Text) (s : Kahn)
      → IsLayered (ids_of nodes) es done s
      → (all : List Text) × IsLayered (ids_of nodes) es all (rounds (outgoing nodes es) n s)
  unfolding rounds
  rounds-IsLayered zero done s l = (done, l)
  rounds-IsLayered (suc n) done s l = elim (queue-cases s.queue) [
    | inl e ↦ (
      done,
      subst (IsLayered (ids_of nodes) es done) (sym (rounds_stop (outgoing nodes es) n s e)) l,
    )
    | inr (u, q, e) ↦
        subst (λ t. (all : List Text) × IsLayered (ids_of nodes) es all t)
          (sym (rounds_step (outgoing nodes es) n u q s e))
          (rounds-IsLayered n (u ∷ done) (process (outgoing nodes es) u q s)
            (process-IsLayered u q done s l e))
  ]

  -- The end of the loop
  finished :
      Distinct (ids_of nodes)
      → (e : TaskDagEdge) → In e es
      → deg (rounds (outgoing nodes es) (length nodes) (start nodes es)) e.from ≡ 0
      → dep (rounds (outgoing nodes es) (length nodes) (start nodes es)) e.from + 1
        ≤ dep (rounds (outgoing nodes es) (length nodes) (start nodes es)) e.to
  finished d e i z =
      let l = rounds-IsLayered (length nodes) [] (start nodes es) (start-IsLayered nodes es d) in
      let q : (rounds (outgoing nodes es) (length nodes) (start nodes es)).queue ≡ [] =
        rounds_done (outgoing nodes es) (length nodes) (start nodes es)
          (omega (arith, start-pending nodes es)) in
      l.1.deeper e i (ground (arith, l.1.all_ready e.from (from_ids e i) z, q))

valid_edges-from :
    (nodes : List TaskDagNode) (edges : List TaskDagEdge) (e : TaskDagEdge)
    → In e (valid_edges nodes edges)
    → has e.from (ids_of nodes) ≡ true
valid_edges-from nodes edges e i =
    ground
      (arith, (In-filter e (λ f. has f.from (ids_of nodes) && has f.to (ids_of nodes)) edges i).1)

-- The state in which the loop stops
abbrev pub resolved : List TaskDagNode → List TaskDagEdge → Kahn
resolved nodes edges =
    rounds (outgoing nodes (valid_edges nodes edges)) (length nodes)
      (start nodes (valid_edges nodes edges))

-- In a graph without two nodes of one id, when the loop stops, every edge between its nodes from a
-- node that waits for no edge any more leads to a deeper node.
pub edges_go_deeper :
    (nodes : List TaskDagNode) (edges : List TaskDagEdge) (e : TaskDagEdge)
    → Distinct (ids_of nodes)
    → In e (valid_edges nodes edges)
    → deg (resolved nodes edges) e.from ≡ 0
    → dep (resolved nodes edges) e.from + 1 ≤ dep (resolved nodes edges) e.to
edges_go_deeper nodes edges e d i z =
    finished nodes (valid_edges nodes edges) (valid_edges-from nodes edges) d e i z
