-- ===== src/TaskGraph/Depths.antt =====
-- The depths that the loop of src/frontend/src/lib/dag-layout.ts finds: every edge goes deeper.
use soren.Base.{
  subst, ℕ, suc, ◌+◌, ◌-◌, ◌≤◌, true, false, not, ◌&&◌, ◌||◌, List, [], ◌∷◌, Text, ltb, leb,
  if◌then◌else◌, has, Distinct, text_Eq, text_eq_iff, ◌==◌, ◌≡◌, refl, sym, ap, arith, Bool-cases,
  inl, inr, In,
}
use soren.TaskGraph.{TaskDagEdge, Kahn, relax, shift_queue}
use soren.TaskGraph.Relaxing.{
  deg, dep, count, targets, relax-deg, relax-dep, relax-queue, IsReady, relax-IsReady,
}

-- Edges into a node from those that were not processed
abbrev pub open_edges : List Text → Text → List TaskDagEdge → ℕ
open_edges done v [] = 0
open_edges done v (e ∷ es) =
    if e.to == v && not (has e.from done) then suc (open_edges done v es) else open_edges done v es

open_edges-split :
    (u v : Text) (done : List Text) (es : List TaskDagEdge)
    → has u done ≡ false
    → open_edges done v es ≡ open_edges (u ∷ done) v es + count v (targets u es)
open_edges-split u v done [] h = refl
open_edges-split u v done (e ∷ es) h = elim (Bool-cases (u == e.from)) [
  | inl q ↦ ground (
    arith,
    open_edges-split u v done es h,
    h,
    q,
    (text_eq_iff u e.from).0 q,
    text_eq_iff e.from u,
  )
  | inr q ↦
      ground
        (arith, open_edges-split u v done es h, h, q, text_eq_iff u e.from, text_eq_iff e.from u)
]

count_zero : (v : Text) (xs : List Text) → count v xs ≡ 0 → has v xs ≡ false
count_zero v [] h = refl
count_zero v (x ∷ xs) h = ground (arith, count_zero v xs, h)

target-In :
    (e : TaskDagEdge) (es : List TaskDagEdge) → In e es → has e.to (targets e.from es) ≡ true
target-In e [] h = elim h [ ]
target-In e (f ∷ es) (inl p) =
    rw
      (
        ap (λ g. g.from) p,
        ap (λ g. g.to) p,
        (text_eq_iff e.from e.from).1 refl,
        (text_eq_iff e.to e.to).1 refl,
      )
      refl
target-In e (f ∷ es) (inr h) = ground (arith, target-In e es h)

-- The loop between two rounds, with the nodes that are done
pub record IsLayered (ids : List Text) (es : List TaskDagEdge) (done : List Text) (s : Kahn)
    : Type 0 where
  pub counts : (v : Text) → has v ids ≡ true → deg s v ≡ open_edges done v es
  pub ready : IsReady s
  pub done_ready : (v : Text) → has v done ≡ true → deg s v ≡ 0
  pub fresh : (v : Text) → has v s.queue ≡ true → has v done ≡ false
  pub all_ready : (v : Text) → has v ids ≡ true → deg s v ≡ 0 → (has v s.queue || has v done) ≡ true
  pub deeper : (e : TaskDagEdge) → In e es → has e.from done ≡ true → dep s e.from + 1 ≤ dep s e.to

module _ (ids : List Text) (es : List TaskDagEdge)
    (from_ids : (e : TaskDagEdge) → In e es → has e.from ids ≡ true) where
  -- One round, for the first node of the queue
  module _ (u : Text) (q done : List Text) (s : Kahn) (l : IsLayered ids es done s)
      (head : s.queue ≡ u ∷ q) where
    u_queued : has u s.queue ≡ true
    u_queued = rw (head, (text_eq_iff u u).1 refl) refl

    u_fresh : has u done ≡ false
    u_fresh = l.fresh u u_queued

    u_ready : deg s u ≡ 0
    u_ready = l.ready.ready u u_queued

    -- A node of the graph that waits for nothing is no end of an edge from `u`.
    settled : (w : Text) → has w ids ≡ true → deg s w ≡ 0 → has w (targets u es) ≡ false
    settled w i z =
        count_zero w (targets u es)
          (ground (arith, l.counts w i, z, open_edges-split u w done es u_fresh))

    abbrev after : Kahn
    after = relax (dep s u) (targets u es) (shift_queue q s)

    tail_apart : Distinct (u ∷ q)
    tail_apart = rw head at l.ready.apart

    queued : (v : Text) → has v s.queue ≡ (u == v || has v q)
    queued v = rw head refl

    tail-IsReady : IsReady (shift_queue q s)
    tail-IsReady = record {
      ready = λ v h. l.ready.ready v (ground (arith, queued v, h));
      apart = tail_apart.1;
    }

    after-queue :
        (v : Text)
        → has v after.queue ≡ (has v q || ltb 0 (deg s v) && leb (deg s v) (count v (targets u es)))
    after-queue v = relax-queue (dep s u) (targets u es) v (shift_queue q s)

    after-deg : (v : Text) → deg after v ≡ deg s v - count v (targets u es)
    after-deg v = relax-deg (dep s u) (targets u es) v (shift_queue q s)

    not_head : (v : Text) → has v after.queue ≡ true → (u == v) ≡ false
    not_head v h = elim (Bool-cases (u == v)) [
      | inl e ↦ ground (
        arith,
        h,
        after-queue v,
        tail_apart.0,
        u_ready,
        ap (λ w. has w q) ((text_eq_iff u v).0 e),
        ap (deg s) ((text_eq_iff u v).0 e),
      )
      | inr e ↦ e
    ]

    fresh_after : (v : Text) → has v after.queue ≡ true → has v (u ∷ done) ≡ false
    fresh_after v h =
        ground (arith, h, not_head v h, after-queue v, queued v, l.fresh v, l.done_ready v)

    ready_after :
        (v : Text)
        → has v ids ≡ true
        → deg after v ≡ 0
        → (has v after.queue || has v (u ∷ done)) ≡ true
    ready_after v i z = ground (arith, z, after-deg v, after-queue v, queued v, l.all_ready v i)

    grows : (v : Text) → dep s v ≤ dep after v
    grows v = (relax-dep (dep s u) (targets u es) v (shift_queue q s)).0

    stays : (w : Text) → has w ids ≡ true → deg s w ≡ 0 → dep after w ≡ dep s w
    stays w i z = (relax-dep (dep s u) (targets u es) w (shift_queue q s)).2 (settled w i z)

    below : (v : Text) → has v (targets u es) ≡ true → dep s u + 1 ≤ dep after v
    below v h = (relax-dep (dep s u) (targets u es) v (shift_queue q s)).1 h

    deeper_after :
        (e : TaskDagEdge)
        → In e es
        → has e.from (u ∷ done) ≡ true
        → dep after e.from + 1 ≤ dep after e.to
    deeper_after e i h = elim (Bool-cases (u == e.from)) [
      | inl p ↦
          let k : u ≡ e.from = (text_eq_iff u e.from).0 p in
          let z : deg s e.from ≡ 0 = subst (λ w. deg s w ≡ 0) k u_ready in
          let t : has e.to (targets u es) ≡ true =
            subst (λ w. has e.to (targets w es) ≡ true) (sym k) (target-In e es i) in
          omega (arith, below e.to t, stays e.from (from_ids e i) z, ap (dep s) k)
      | inr p ↦
          let d : has e.from done ≡ true = ground (arith, p, h) in
          omega
            (arith, l.deeper e i d, grows e.to, stays e.from (from_ids e i) (l.done_ready e.from d))
    ]

    pub round-IsLayered : IsLayered ids es (u ∷ done) after
    round-IsLayered = record {
      counts =
          λ v i. ground (arith, l.counts v i, open_edges-split u v done es u_fresh, after-deg v);
      ready = relax-IsReady (dep s u) (targets u es) (shift_queue q s) tail-IsReady;
      done_ready =
          λ v h. ground (arith, h, u_ready, (text_eq_iff u v).0, l.done_ready v, after-deg v);
      fresh = fresh_after;
      all_ready = ready_after;
      deeper = deeper_after;
    }
