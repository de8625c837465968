-- ===== src/TaskGraph/Relaxing.antt =====
-- What a round of the loop of src/frontend/src/lib/dag-layout.ts does to depths, counts and queue.
use soren.Base.{
  ℕ, suc, ◌+◌, ◌-◌, ◌≤◌, max, true, false, ◌&&◌, ◌||◌, List, [], ◌∷◌, ◌++◌, Text, nat_eq, ltb, leb,
  if◌then◌else◌, or_else, has, has-append, Distinct, lookup, put, lookup-put, text_Eq, text_eq_iff,
  ◌==◌, ◌≡◌, refl, sym, ◌∙◌, arith, Bool-cases, inl, inr, append_assoc, append-nil,
}
use soren.TaskGraph.{
  TaskDagNode, TaskDagEdge, Kahn, relax_edge, relax, fill_outgoing, push_to, empty_lists, outgoing,
}

abbrev pub deg : Kahn → Text → ℕ
deg s v = or_else (lookup v s.in_degree_remaining) 0

abbrev pub dep : Kahn → Text → ℕ
dep s v = or_else (lookup v s.depth) 0

abbrev pub count : Text → List Text → ℕ
count v [] = 0
count v (x ∷ xs) = if x == v then suc (count v xs) else count v xs

-- The ends of the edges from a node
abbrev pub targets : Text → List TaskDagEdge → List Text
targets u [] = []
targets u (e ∷ es) = if e.from == u then e.to ∷ targets u es else targets u es

relax_edge-deg :
    (d : ℕ) (next v : Text) (s : Kahn)
    → deg (relax_edge d next s) v ≡ (if next == v then deg s v - 1 else deg s v)
unfolding relax_edge
relax_edge-deg d next v s = elim (Bool-cases (next == v)) [
  | inl e ↦
      rw (lookup-put next v (deg s next - 1) s.in_degree_remaining, e, (text_eq_iff next v).0 e)
        refl
  | inr e ↦ rw (lookup-put next v (deg s next - 1) s.in_degree_remaining, e) refl
]

relax_edge-dep :
    (d : ℕ) (next v : Text) (s : Kahn)
    → dep (relax_edge d next s) v ≡ (if next == v then max (dep s v) (d + 1) else dep s v)
unfolding relax_edge
relax_edge-dep d next v s = elim (Bool-cases (next == v)) [
  | inl e ↦
      rw (lookup-put next v (max (dep s next) (d + 1)) s.depth, e, (text_eq_iff next v).0 e) refl
  | inr e ↦ rw (lookup-put next v (max (dep s next) (d + 1)) s.depth, e) refl
]

pub relax-deg :
    (d : ℕ) (nexts : List Text) (v : Text) (s : Kahn)
    → deg (relax d nexts s) v ≡ deg s v - count v nexts
unfolding relax
relax-deg d [] v s = ground arith
relax-deg d (next ∷ nexts) v s =
    ground (arith, relax-deg d nexts v (relax_edge d next s), relax_edge-deg d next v s)

-- Depths grow, to more than `d` at the ends of the edges, and stay elsewhere.
pub relax-dep :
    (d : ℕ) (nexts : List Text) (v : Text) (s : Kahn)
    → (dep s v ≤ dep (relax d nexts s) v)
      × (has v nexts ≡ true → d + 1 ≤ dep (relax d nexts s) v)
      × (has v nexts ≡ false → dep (relax d nexts s) v ≡ dep s v)
unfolding relax
relax-dep d [] v s = (ground arith, λ h. ground (arith, h), λ h. refl)
relax-dep d (next ∷ nexts) v s =
    let k = relax-dep d nexts v (relax_edge d next s) in
    let e = relax_edge-dep d next v s in
    (
      ground (arith, k.0, e),
      λ h. elim (Bool-cases (has v nexts)) [
        | inl w ↦ k.1 w
        | inr w ↦ ground (arith, k.2 w, e, h, w)
      ],
      λ h. ground (arith, k.2 (ground (arith, h)), e, h),
    )

relax_edge-queue :
    (d : ℕ) (next v : Text) (s : Kahn)
    → has v (relax_edge d next s).queue ≡ (has v s.queue || next == v && nat_eq (deg s v) 1)
unfolding relax_edge
relax_edge-queue d next v s = elim (Bool-cases (next == v)) [
  | inl e ↦ ground (arith, has-append v s.queue (next ∷ []), e, (text_eq_iff next v).0 e)
  | inr e ↦ ground (arith, has-append v s.queue (next ∷ []), e)
]

-- The queue gets those whose last edge it was.
pub relax-queue :
    (d : ℕ) (nexts : List Text) (v : Text) (s : Kahn)
    → has v (relax d nexts s).queue
      ≡ (has v s.queue || ltb 0 (deg s v) && leb (deg s v) (count v nexts))
unfolding relax
relax-queue d [] v s = ground arith
relax-queue d (next ∷ nexts) v s = ground (
  arith,
  relax-queue d nexts v (relax_edge d next s),
  relax_edge-queue d next v s,
  relax_edge-deg d next v s,
)

append-Distinct :
    (v : Text) (xs : List Text) → Distinct xs → has v xs ≡ false → Distinct (xs ++ v ∷ [])
append-Distinct v [] d h = (refl, tt)
append-Distinct v (x ∷ xs) (n, d) h = (
  ground (arith, has-append x xs (v ∷ []), n, h, text_eq_iff v x, text_eq_iff x v),
  append-Distinct v xs d (ground (arith, h)),
)

-- A queue of nodes that wait for no edge
pub record IsReady (s : Kahn) : Type 0 where
  pub ready : (v : Text) → has v s.queue ≡ true → deg s v ≡ 0
  pub apart : Distinct s.queue

not_queued : (s : Kahn) (next : Text) → IsReady s → deg s next ≡ 1 → has next s.queue ≡ false
not_queued s next r e = ground (arith, r.ready next, e)

relax_edge-apart :
    (d : ℕ) (next : Text) (s : Kahn) → IsReady s → Distinct (relax_edge d next s).queue
unfolding relax_edge
relax_edge-apart d next s r = elim (Bool-cases (nat_eq (deg s next) 1)) [
  | inl e ↦ rw e (append-Distinct next s.queue r.apart (not_queued s next r (ground (arith, e))))
  | inr e ↦ rw e r.apart
]

relax_edge-IsReady : (d : ℕ) (next : Text) (s : Kahn) → IsReady s → IsReady (relax_edge d next s)
relax_edge-IsReady d next s r = record {
  ready =
      λ v h. ground (arith, h, r.ready v, relax_edge-queue d next v s, relax_edge-deg d next v s);
  apart = relax_edge-apart d next s r;
}

pub relax-IsReady : (d : ℕ) (nexts : List Text) (s : Kahn) → IsReady s → IsReady (relax d nexts s)
unfolding relax
relax-IsReady d [] s r = r
relax-IsReady d (next ∷ nexts) s r =
    relax-IsReady d nexts (relax_edge d next s) (relax_edge-IsReady d next s r)

lookup-fill_outgoing :
    (u : Text) (es : List TaskDagEdge) (m : List (Text × List Text))
    → or_else (lookup u (fill_outgoing es m)) [] ≡ or_else (lookup u m) [] ++ targets u es
lookup-fill_outgoing u [] m = sym (append-nil _)
lookup-fill_outgoing u (e ∷ es) m = elim (Bool-cases (e.from == u)) [
  | inl q ↦
      lookup-fill_outgoing u es (push_to e.from e.to m)
      ∙ rw
          (
            lookup-put e.from u (or_else (lookup e.from m) [] ++ e.to ∷ []) m,
            q,
            (text_eq_iff e.from u).0 q,
          )
          (append_assoc (or_else (lookup u m) []) (e.to ∷ []) (targets u es))
  | inr q ↦
      lookup-fill_outgoing u es (push_to e.from e.to m)
      ∙ rw (lookup-put e.from u (or_else (lookup e.from m) [] ++ e.to ∷ []) m, q) refl
]

pub lookup-empty_lists :
    (u : Text) (ns : List TaskDagNode) (m : List (Text × List Text))
    → or_else (lookup u m) [] ≡ []
    → or_else (lookup u (empty_lists ns m)) [] ≡ []
lookup-empty_lists u [] m h = h
lookup-empty_lists u (n ∷ ns) m h =
    lookup-empty_lists u ns (put n.id [] m) (ground (arith, h, lookup-put n.id u [] m))

pub lookup-outgoing :
    (nodes : List TaskDagNode) (es : List TaskDagEdge) (u : Text)
    → or_else (lookup u (outgoing nodes es)) [] ≡ targets u es
unfolding outgoing
lookup-outgoing nodes es u =
    lookup-fill_outgoing u es (empty_lists nodes []) ∙ rw (lookup-empty_lists u nodes [] refl) refl
