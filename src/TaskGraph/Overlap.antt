-- ===== src/TaskGraph/Overlap.antt =====
-- No two nodes that src/frontend/src/lib/dag-layout.ts places overlap.
use soren.Base.{
  ℕ, ◌+◌, ◌*◌, Bool, true, false, ◌||◌, some, List, [], ◌∷◌, Text, text_Eq, nat_eq, nat_eq_iff,
  nat_Eq, ltb, length, or_else, has, Distinct, lookup, keys, put-Distinct, ◌≡◌, refl, ◌∙◌, arith,
  All, sort, insert, All-imp,
}
use soren.TaskGraph.{
  TaskDagNode, TaskDagEdge, Placed, by_layer, subcolumns, layer_base_x, place_layer, place_layers,
  layout_dag, depths,
}
use soren.TaskGraph.Placement.{
  number, tasks_of, number-by_layer, number-place_layers, Separated, Apart, Within, layer-Apart,
  layer-Within, bases_apart, blocks_apart, append-Apart, cross, width, base_of,
}

has-insert :
    (after : ℕ → ℕ → Bool) (k x : ℕ) (xs : List ℕ)
    → has k (insert after x xs) ≡ (nat_eq x k || has k xs)
has-insert after k x [] = refl
has-insert after k x (y ∷ ys) = ground (arith, has-insert after k x ys)

has-sort : (after : ℕ → ℕ → Bool) (k : ℕ) (xs : List ℕ) → has k (sort after xs) ≡ has k xs
has-sort after k [] = refl
has-sort after k (x ∷ xs) =
    ground (arith, has-insert after k x (sort after xs), has-sort after k xs)

by_layer-Distinct :
    (m : List (Text × ℕ)) (ns : List TaskDagNode) (layers : List (ℕ × List TaskDagNode))
    → Distinct (keys layers)
    → Distinct (keys (by_layer m ns layers))
by_layer-Distinct m [] layers d = d
by_layer-Distinct m (n ∷ ns) layers d = by_layer-Distinct m ns _ (put-Distinct _ _ layers d)

-- An entry that is found under its own key
abbrev Found : List (ℕ × List TaskDagNode) → (ℕ × List TaskDagNode) → Type 0
Found layers e = (has (e.0) (keys layers) ≡ true) × (lookup (e.0) layers ≡ some (e.1))

entries-Found :
    (layers : List (ℕ × List TaskDagNode)) → Distinct (keys layers) → All (Found layers) layers
entries-Found [] d = tt
entries-Found ((c, ns) ∷ layers) (f, d) = (
  (ground (arith, (nat_eq_iff c c).1 refl), ground (arith, (nat_eq_iff c c).1 refl)),
  All-imp (Found layers) (Found ((c, ns) ∷ layers)) layers (λ e h. (ground (arith, h.0), later e h))
      (entries-Found layers d),
)
  where
    later :
        (e : ℕ × List TaskDagNode) → Found layers e → lookup (e.0) ((c, ns) ∷ layers) ≡ some (e.1)
    later e h = ground (arith, h.0, h.1, f, nat_eq_iff c (e.0))

nothing_beside : (xs : List Placed) → All (λ a. All (Separated a) []) xs
nothing_beside [] = tt
nothing_beside (a ∷ xs) = (tt, nothing_beside xs)

module _ (all : List (ℕ × List TaskDagNode)) where
  abbrev order : List ℕ
  order = sort (λ a b. ltb b a) (keys all)

  abbrev bases : List (ℕ × ℕ)
  bases = layer_base_x order all 0

  ordered : (d : ℕ) → has d (keys all) ≡ true → has d order ≡ true
  ordered d h = has-sort (λ a b. ltb b a) d (keys all) ∙ h

  -- A layer of the graph, as a block
  block-Within :
      (d : ℕ) (ns : List TaskDagNode)
      → lookup d all ≡ some ns
      → All
          (Within (base_of all order 0 d) (base_of all order 0 d + width all d))
          (place_layer (or_else (lookup d bases) 0) 0 ns)
  block-Within d ns l =
      All-imp
        (Within (base_of all order 0 d) (base_of all order 0 d + subcolumns (length ns) * 220))
        (Within (base_of all order 0 d) (base_of all order 0 d + width all d))
        (place_layer (or_else (lookup d bases) 0) 0 ns) (λ a h. (h.0, ground (arith, h.1, l)))
        (layer-Within (base_of all order 0 d) 0 (length ns) ns (omega arith))

  beside_rest :
      (d : ℕ) (ns : List TaskDagNode) (rest : List (ℕ × List TaskDagNode))
      → Found all (d, ns)
      → All (Found all) rest
      → has d (keys rest) ≡ false
      → All
          (λ a. All (Separated a) (place_layers bases rest))
          (place_layer (or_else (lookup d bases) 0) 0 ns)
  beside_rest d ns [] l f n = nothing_beside (place_layer (or_else (lookup d bases) 0) 0 ns)
  beside_rest d ns ((c, ms) ∷ rest) l (g, f) n =
      cross (place_layer (or_else (lookup d bases) 0) 0 ns)
        (place_layer (or_else (lookup c bases) 0) 0 ms) (place_layers bases rest)
        (blocks_apart (base_of all order 0 d) (base_of all order 0 d + width all d)
          (base_of all order 0 c) (base_of all order 0 c + width all c)
          (place_layer (or_else (lookup d bases) 0) 0 ns)
          (place_layer (or_else (lookup c bases) 0) 0 ms)
          (bases_apart all order 0 d c (ordered d (l.0)) (ordered c (g.0))
            (ground (arith, n, nat_eq_iff c d, nat_eq_iff d c)))
          (block-Within d ns (l.1)) (block-Within c ms (g.1)))
        (beside_rest d ns rest l f (ground (arith, n)))

  layers-Apart :
      (rest : List (ℕ × List TaskDagNode))
      → All (Found all) rest
      → Distinct (keys rest)
      → Apart (place_layers bases rest)
  layers-Apart [] f d = tt
  layers-Apart ((d, ns) ∷ rest) (g, f) (n, ds) =
      append-Apart (place_layer (or_else (lookup d bases) 0) 0 ns) (place_layers bases rest)
        (layer-Apart (or_else (lookup d bases) 0) 0 ns) (layers-Apart rest f ds)
        (beside_rest d ns rest g f n)

-- Whatever nodes and edges there are, cycles included, the layout places as many nodes as are
-- given that pass any test, so none is lost or placed twice, and no two places overlap: they are
-- 220 apart across or 90 apart down.
pub layout_dag_lem :
    (nodes : List TaskDagNode) (edges : List TaskDagEdge)
    → ((p : TaskDagNode → Bool)
        → number p (tasks_of (layout_dag nodes edges).nodes) ≡ number p nodes)
      × Apart (layout_dag nodes edges).nodes
unfolding layout_dag
layout_dag_lem nodes edges =
    let layers = by_layer (depths nodes edges) nodes [] in
    let d = by_layer-Distinct (depths nodes edges) nodes [] tt in
    (
      λ p.
          number-place_layers p (layer_base_x (sort (λ a b. ltb b a) (keys layers)) layers 0) layers
          ∙ number-by_layer p (depths nodes edges) nodes []
          ∙ omega arith,
      layers-Apart layers layers (entries-Found layers d) d,
    )
