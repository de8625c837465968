-- ===== src/TaskGraph.antt =====
-- src/frontend/src/lib/dag-layout.ts: where the nodes of the graph of tasks are drawn.
pub mod Relaxing
pub mod Rounds
pub mod Depths
pub mod Deeper
pub mod Placement
pub mod Overlap
mod Tests
use soren.Base.{
  ℕ, zero, suc, ◌+◌, ◌-◌, ◌*◌, ◌/◌, ◌%◌, max, Bool, true, false, not, ◌&&◌, Option, none, some,
  List, [], ◌∷◌, ◌++◌, map, Text, nat_eq, ltb, if◌then◌else◌, or_else, is_some, filter, length, has,
  lookup, put, keys, text_Eq, nat_Eq, ◌==◌, sort,
}

-- src/frontend/src/types/task.ts
pub record TaskDagNode : Type 0 where
  pub id : Text
  pub title : Text
  pub status : Text
  pub priority : Text
  pub assigned_to : Text

pub record TaskDagEdge : Type 0 where
  pub from : Text
  pub to : Text

abbrev pub column_width : ℕ
column_width = 260

abbrev pub row_height : ℕ
row_height = 90

abbrev pub max_rows_per_layer : ℕ
max_rows_per_layer = 8

abbrev pub subcolumn_width : ℕ
subcolumn_width = 220

abbrev pub ids_of : List TaskDagNode → List Text
ids_of [] = []
ids_of (n ∷ ns) = n.id ∷ ids_of ns

-- Edges with both ends among the nodes
abbrev pub valid_edges : List TaskDagNode → List TaskDagEdge → List TaskDagEdge
valid_edges nodes edges = filter (λ e. has e.from (ids_of nodes) && has e.to (ids_of nodes)) edges

-- `m.get(k)!.push(v)`
abbrev pub push_to : Text → Text → List (Text × List Text) → List (Text × List Text)
push_to k v m = put k (or_else (lookup k m) [] ++ v ∷ []) m

abbrev pub empty_lists : List TaskDagNode → List (Text × List Text) → List (Text × List Text)
empty_lists [] m = m
empty_lists (n ∷ ns) m = empty_lists ns (put n.id [] m)

abbrev pub fill_incoming : List TaskDagEdge → List (Text × List Text) → List (Text × List Text)
fill_incoming [] m = m
fill_incoming (e ∷ es) m = fill_incoming es (push_to e.to e.from m)

abbrev pub fill_outgoing : List TaskDagEdge → List (Text × List Text) → List (Text × List Text)
fill_outgoing [] m = m
fill_outgoing (e ∷ es) m = fill_outgoing es (push_to e.from e.to m)

-- `incoming` and `outgoing`
unfoldable pub incoming : List TaskDagNode → List TaskDagEdge → List (Text × List Text)
incoming nodes edges = fill_incoming edges (empty_lists nodes [])

unfoldable pub outgoing : List TaskDagNode → List TaskDagEdge → List (Text × List Text)
outgoing nodes edges = fill_outgoing edges (empty_lists nodes [])

-- The variables of Kahn's algorithm. A count of remaining edges that would fall below 0 stays 0,
-- which is as little the value 1 that the test looks for.
pub record Kahn : Type 0 where
  pub depth : List (Text × ℕ)
  pub in_degree_remaining : List (Text × ℕ)
  pub queue : List Text
  pub processed : ℕ

abbrev pub degrees : List (Text × List Text) → List TaskDagNode → List (Text × ℕ)
degrees m [] = []
degrees m (n ∷ ns) = (n.id, length (or_else (lookup n.id m) [])) ∷ degrees m ns

abbrev pub roots : List (Text × ℕ) → List TaskDagNode → List Text
roots m [] = []
roots m (n ∷ ns) = if or_else (lookup n.id m) 0 == 0 then n.id ∷ roots m ns else roots m ns

abbrev pub zero_depths : List Text → List (Text × ℕ) → List (Text × ℕ)
zero_depths [] m = m
zero_depths (k ∷ ks) m = zero_depths ks (put k 0 m)

unfoldable pub start : List TaskDagNode → List TaskDagEdge → Kahn
start nodes edges =
    let counts = degrees (incoming nodes edges) nodes in
    record {
      depth = zero_depths (roots counts nodes) [];
      in_degree_remaining = counts;
      queue = roots counts nodes;
      processed = 0;
    }

-- One edge to `next` from a node of depth `d`
unfoldable pub relax_edge : ℕ → Text → Kahn → Kahn
relax_edge d next s = record s {
  depth = put next (max (or_else (lookup next s.depth) 0) (d + 1)) s.depth;
  in_degree_remaining =
      put next (or_else (lookup next s.in_degree_remaining) 0 - 1) s.in_degree_remaining;
  queue =
      if nat_eq (or_else (lookup next s.in_degree_remaining) 0) 1
      then s.queue ++ next ∷ []
      else s.queue;
}

unfoldable pub relax : ℕ → List Text → Kahn → Kahn
relax d [] s = s
relax d (next ∷ nexts) s = relax d nexts (relax_edge d next s)

abbrev pub shift_queue : List Text → Kahn → Kahn
shift_queue queue s = record s { queue = queue; processed = s.processed + 1 }

abbrev pub process : List (Text × List Text) → Text → List Text → Kahn → Kahn
process out id queue s =
    relax (or_else (lookup id s.depth) 0) (or_else (lookup id out) []) (shift_queue queue s)

-- The loop, with a bound on its rounds
unfoldable pub rounds : List (Text × List Text) → ℕ → Kahn → Kahn
rounds out zero s = s
rounds out (suc n) s = elim s.queue [ [] ↦ s | id ∷ queue ↦ rounds out n (process out id queue s) ]

-- `Math.max(0, ...depth.values())`
abbrev pub max_depth : List (Text × ℕ) → ℕ
max_depth [] = 0
max_depth ((id, d) ∷ m) = max d (max_depth m)

abbrev pub place_rest : ℕ → List TaskDagNode → List (Text × ℕ) → List (Text × ℕ)
place_rest d [] m = m
place_rest d (n ∷ ns) m = place_rest d ns (if is_some (lookup n.id m) then m else put n.id d m)

abbrev pub complete_depths : List TaskDagNode → Kahn → List (Text × ℕ)
complete_depths nodes s =
    if ltb s.processed (length nodes)
    then place_rest (max_depth s.depth + 1) nodes s.depth
    else s.depth

unfoldable pub depths : List TaskDagNode → List TaskDagEdge → List (Text × ℕ)
depths nodes edges = complete_depths nodes (
    rounds (outgoing nodes (valid_edges nodes edges)) (length nodes)
      (start nodes (valid_edges nodes edges)))

-- `byLayer`
abbrev pub by_layer :
    List (Text × ℕ) → List TaskDagNode → List (ℕ × List TaskDagNode) → List (ℕ × List TaskDagNode)
by_layer m [] layers = layers
by_layer m (n ∷ ns) layers = by_layer m ns (
    put (or_else (lookup n.id m) 0)
      (or_else (lookup (or_else (lookup n.id m) 0) layers) [] ++ n ∷ []) layers)

-- `Math.ceil(n / MAX_ROWS_PER_LAYER)`
abbrev pub subcolumns : ℕ → ℕ
subcolumns n = (n + 7) / 8

abbrev pub layer_width : List TaskDagNode → ℕ
layer_width ns = subcolumns (length ns) * subcolumn_width + (column_width - subcolumn_width)

-- `layerBaseX`, from the first of the depths that are left
abbrev pub layer_base_x : List ℕ → List (ℕ × List TaskDagNode) → ℕ → List (ℕ × ℕ)
layer_base_x [] layers x = []
layer_base_x (d ∷ ds) layers x =
    (d, x) ∷ layer_base_x ds layers (x + layer_width (or_else (lookup d layers) []))

pub record Placed : Type 0 where
  pub task : TaskDagNode
  pub x : ℕ
  pub y : ℕ

abbrev pub place_layer : ℕ → ℕ → List TaskDagNode → List Placed
place_layer base i [] = []
place_layer base i (n ∷ ns) =
    record {
      task = n;
      x = base + i / max_rows_per_layer * subcolumn_width;
      y = i % max_rows_per_layer * row_height;
    }
    ∷ place_layer base (suc i) ns

abbrev pub place_layers : List (ℕ × ℕ) → List (ℕ × List TaskDagNode) → List Placed
place_layers base [] = []
place_layers base ((d, ns) ∷ layers) =
    place_layer (or_else (lookup d base) 0) 0 ns ++ place_layers base layers

abbrev pub place : List (ℕ × List TaskDagNode) → List Placed
place layers = place_layers (layer_base_x (sort (λ a b. ltb b a) (keys layers)) layers 0) layers

pub record Layout : Type 0 where
  pub nodes : List Placed
  pub edges : List TaskDagEdge

-- `layoutDag`
unfoldable pub layout_dag : List TaskDagNode → List TaskDagEdge → Layout
layout_dag nodes edges = record {
  nodes = place (by_layer (depths nodes edges) nodes []);
  edges = valid_edges nodes edges;
}
