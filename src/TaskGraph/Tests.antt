-- ===== src/TaskGraph/Tests.antt =====
-- The theorems on src/frontend/src/lib/dag-layout.ts at a small graph.
use soren.Base.{◌+◌, ◌≤◌, Bool, [], ◌∷◌, List, Text, codes, ◌≡◌, refl, inl, text_Eq}
use soren.TaskGraph.{
  TaskDagNode, TaskDagEdge, layout_dag, rounds, start, outgoing, incoming, relax, relax_edge,
  depths,
}
use soren.TaskGraph.Relaxing.{dep}
use soren.TaskGraph.Rounds.{layout_loop_ends}
use soren.TaskGraph.Deeper.{resolved, edges_go_deeper}
use soren.TaskGraph.Placement.{number, tasks_of, Apart}
use soren.TaskGraph.Overlap.{layout_dag_lem}

abbrev node : Text → TaskDagNode
node id = record { id = id; title = []; status = []; priority = []; assigned_to = [] }

abbrev a_before_b : TaskDagEdge
a_before_b = record { from = codes "a"; to = codes "b" }

abbrev two : List TaskDagNode
two = node (codes "a") ∷ node (codes "b") ∷ []

edges_go_deeper_example :
    dep (resolved two (a_before_b ∷ [])) (codes "a") + 1
    ≤ dep (resolved two (a_before_b ∷ [])) (codes "b")
unfolding rounds start outgoing incoming relax relax_edge
edges_go_deeper_example =
    edges_go_deeper two (a_before_b ∷ []) a_before_b (refl, (refl, tt)) (inl refl) refl

layout_loop_ends_example : (rounds [] 2 (start two (a_before_b ∷ []))).queue ≡ []
layout_loop_ends_example = layout_loop_ends two (a_before_b ∷ []) [] 0

layout_dag_lem_example :
    ((p : TaskDagNode → Bool)
      → number p (tasks_of (layout_dag two (a_before_b ∷ [])).nodes) ≡ number p two)
    × Apart (layout_dag two (a_before_b ∷ [])).nodes
layout_dag_lem_example = layout_dag_lem two (a_before_b ∷ [])

-- A cycle behind a task that is resolved: the comment in the source promises one layer past the
-- deepest, but its first node keeps the depth that the edge from outside gave it.
abbrev cycle : List TaskDagEdge
cycle =
    a_before_b
    ∷ record { from = codes "b"; to = codes "c" }
    ∷ record { from = codes "c"; to = codes "b" }
    ∷ []

depths-cycle :
    depths (node (codes "a") ∷ node (codes "b") ∷ node (codes "c") ∷ []) cycle
    ≡ (codes "a", 0) ∷ (codes "b", 1) ∷ (codes "c", 2) ∷ []
unfolding depths rounds start outgoing incoming relax relax_edge
depths-cycle = refl
