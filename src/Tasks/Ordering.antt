-- ===== src/Tasks/Ordering.antt =====
-- The sort of src/frontend/src/components/tasks/task-utils.ts: every level of the tree is in order,
-- and no task is lost or repeated.
use soren.Base.{
  ℕ, Bool, true, false, List, [], ◌∷◌, Text, ◌≡◌, refl, text_Eq, if◌then◌else◌, arith, Bool-cases,
  inl, inr, ltb, nat_eq, ◌≤◌, ◌<◌, ◌⊎◌, suc, codes, ◌==◌,
}
use soren.Tasks.{
  TaskFields, task, Tasks, no_tasks, cons, fields, insert_task, sort_tasks, SortOption,
  priority_desc, priority_asc, time_desc, time_asc, priority_time, task_after, priority_order,
}
use soren.Tasks.Kinship.{total, links, total-sort, links-sort}

-- Every task of a level may stand before all that follow it there.
abbrev pub Before : (TaskFields → TaskFields → Bool) → TaskFields → Tasks → Type 0
Before after f no_tasks = Unit
Before after f (cons t ts) = (after f (fields t) ≡ false) × Before after f ts

abbrev pub IsOrdered : (TaskFields → TaskFields → Bool) → Tasks → Type 0
IsOrdered after no_tasks = Unit
IsOrdered after (cons (task f cs) ts) = Before after f ts × IsOrdered after cs × IsOrdered after ts

module _ (after : TaskFields → TaskFields → Bool)
    (asym : (f g : TaskFields) → after f g ≡ true → after g f ≡ false)
    (trans : (f g h : TaskFields) → after f g ≡ false → after g h ≡ false → after f h ≡ false) where
  Before-insert :
      (f g : TaskFields) (cs ts : Tasks)
      → after f g ≡ false
      → Before after f ts
      → Before after f (insert_task after (task g cs) ts)
  unfolding insert_task
  Before-insert f g cs no_tasks e b = (e, tt)
  Before-insert f g cs (cons (task h ds) ts) e (d, b) = elim (Bool-cases (after g h)) [
    | inl x ↦ rw x (d, Before-insert f g cs ts e b)
    | inr x ↦ rw x (e, (d, b))
  ]

  Before-trans :
      (f g : TaskFields) (ts : Tasks) → after f g ≡ false → Before after g ts → Before after f ts
  Before-trans f g no_tasks e b = tt
  Before-trans f g (cons t ts) e (d, b) = (trans f g (fields t) e d, Before-trans f g ts e b)

  insert-IsOrdered :
      (f : TaskFields) (cs ts : Tasks)
      → IsOrdered after cs
      → IsOrdered after ts
      → IsOrdered after (insert_task after (task f cs) ts)
  unfolding insert_task
  insert-IsOrdered f cs no_tasks c o = (tt, c, tt)
  insert-IsOrdered f cs (cons (task g ds) ts) c (b, d, o) = elim (Bool-cases (after f g)) [
    | inl x ↦ rw x (Before-insert g f cs ts (asym f g x) b, d, insert-IsOrdered f cs ts c o)
    | inr x ↦ rw x ((x, Before-trans f g ts x b), c, (b, d, o))
  ]

  sort_tasks-IsOrdered : (ts : Tasks) → IsOrdered after (sort_tasks after ts)
  unfolding sort_tasks
  sort_tasks-IsOrdered no_tasks = tt
  sort_tasks-IsOrdered (cons (task f cs) ts) =
      insert-IsOrdered f _ _ (sort_tasks-IsOrdered cs) (sort_tasks-IsOrdered ts)

-- A collation is a total preorder.
pub record Collates (after : Text → Text → Bool) : Type 0 where
  pub asym : (s t : Text) → after s t ≡ true → after t s ≡ false
  pub trans : (s t u : Text) → after s t ≡ false → after t u ≡ false → after s u ≡ false

-- Comparing by a rank first, and then otherwise.
ranked-asym :
    (m n : ℕ) (x y : Bool)
    → (x ≡ true → y ≡ false)
    → (if nat_eq m n then x else ltb n m) ≡ true
    → (if nat_eq n m then y else ltb m n) ≡ false
ranked-asym m n x y h e = ground arith

rank_trans : (m n k : ℕ) → ltb n m ≡ false → ltb k n ≡ false → ltb k m ≡ false
rank_trans m n k e d = ground arith

ranked_trans :
    (m n k : ℕ) (x y z : Bool)
    → (x ≡ false → y ≡ false → z ≡ false)
    → (if nat_eq m n then x else ltb n m) ≡ false
    → (if nat_eq n k then y else ltb k n) ≡ false
    → (if nat_eq m k then z else ltb k m) ≡ false
ranked_trans m n k x y z h e d = ground arith

module _ (after : Text → Text → Bool) (collates : Collates after) where
  task_after-asym :
      (sort : SortOption) (f g : TaskFields)
      → task_after after sort f g ≡ true
      → task_after after sort g f ≡ false
  unfolding task_after
  task_after-asym priority_desc f g e = ground arith
  task_after-asym priority_asc f g e = ground arith
  task_after-asym time_desc f g e = collates.asym _ _ e
  task_after-asym time_asc f g e = collates.asym _ _ e
  task_after-asym priority_time f g e =
      ranked-asym (priority_order f.priority) (priority_order g.priority) _ _
        (collates.asym g.created_at f.created_at) e

  task_after_trans :
      (sort : SortOption) (f g h : TaskFields)
      → task_after after sort f g ≡ false
      → task_after after sort g h ≡ false
      → task_after after sort f h ≡ false
  unfolding task_after
  task_after_trans priority_desc f g h e d =
      rank_trans (priority_order f.priority) (priority_order g.priority) _ e d
  task_after_trans priority_asc f g h e d =
      rank_trans (priority_order h.priority) (priority_order g.priority) _ d e
  task_after_trans time_desc f g h e d = collates.trans h.created_at g.created_at f.created_at d e
  task_after_trans time_asc f g h e d = collates.trans _ _ _ e d
  task_after_trans priority_time f g h e d =
      ranked_trans (priority_order f.priority) (priority_order g.priority)
        (priority_order h.priority) _ _ _
        (λ x y. collates.trans h.created_at g.created_at f.created_at y x) e d

-- The priorities from the most to the least urgent
abbrev pub priorities : List Text
priorities = codes "critical" ∷ codes "high" ∷ codes "medium" ∷ codes "low" ∷ []

-- The place of a priority among them; no priority, and an unknown one, is as urgent as medium.
abbrev pub place_in : ℕ → Text → List Text → ℕ
place_in n p [] = 2
place_in n p (q ∷ qs) = let rest = place_in (suc n) p qs in if p == q then n else rest

abbrev pub urgency : TaskFields → ℕ
urgency f = place_in 0 f.priority priorities

-- When a task may stand before another; times are texts, and `after s t` says that s is the later.
abbrev pub MayPrecede : (Text → Text → Bool) → SortOption → TaskFields → TaskFields → Type 0
MayPrecede after priority_desc f g = urgency f ≤ urgency g
MayPrecede after priority_asc f g = urgency g ≤ urgency f
MayPrecede after time_desc f g = after g.created_at f.created_at ≡ false
MayPrecede after time_asc f g = after f.created_at g.created_at ≡ false
MayPrecede after priority_time f g =
    (urgency f < urgency g) ⊎ ((urgency f ≡ urgency g) × (after g.created_at f.created_at ≡ false))

by_text : (p : Text) → priority_order p ≡ place_in 0 p priorities
by_text [] = refl
by_text (c ∷ p) = ground arith

priority_order-urgency : (f : TaskFields) → priority_order f.priority ≡ urgency f
priority_order-urgency f = by_text f.priority

task_after-MayPrecede :
    (after : Text → Text → Bool) (sort : SortOption) (f g : TaskFields)
    → task_after after sort f g ≡ false
    → MayPrecede after sort f g
unfolding task_after
task_after-MayPrecede after priority_desc f g e =
    ground (arith, e, priority_order-urgency f, priority_order-urgency g)
task_after-MayPrecede after priority_asc f g e =
    ground (arith, e, priority_order-urgency f, priority_order-urgency g)
task_after-MayPrecede after time_desc f g e = e
task_after-MayPrecede after time_asc f g e = e
task_after-MayPrecede after priority_time f g e =
    ground (arith, e, priority_order-urgency f, priority_order-urgency g)

-- Every task of a level may stand before all that follow it there, at every level.
abbrev pub Leads : (TaskFields → Type 0) → Tasks → Type 0
Leads P no_tasks = Unit
Leads P (cons t ts) = P (fields t) × Leads P ts

abbrev pub InOrder : (TaskFields → TaskFields → Type 0) → Tasks → Type 0
InOrder P no_tasks = Unit
InOrder P (cons (task f cs) ts) = Leads (P f) ts × InOrder P cs × InOrder P ts

Before-Leads :
    (after : Text → Text → Bool) (sort : SortOption) (f : TaskFields) (ts : Tasks)
    → Before (task_after after sort) f ts
    → Leads (MayPrecede after sort f) ts
Before-Leads after sort f no_tasks h = tt
Before-Leads after sort f (cons t ts) (h, k) =
    (task_after-MayPrecede after sort f (fields t) h, Before-Leads after sort f ts k)

IsOrdered-InOrder :
    (after : Text → Text → Bool) (sort : SortOption) (ts : Tasks)
    → IsOrdered (task_after after sort) ts
    → InOrder (MayPrecede after sort) ts
IsOrdered-InOrder after sort no_tasks h = tt
IsOrdered-InOrder after sort (cons (task f cs) ts) (b, c, o) = (
  Before-Leads after sort f ts b,
  IsOrdered-InOrder after sort cs c,
  IsOrdered-InOrder after sort ts o,
)

-- For a collation that is a total preorder, sorting puts every level of the tree in the order of
-- the option: critical, high, medium, low and the other way round, where any other priority counts
-- as medium, newest or oldest first, or by priority and newest first among equals. As many tasks
-- of the tree as before pass any test, and as many pairs of a task and one right below it.
pub sort_tasks_lem :
    (after : Text → Text → Bool) (sort : SortOption) (ts : Tasks) (q : TaskFields → Bool)
    (r : TaskFields → TaskFields → Bool)
    → Collates after
    → InOrder (MayPrecede after sort) (sort_tasks (task_after after sort) ts)
      × (total q (sort_tasks (task_after after sort) ts) ≡ total q ts)
      × (links r (sort_tasks (task_after after sort) ts) ≡ links r ts)
sort_tasks_lem after sort ts q r collates = (
  IsOrdered-InOrder after sort _ (
      sort_tasks-IsOrdered (task_after after sort) (task_after-asym after collates sort)
        (task_after_trans after collates sort) ts),
  total-sort (task_after after sort) q ts,
  links-sort (task_after after sort) r ts,
)
