-- ===== src/Tasks/Tests.antt =====
-- The theorems on src/frontend/src/components/tasks/task-utils.ts at a small tree.
use soren.Base.{
  Bool, none, [], ◌∷◌, map, codes, ◌≡◌, String, text_Eq, ◌==◌, text_lt, text_lt_asym, text_lt_trans,
}
use soren.Tasks.{
  TaskFields, task, Tasks, no_tasks, cons, fields, flatten_tasks, filter_tasks, sort_tasks,
  task_after, priority_time,
}
use soren.Tasks.Filtering.{filter_tasks_lem}
use soren.Tasks.Ordering.{sort_tasks_lem, InOrder, MayPrecede}
use soren.Tasks.Kinship.{total, links}

abbrev titled : String → String → String → TaskFields
titled title status priority = record {
  title = codes title;
  status = codes status;
  priority = codes priority;
  description = none;
  assigned_to = none;
  project = none;
  created_at = codes title;
}

abbrev tree : Tasks
tree =
    cons (task (titled "a" "done" "low") (cons (task (titled "b" "done" "high") no_tasks) no_tasks))
      (cons (task (titled "c" "blocked" "critical") no_tasks) no_tasks)

abbrev is_high : TaskFields → Bool
is_high f = f.priority == codes "high"

filter_tasks_lem_example :
    map fields (flatten_tasks (filter_tasks is_high tree))
    ≡ titled "a" "done" "low" ∷ titled "b" "done" "high" ∷ []
unfolding flatten_tasks
filter_tasks_lem_example = filter_tasks_lem is_high tree

abbrev of_one_status : TaskFields → TaskFields → Bool
of_one_status f g = f.status == g.status

sort_tasks_lem_example :
    InOrder
      (MayPrecede (λ s t. text_lt t s) priority_time)
      (sort_tasks (task_after (λ s t. text_lt t s) priority_time) tree)
    × (total is_high (sort_tasks (task_after (λ s t. text_lt t s) priority_time) tree)
        ≡ total is_high tree)
    × (links of_one_status (sort_tasks (task_after (λ s t. text_lt t s) priority_time) tree)
        ≡ links of_one_status tree)
sort_tasks_lem_example =
    sort_tasks_lem (λ s t. text_lt t s) priority_time tree is_high of_one_status
      (record { asym = λ s t. text_lt_asym t s; trans = λ s t u. text_lt_trans s t u })
