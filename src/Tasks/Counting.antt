-- ===== src/Tasks/Counting.antt =====
-- The counts of src/frontend/src/components/tasks/task-utils.ts, against counting one status.
use soren.Base.{
  ℕ, ◌+◌, List, [], ◌∷◌, Text, ◌≡◌, refl, ◌==◌, text_Eq, or_else, lookup, put, lookup-put, length,
  filter, arith, Bool-cases, inl, inr, text_eq_iff, ◌∙◌,
}
use soren.Tasks.{Task, Tasks, fields, flatten_tasks, count_all, count_by_status}

-- How many tasks of a list have a status.
abbrev pub number_of : Text → List Task → ℕ
number_of status ts = length (filter (λ t. (fields t).status == status) ts)

count_all_lem :
    (status : Text) (ts : List Task) (counts : List (Text × ℕ))
    → or_else (lookup status (count_all ts counts)) 0
      ≡ or_else (lookup status counts) 0 + number_of status ts
unfolding count_all
count_all_lem status [] counts = omega arith
count_all_lem status (t ∷ ts) counts =
    let s = (fields t).status in
    let n = or_else (lookup s counts) 0 + 1 in
    count_all_lem status ts (put s n counts)
    ∙ rw (lookup-put s status n counts) (elim (Bool-cases (s == status)) [
      | inl e ↦ let same : s ≡ status = (text_eq_iff s status).0 e in rw (e, same) (omega arith)
      | inr e ↦ rw e refl
    ])

-- The count under a status is the number of tasks in the whole tree that have it, and a status
-- that no task has counts 0.
pub count_by_status_lem :
    (status : Text) (tasks : Tasks)
    → or_else (lookup status (count_by_status tasks)) 0 ≡ number_of status (flatten_tasks tasks)
unfolding count_by_status
count_by_status_lem status tasks = omega (arith, count_all_lem status (flatten_tasks tasks) [])
