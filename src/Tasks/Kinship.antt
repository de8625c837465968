-- ===== src/Tasks/Kinship.antt =====
-- The sort of src/frontend/src/components/tasks/task-utils.ts loses and repeats no task, and leaves each
-- below the task that it stood below.
use soren.Base.{
  ℕ, Bool, List, [], ◌∷◌, ◌++◌, ◌≡◌, refl, text_Eq, if◌then◌else◌, arith, Bool-cases, inl, inr,
  length, filter, ◌+◌,
}
use soren.Tasks.{
  TaskFields, Task, task, Tasks, no_tasks, cons, fields, flatten_tasks, insert_task, sort_tasks,
}

-- How many tasks of a tree pass a test.
abbrev pub total : (TaskFields → Bool) → Tasks → ℕ
total q ts = length (filter (λ t. q (fields t)) (flatten_tasks ts))

length-filter-append {ℓ} :
    {A : Type ℓ} (q : A → Bool) (xs ys : List A)
    → length (filter q (xs ++ ys)) ≡ length (filter q xs) + length (filter q ys)
length-filter-append q [] ys = omega arith
length-filter-append q (x ∷ xs) ys = ground (arith, length-filter-append q xs ys)

length-if {ℓ} :
    {A : Type ℓ} (b : Bool) (x : A) (xs : List A)
    → length (if b then x ∷ xs else xs) ≡ (if b then 1 else 0) + length xs
length-if b x xs = ground arith

total-cons :
    (q : TaskFields → Bool) (f : TaskFields) (cs ts : Tasks)
    → total q (cons (task f cs) ts) ≡ (if q f then 1 else 0) + total q cs + total q ts
unfolding flatten_tasks
total-cons q f cs ts =
    rw
      (
        length-if (q f) (task f cs) _,
        length-filter-append (λ t. q (fields t)) (flatten_tasks cs) (flatten_tasks ts),
      )
      (omega arith)

total-insert :
    (after : TaskFields → TaskFields → Bool) (q : TaskFields → Bool) (f : TaskFields)
    (cs ts : Tasks)
    → total q (insert_task after (task f cs) ts) ≡ total q (cons (task f cs) ts)
unfolding insert_task
total-insert after q f cs no_tasks = refl
total-insert after q f cs (cons (task g ds) ts) = elim (Bool-cases (after f g)) [
  | inr x ↦ rw x refl
  | inl x ↦ rw x (
      omega (
        arith,
        total-insert after q f cs ts,
        total-cons q g ds (insert_task after (task f cs) ts),
        total-cons q f cs ts,
        total-cons q f cs (cons (task g ds) ts),
        total-cons q g ds ts,
      ))
]

pub total-sort :
    (after : TaskFields → TaskFields → Bool) (q : TaskFields → Bool) (ts : Tasks)
    → total q (sort_tasks after ts) ≡ total q ts
unfolding sort_tasks
total-sort after q no_tasks = refl
total-sort after q (cons (task f cs) ts) = omega (
  arith,
  total-insert after q f (sort_tasks after cs) (sort_tasks after ts),
  total-cons q f (sort_tasks after cs) (sort_tasks after ts),
  total-cons q f cs ts,
  total-sort after q cs,
  total-sort after q ts,
)

-- How many tasks of a level pass a test, and how many tasks and tasks below them pass one.
abbrev pub heads : (TaskFields → Bool) → Tasks → ℕ
heads p no_tasks = 0
heads p (cons t ts) = (if p (fields t) then 1 else 0) + heads p ts

abbrev pub links : (TaskFields → TaskFields → Bool) → Tasks → ℕ
links r no_tasks = 0
links r (cons (task f cs) ts) = heads (r f) cs + links r cs + links r ts

heads-insert :
    (after : TaskFields → TaskFields → Bool) (p : TaskFields → Bool) (t : Task) (ts : Tasks)
    → heads p (insert_task after t ts) ≡ (if p (fields t) then 1 else 0) + heads p ts
unfolding insert_task
heads-insert after p t no_tasks = refl
heads-insert after p t (cons u us) = elim (Bool-cases (after (fields t) (fields u))) [
  | inl x ↦ rw x (omega (arith, heads-insert after p t us))
  | inr x ↦ rw x refl
]

heads-sort :
    (after : TaskFields → TaskFields → Bool) (p : TaskFields → Bool) (ts : Tasks)
    → heads p (sort_tasks after ts) ≡ heads p ts
unfolding sort_tasks
heads-sort after p no_tasks = refl
heads-sort after p (cons (task f cs) ts) = omega (
  arith,
  heads-insert after p (task f (sort_tasks after cs)) (sort_tasks after ts),
  heads-sort after p ts,
)

links-insert :
    (after : TaskFields → TaskFields → Bool) (r : TaskFields → TaskFields → Bool) (f : TaskFields)
    (cs ts : Tasks)
    → links r (insert_task after (task f cs) ts) ≡ heads (r f) cs + links r cs + links r ts
unfolding insert_task
links-insert after r f cs no_tasks = refl
links-insert after r f cs (cons (task g ds) ts) = elim (Bool-cases (after f g)) [
  | inl x ↦ rw x (omega (arith, links-insert after r f cs ts))
  | inr x ↦ rw x refl
]

pub links-sort :
    (after : TaskFields → TaskFields → Bool) (r : TaskFields → TaskFields → Bool) (ts : Tasks)
    → links r (sort_tasks after ts) ≡ links r ts
unfolding sort_tasks
links-sort after r no_tasks = refl
links-sort after r (cons (task f cs) ts) = omega (
  arith,
  links-insert after r f (sort_tasks after cs) (sort_tasks after ts),
  heads-sort after (r f) cs,
  links-sort after r cs,
  links-sort after r ts,
)
