-- ===== src/Tasks.antt =====
-- src/frontend/src/components/tasks/task-utils.ts: the tree of tasks and the pure functions on it.
-- `toLowerCase` and the collation of `localeCompare` are arguments.
pub mod Filtering
pub mod Kinship
pub mod Ordering
pub mod Counting
mod Tests
use soren.Base.{
  ℕ, ◌+◌, Bool, true, false, not, ◌&&◌, ◌||◌, Option, none, some, List, [], ◌∷◌, ◌++◌, Text, codes,
  ◌==◌, text_Eq, ltb, nat_eq, if◌then◌else◌, or_else, lookup, put, includes, has, filter, add, sort,
  text_lt, Eq,
}

-- The fields of `Task` that these functions read, without the children.
pub record TaskFields : Type 0 where
  pub title : Text
  pub status : Text
  pub priority : Text
  pub description : Option Text
  pub assigned_to : Option Text
  pub project : Option Text
  pub created_at : Text

mutual
  -- Children that are undefined are read as none.
  pub data Task : Type 0 where
    task : TaskFields → Tasks → Task

  pub data Tasks : Type 0 where
    no_tasks : Tasks
    cons : Task → Tasks → Tasks

abbrev pub fields : Task → TaskFields
fields (task f cs) = f

-- `flattenTasks`
unfoldable pub flatten_tasks : Tasks → List Task
flatten_tasks no_tasks = []
flatten_tasks (cons (task f cs) rest) = task f cs ∷ (flatten_tasks cs ++ flatten_tasks rest)

abbrev pub is_empty : Text → Bool
is_empty [] = true
is_empty (c ∷ s) = false

-- The loop of `countByStatus`; a record of counts reads 0 for a key it does not have.
unfoldable pub count_all : List Task → List (Text × ℕ) → List (Text × ℕ)
count_all [] counts = counts
count_all (t ∷ ts) counts =
    let status = (fields t).status in
    count_all ts (put status (or_else (lookup status counts) 0 + 1) counts)

-- `countByStatus`
unfoldable pub count_by_status : Tasks → List (Text × ℕ)
unfolding count_all flatten_tasks
count_by_status tasks = count_all (flatten_tasks tasks) []

unfoldable pub assignees_of : List Task → List Text → List Text
assignees_of [] set = set
assignees_of (t ∷ ts) set =
    let name = or_else (fields t).assigned_to [] in
    assignees_of ts (if is_empty name then set else add name set)

-- `collectAssignees`
unfoldable pub collect_assignees : Tasks → List Text
unfolding assignees_of flatten_tasks
collect_assignees tasks = sort (λ s t. text_lt t s) (assignees_of (flatten_tasks tasks) [])

abbrev pub says : (Text → Text) → Text → Option Text → Bool
says lower q none = false
says lower q (some s) = includes q (lower s)

-- `matchesSearch`
unfoldable pub matches_search : (Text → Text) → TaskFields → Text → Bool
matches_search lower t query =
    if is_empty query
    then true
    else includes (lower query) (lower t.title)
      || says lower (lower query) t.description
      || says lower (lower query) t.assigned_to
      || says lower (lower query) t.project

abbrev pub passes : Text → List Text → Bool
passes value [] = true
passes value (x ∷ xs) = has value (x ∷ xs)

abbrev pub or_medium : Text → Text
or_medium p = if is_empty p then codes "medium" else p

-- `selfMatches` of `filterTasks`
unfoldable pub self_matches :
    (Text → Text) → List Text → List Text → List Text → Text → TaskFields → Bool
unfolding matches_search
self_matches lower statuses priorities assignees search t =
    passes t.status statuses
    && passes (or_medium t.priority) priorities
    && passes (or_else t.assigned_to []) assignees
    && matches_search lower t search

abbrev pub has_some : Tasks → Bool
has_some no_tasks = false
has_some (cons t ts) = true

-- `filterTasks`, for the test of a task's own fields
unfoldable pub filter_tasks : (TaskFields → Bool) → Tasks → Tasks
filter_tasks p no_tasks = no_tasks
filter_tasks p (cons (task f cs) rest) =
    let filtered_children = filter_tasks p cs in
    let filtered_rest = filter_tasks p rest in
    if p f || has_some filtered_children
    then cons (task f filtered_children) filtered_rest
    else filtered_rest

pub data SortOption : Type 0 where
  priority_desc priority_asc time_desc time_asc priority_time : SortOption

-- `PRIORITY_ORDER[priority || 'medium'] ?? 2`
abbrev pub priority_order : Text → ℕ
priority_order p =
    if or_medium p == codes "critical"
    then 0
    else if or_medium p == codes "high"
    then 1
    else if or_medium p == codes "medium"
    then 2
    else if or_medium p == codes "low"
    then 3
    else 2

-- The comparator of `sortTasks` is positive; `after s t` is `s.localeCompare(t) > 0`.
unfoldable pub task_after : (Text → Text → Bool) → SortOption → TaskFields → TaskFields → Bool
task_after after priority_desc a b = ltb (priority_order b.priority) (priority_order a.priority)
task_after after priority_asc a b = ltb (priority_order a.priority) (priority_order b.priority)
task_after after time_desc a b = after b.created_at a.created_at
task_after after time_asc a b = after a.created_at b.created_at
task_after after priority_time a b =
    if nat_eq (priority_order a.priority) (priority_order b.priority)
    then after b.created_at a.created_at
    else ltb (priority_order b.priority) (priority_order a.priority)

-- The stable sort of a list of tasks.
unfoldable pub insert_task : (TaskFields → TaskFields → Bool) → Task → Tasks → Tasks
insert_task after t no_tasks = cons t no_tasks
insert_task after t (cons u us) =
    if after (fields t) (fields u) then cons u (insert_task after t us) else cons t (cons u us)

-- `sortTasks`: the comparator reads no children, so they are sorted on the way.
unfoldable pub sort_tasks : (TaskFields → TaskFields → Bool) → Tasks → Tasks
unfolding insert_task
sort_tasks after no_tasks = no_tasks
sort_tasks after (cons (task f cs) rest) =
    insert_task after (task f (sort_tasks after cs)) (sort_tasks after rest)

-- `filterByRegisteredProjects`
unfoldable pub filter_by_registered_projects : List Text → Tasks → Tasks
filter_by_registered_projects ids no_tasks = no_tasks
filter_by_registered_projects ids (cons t rest) =
    let kept = filter_by_registered_projects ids rest in
    let project = or_else (fields t).project [] in
    if is_empty project || has project ids then cons t kept else kept

-- `toggleInSet`
unfoldable pub toggle_in_set {ℓ} : {A : Type ℓ} ⦃e : Eq A⦄ → List A → A → List A
toggle_in_set set value =
    if has value set then filter (λ x. not (x == value)) set else add value set
