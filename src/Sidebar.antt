-- ===== src/Sidebar.antt =====
-- src/frontend/src/components/sidebar/sidebar-utils.ts: agents grouped by project, each group with
-- its supervisor apart. The collation of `localeCompare` is an argument, whether a text comes after
-- another, and so is `toLowerCase`. Agents are distinct objects, and are told apart by position.
pub mod Members
pub mod Groups
mod Tests
use soren.Base.{
  ℕ, suc, ◌+◌, Bool, true, false, not, ◌&&◌, ◌||◌, Option, none, some, List, [], ◌∷◌, ◌++◌, map,
  Text, codes, ◌==◌, text_Eq, nat_Eq, ltb, nat_eq, if◌then◌else◌, or_else, is_some, any, has,
  filter, length, lookup, put, erase, keys, sort, text_lt, includes,
}
use soren.Chat.Collapse.{trim}
use soren.Stores.Agents.{Agent}

-- src/frontend/src/types/project.ts
pub record Project : Type 0 where
  pub id : Text
  pub name : Text
  pub is_self : Bool

abbrev pub system_project_id : Text
system_project_id = codes "soren"

pub record ProjectGroupData : Type 0 where
  pub id : Text
  pub name : Text
  pub is_system : Bool
  pub supervisor : Option Agent
  pub agents : List Agent
  pub attention_count : ℕ
  pub active_count : ℕ
  pub sleeping_count : ℕ

abbrev pub is_empty : Text → Bool
is_empty [] = true
is_empty (c ∷ s) = false

abbrev pub no_agents : List Agent → Bool
no_agents [] = true
no_agents (a ∷ rest) = false

abbrev pub has_status : List Text → Agent → Bool
has_status statuses a = has a.status statuses

abbrev pub attention : List Text
attention = codes "BLOCKED" ∷ codes "FAILED" ∷ []

abbrev pub active : List Text
active = codes "IN_PROGRESS" ∷ codes "TESTING" ∷ []

-- `STATUS_RANK[a.status] ?? 2`
unfoldable pub rank : Agent → ℕ
rank a =
    if has_status attention a
    then 0
    else if has_status active a
    then 1
    else if has_status (codes "COMPLETE" ∷ []) a
    then 3
    else if has_status (codes "SLEEPING" ∷ []) a
    then 4
    else 2

-- `a.display_name || a.name`
abbrev pub shown_name : Agent → Text
shown_name a = let name = or_else a.display_name [] in if is_empty name then a.name else name

-- The comparator of `sortAgents` is positive.
unfoldable pub agent_after : (Text → Text → Bool) → Agent → Agent → Bool
unfolding rank
agent_after after a b =
    if nat_eq (rank a) (rank b) then after (shown_name a) (shown_name b) else ltb (rank b) (rank a)

-- `sortAgents`
unfoldable pub sort_agents : (Text → Text → Bool) → List Agent → List Agent
unfolding agent_after
sort_agents after = sort (agent_after after)

abbrev pub is_supervisor : Agent → Bool
is_supervisor a = a.kind == codes "supervisor"

abbrev pub supervisor_priority : Agent → ℕ
supervisor_priority a = if a.name == codes "supervisor" then 0 else 1

-- `agent.project_id || SYSTEM_PROJECT_ID`
abbrev pub project_of : Agent → Text
project_of a = let id = or_else a.project_id [] in if is_empty id then system_project_id else id

-- The loop that fills `byProject`.
unfoldable pub fill_projects : List Agent → List (Text × List Agent) → List (Text × List Agent)
fill_projects [] found = found
fill_projects (a ∷ rest) found =
    fill_projects rest
      (put (project_of a) (or_else (lookup (project_of a) found) [] ++ a ∷ []) found)

abbrev pub by_project : List Agent → List (Text × List Agent)
by_project agents = fill_projects agents []

-- `registered`
unfoldable pub registered_from : List Project → List (Text × Project) → List (Text × Project)
registered_from [] found = found
registered_from (p ∷ rest) found = registered_from rest (put p.id p found)

abbrev pub registered : List Project → List (Text × Project)
registered projects = registered_from projects []

-- `systemId`
unfoldable pub system_id : List Project → Text
system_id [] = system_project_id
system_id (p ∷ rest) = if p.is_self then p.id else system_id rest

abbrev pub name_or : Text → Option Project → Text
name_or id none = id
name_or id (some p) = p.name

-- `orderedIds`
unfoldable pub ordered_ids :
    (Text → Text → Bool) → List Project → List (Text × List Agent) → List Text
unfolding system_id registered_from
ordered_ids after projects found =
    let known = registered projects in
    system_id projects
    ∷ (sort (λ a b. after (name_or a (lookup a known)) (name_or b (lookup b known)))
          (map (λ p. p.id) (filter (λ p. not (p.id == system_id projects)) projects))
        ++ sort (λ a b. text_lt b a)
            (filter (λ id. not (id == system_id projects) && not (is_some (lookup id known)))
              (keys found)))

-- Moving the synthetic bucket into the registered self project's.
unfoldable pub fold_synthetic : Text → List (Text × List Agent) → List (Text × List Agent)
fold_synthetic id found =
    if not (id == system_project_id) && is_some (lookup system_project_id found)
    then erase system_project_id
        (put id (or_else (lookup id found) [] ++ or_else (lookup system_project_id found) []) found)
    else found

-- The members with their positions.
abbrev pub numbered : ℕ → List Agent → List (ℕ × Agent)
numbered n [] = []
numbered n (a ∷ rest) = (n, a) ∷ numbered (suc n) rest

abbrev pub first_of : List (ℕ × Agent) → Option (ℕ × Agent)
first_of [] = none
first_of (m ∷ rest) = some m

-- `supervisors[0] ?? null`
unfoldable pub supervisor_of : List Agent → Option (ℕ × Agent)
supervisor_of members = first_of (
    sort (λ a b. ltb (supervisor_priority b.1) (supervisor_priority a.1))
      (filter (λ m. is_supervisor m.1) (numbered 0 members)))

-- `members.filter((a) => a !== supervisor)`
abbrev pub without : Option (ℕ × Agent) → List (ℕ × Agent) → List Agent
without none members = map (λ m. m.1) members
without (some s) members = map (λ m. m.1) (filter (λ m. not (m.0 == s.0)) members)

abbrev pub agent_at : Option (ℕ × Agent) → Option Agent
agent_at none = none
agent_at (some s) = some s.1

-- One group of `groupAgentsByProject`.
unfoldable pub group_of : (Text → Text → Bool) → List Project → Text → List Agent → ProjectGroupData
unfolding supervisor_of sort_agents
group_of after projects id members = record {
  id = id;
  name =
      if id == system_id projects
      then codes "soren"
      else name_or id (lookup id (registered projects));
  is_system = id == system_id projects;
  supervisor = agent_at (supervisor_of members);
  agents = sort_agents after (without (supervisor_of members) (numbered 0 members));
  attention_count = length (filter (has_status attention) members);
  active_count = length (filter (has_status active) members);
  sleeping_count = length (filter (has_status (codes "SLEEPING" ∷ [])) members);
}

-- The loop over the ids, with those that were seen.
unfoldable pub groups_from :
    (Text → Text → Bool)
    → List Project
    → List (Text × List Agent)
    → List Text
    → List Text
    → List ProjectGroupData
unfolding group_of
groups_from after projects found seen [] = []
groups_from after projects found seen (id ∷ ids) =
    let members = or_else (lookup id found) [] in
    let again = groups_from after projects found seen ids in
    let rest = groups_from after projects found (id ∷ seen) ids in
    if has id seen
    then again
    else if no_agents members
        && not (id == system_id projects)
        && not (is_some (lookup id (registered projects)))
    then rest
    else group_of after projects id members ∷ rest

-- `groupAgentsByProject`
unfoldable pub group_agents_by_project :
    (Text → Text → Bool) → List Agent → List Project → List ProjectGroupData
unfolding fill_projects ordered_ids fold_synthetic groups_from
group_agents_by_project after agents projects =
    groups_from after projects (fold_synthetic (system_id projects) (by_project agents)) []
      (ordered_ids after projects (by_project agents))

abbrev pub says : (Text → Text) → Text → Option Text → Bool
says lower q none = false
says lower q (some s) = includes q (lower s)

abbrev pub matches : (Text → Text) → Text → Agent → Bool
matches lower q a = includes q (lower a.name) || says lower q a.display_name || says lower q a.role

abbrev pub keep_matching : (Text → Text) → Text → Option Agent → Option Agent
keep_matching lower q none = none
keep_matching lower q (some a) = if matches lower q a then some a else none

unfoldable pub filter_listed : (Text → Text) → Text → List ProjectGroupData → List ProjectGroupData
filter_listed lower q [] = []
filter_listed lower q (g ∷ gs) =
    let rest = filter_listed lower q gs in
    let supervisor = keep_matching lower q g.supervisor in
    let agents = filter (matches lower q) g.agents in
    if includes q (lower g.name)
    then g ∷ rest
    else if not (is_some supervisor) && no_agents agents
    then rest
    else record g { supervisor = supervisor; agents = agents } ∷ rest

-- `filterGroups`
unfoldable pub filter_groups : (Text → Text) → List ProjectGroupData → Text → List ProjectGroupData
unfolding filter_listed
filter_groups lower groups query =
    let q = lower (trim query) in if is_empty q then groups else filter_listed lower q groups
