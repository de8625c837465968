-- ===== src/Sidebar/Tests.antt =====
-- The theorems on src/frontend/src/components/sidebar/sidebar-utils.ts with a few agents.
use soren.Base.{
  ◌+◌, Bool, true, false, none, some, List, [], ◌∷◌, Text, codes, String, ◌≡◌, text_Eq, text_lt,
}
use soren.Stores.Agents.{Agent}
use soren.Sidebar.{Project, group_of}
use soren.Sidebar.Members.{group_of_lem, count, count_option, Supervises}

abbrev agent : String → String → Agent
agent name kind = record {
  id = codes name;
  name = codes name;
  kind = codes kind;
  status = codes "IDLE";
  display_name = none;
  role = none;
  project_id = none;
  permanent = false;
}

abbrev three : List Agent
three =
    agent "sup-a" "supervisor"
    ∷ agent "supervisor" "supervisor"
    ∷ record (agent "eng-1" "worker") { project_id = some (codes "p") }
    ∷ []

abbrev projects : List Project
projects = record { id = codes "me"; name = codes "Soren"; is_self = true } ∷ []

abbrev after : Text → Text → Bool
after s t = text_lt t s

abbrev is_idle : Agent → Bool
is_idle a = true

group_of_lem_example :
    (count_option is_idle (group_of after projects (codes "me") three).supervisor
        + count is_idle (group_of after projects (codes "me") three).agents
      ≡ 3)
    × Supervises (group_of after projects (codes "me") three).supervisor
group_of_lem_example = group_of_lem after projects (codes "me") three is_idle
