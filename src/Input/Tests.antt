-- ===== src/Input/Tests.antt =====
-- The theorems on src/frontend/src/components/chat/ChatInput.tsx at concrete boxes.
use soren.Base.{true, false, none, [], ◌∷◌, ◌≡◌, refl, Text, codes, arith}
use soren.Stores.Agents.{Agent}
use soren.Input.{Library, Input, mount, load_history, match_slash_command, action_of, feedback_of}
use soren.Input.Editing.{filtered_agents, handle_change}
use soren.Input.Keys.{arrow_up, arrow_down, enter, handle_key_down, handle_submit}
use soren.Input.Steps.{
  changed, key_pressed, command_replied, done, agents_changed, send_clicked, run, step,
  finish_command,
}
use soren.Input.Invariant.{IsValid}
use soren.Input.Keeping.{inputs-IsValid}
use soren.Input.Recall.{recall_lem, press, browsing, restored}
use soren.Input.Commands.{IsClean, inputs-IsClean}
use soren.Input.Mentions.{mention_lem, stale_selection}

abbrev library : Library
library = record { lower = λ s. s; stringify = λ h. []; parse = λ s. none }

abbrev agent : Text → Agent
agent id = record {
  id = id;
  name = id;
  kind = [];
  status = [];
  display_name = none;
  role = none;
  project_id = none;
  permanent = false;
}

abbrev used : Input
unfolding load_history
used = record (mount library none (agent (codes "ann") ∷ agent (codes "bob") ∷ [])) {
  history = codes "one" ∷ codes "two" ∷ [];
  message = codes "draft";
}

inputs-IsValid_example :
    IsValid library (run library used (key_pressed arrow_up ∷ key_pressed enter ∷ []))
unfolding used
inputs-IsValid_example =
    inputs-IsValid library used (key_pressed arrow_up ∷ key_pressed enter ∷ [])
      (record { bounded = omega arith; distinct = refl; index_ok = refl; command_ok = refl })

inputs-IsClean_example :
    IsClean (run library used (changed (codes "/status") 7 ∷ send_clicked ∷ []))
unfolding used match_slash_command
inputs-IsClean_example =
    inputs-IsClean library used (changed (codes "/status") 7 ∷ send_clicked ∷ [])
      (record { clean_sent = tt; clean_history = ((refl, refl), ((refl, refl), tt)) })

recall_lem_example :
    (press library arrow_up 2 used ≡ browsing library 0 used)
    × (press library arrow_down 2 (press library arrow_up 2 used) ≡ restored library used)
unfolding used
recall_lem_example = recall_lem library used refl refl 1 (omega arith) refl refl refl

mention_lem_example :
    ((handle_key_down library enter (handle_change (codes "hi @b there") 5 used)).message
      ≡ codes "hi @bob  there")
    × ((handle_key_down library enter (handle_change (codes "hi @b there") 5 used)).selection_start
        ≡ 8)
unfolding used filtered_agents handle_change
mention_lem_example =
    mention_lem library (codes "hi ") (codes "b") (codes " there") used (agent (codes "bob")) []
      refl refl refl refl refl

-- The second of two agents is chosen when the first goes away.
abbrev choosing : Input
unfolding used
choosing = record used {
  mention = record { active = true; query = []; start_index = 0; selected_index = 1 };
}

stale_selection_example :
    step library
      (step library choosing (agents_changed (agent (codes "bob") ∷ [])))
      (key_pressed enter)
    ≡ step library choosing (agents_changed (agent (codes "bob") ∷ []))
unfolding used choosing filtered_agents
stale_selection_example =
    stale_selection library choosing (agent (codes "bob") ∷ []) refl (omega arith) (omega arith)

-- Both lists can be open at once: a slash before a mention opens the list of commands and leaves
-- the other one open.
both_open :
    ((run library used (changed (codes "@a") 2 ∷ changed (codes "/@a") 1 ∷ [])).mention.active
      ≡ true)
    × ((run library used
          (changed (codes "@a") 2 ∷ changed (codes "/@a") 1 ∷ [])).slash_command.active
        ≡ true)
unfolding used run step handle_change
both_open = (refl, refl)

-- What is typed while a command runs is gone when its reply comes.
typed_is_lost :
    (run library used (
      changed (codes "/wake ann") 9
      ∷ send_clicked
      ∷ changed (codes "next message") 12
      ∷ command_replied 0 done
      ∷ [])).message
    ≡ []
unfolding used run step handle_change handle_submit match_slash_command action_of finish_command
    feedback_of
typed_is_lost = refl
