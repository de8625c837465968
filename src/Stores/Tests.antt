-- ===== src/Stores/Tests.antt =====
-- The theorems on the stores of src/frontend/src/stores at concrete inputs.
use soren.Base.{
  true, false, Option, none, some, String, [], ◌∷◌, codes, arith, natural_numbers, length, text_Eq,
}
use soren.Stores.Layout
use soren.Stores.Layout.{layout_bounds}
use soren.Stores.Terminal.{
  terminal_bounds, font_steps_cancel, increase_font_size, decrease_font_size,
}
use soren.Stores.Terminal
use soren.Stores.Activities.{Activity, add_activity}
use soren.Stores.Activities.Duplicates.{activities-IsValid}
use soren.Stores.Activities
use soren.Stores.AgentEvents.{
  AgentEvent, add_event, is_agent_active, agent_events-IsValid, add_event-active,
}
use soren.Stores.AgentEvents
use soren.Stores.Thoughts.{Thought}
use soren.Stores.Agents.{Agent, AgentUpdates, AgentState, SessionState}

abbrev out_of_range : Option (Layout.Persisted natural_numbers)
out_of_range = some (record { left = some 90; right = none; collapsed = true })

abbrev sizes : Terminal.TerminalSettings
sizes = record { desktop_font_size = 13; mobile_font_size = 8; scrollback = 10_000 }

abbrev call : Activity
call = record {
  id = codes "1";
  timestamp = codes "t1";
  kind = codes "tool_call";
  agent_id = codes "eng-1";
  payload = [];
}

abbrev echoed : Activity
echoed = record call { id = codes "2" }

activities-IsValid_example :
    Activities.IsValid (Activities.step length [] (Activities.add_many (call ∷ echoed ∷ call ∷ [])))
activities-IsValid_example =
    activities-IsValid length [] (Activities.add_many (call ∷ echoed ∷ call ∷ []))
      (record { ids = tt; prints = tt; bounded = omega arith })

abbrev used : AgentEvent
used = record {
  id = codes "e";
  event_type = codes "PostToolUse";
  session_id = codes "s";
  agent_id = none;
  tool_name = none;
  tool_input = [];
  tool_output = [];
  timestamp = codes "12345";
}

agent_events-IsValid_example :
    AgentEvents.IsValid (AgentEvents.step AgentEvents.initial (AgentEvents.add used))
agent_events-IsValid_example =
    agent_events-IsValid AgentEvents.initial (AgentEvents.add used) (λ session. tt)

abbrev thought : String → Thought
thought s = record {
  id = codes s;
  agent_name = codes "eng-1";
  thought_type = codes "reasoning";
  content = none;
  tool_name = none;
  tool_input = none;
  tool_response = none;
  timestamp = codes s;
}

abbrev eng : Agent
eng = record {
  id = codes "1";
  name = codes "eng-1";
  kind = codes "worker";
  status = codes "IDLE";
  display_name = none;
  role = none;
  project_id = none;
  permanent = false;
}

abbrev renamed : AgentUpdates
renamed = record {
  id = some (codes "9");
  name = none;
  kind = none;
  status = some (codes "TESTING");
  display_name = none;
  role = none;
  project_id = none;
  permanent = none;
}

abbrev table : AgentState
table = record { agents = eng ∷ []; archived_agents = [] }

abbrev two_sessions : SessionState
two_sessions = record {
  sessions =
      record { id = codes "s"; name = []; status = []; supervisor_agent = [] }
      ∷ record { id = codes "t"; name = []; status = []; supervisor_agent = [] }
      ∷ [];
  selected_session_id = some (codes "s");
}
