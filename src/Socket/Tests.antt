-- ===== src/Socket/Tests.antt =====
-- The theorems on src/frontend/src/hooks/useWebSocket.ts at concrete histories.
use soren.Base.{
  ℕ, ◌^◌, ◌*◌, ◌≤◌, min, none, some, [], ◌∷◌, ◌≡◌, lookup, nat_Eq, codes, text_Eq, true, false,
  arith,
}
use soren.Chat.{Message, Page, Browser}
use soren.Stores.AgentEvents.{AgentEvent}
use soren.Stores.Thoughts.{Thought}
use soren.Socket.Messages.{Packet, Stores, on_message}
use soren.Socket.Messages.Laws.{IsValid, on_message-IsValid}
use soren.Socket.{
  initial, connect_called, socket_opened, socket_closed, timer_fired, run, on_close, on_timeout,
  disconnect, phase_of, connecting,
}
use soren.Socket.Reconnect.{run-attempts, close_schedules, disconnect_reconnects}

run-attempts_example :
    (run initial (
      connect_called
      ∷ socket_opened 0
      ∷ socket_closed 0
      ∷ timer_fired 1
      ∷ socket_closed 2
      ∷ [])).attempts
    ≡ 2
run-attempts_example =
    run-attempts initial
      (connect_called ∷ socket_opened 0 ∷ socket_closed 0 ∷ timer_fired 1 ∷ socket_closed 2 ∷ [])

close_schedules_example :
    (timer d : ℕ) × ((run initial (connect_called ∷ socket_closed 0 ∷ [])).timeout_ref ≡ some timer)
    × (lookup timer (run initial (connect_called ∷ socket_closed 0 ∷ [])).timers ≡ some d)
    × (d ≡ min (1000 * 2 ^ 1) 30000)
    × (2000 ≤ d)
    × (phase_of
          (run initial (connect_called ∷ socket_closed 0 ∷ timer_fired timer ∷ [])).current
          (run initial (connect_called ∷ socket_closed 0 ∷ timer_fired timer ∷ [])).sockets
        ≡ some connecting)
close_schedules_example = close_schedules (connect_called ∷ []) 0

disconnect_reconnects_example :
    (lookup 0 (on_close 0 (disconnect initial)).timers ≡ some 2000)
    × ((on_timeout 0 (on_close 0 (disconnect initial))).current ≡ some 1)
disconnect_reconnects_example = disconnect_reconnects initial 0

abbrev browser : Browser
browser = record { enabled = true; supported = true; granted = true; hidden = true }

abbrev event : AgentEvent
event = record {
  id = [];
  event_type = [];
  session_id = [];
  agent_id = none;
  tool_name = none;
  tool_input = [];
  tool_output = [];
  timestamp = [];
}

abbrev thought : Thought
thought = record {
  id = [];
  agent_name = [];
  thought_type = [];
  content = none;
  tool_name = none;
  tool_input = none;
  tool_response = none;
  timestamp = [];
}

abbrev done : Message
done = record {
  id = codes "7";
  timestamp = codes "t";
  from_agent = codes "eng-1";
  to_agent = codes "user";
  kind = codes "mailbox";
  content = codes "[DONE]";
}

abbrev packet : Packet
packet = record {
  event = codes "new_message";
  id = [];
  timestamp = codes "t";
  payload = record {
    id = codes "7";
    timestamp = codes "t";
    event_type = [];
    session_id = [];
    agent_id = [];
    from_agent = codes "eng-1";
    kind = codes "mailbox";
    status = [];
    session = record { id = []; name = []; status = []; supervisor_agent = [] };
    archived = record {
      id = [];
      agent_id = [];
      agent_name = [];
      agent_type = [];
      archived_at = [];
    };
    all_clear = false;
    highest_priority = [];
    keys = [];
    as_event = event;
    as_thought = thought;
    as_message = done;
    as_text = [];
  };
}

abbrev page : Page
page = record { messages = []; total = 4 }

abbrev stores : Stores
stores = record {
  activities = [];
  agent_events = record { events_by_session = []; latest_event_by_session = [] };
  thoughts = [];
  sessions = record { sessions = []; selected_session_id = none };
  agents = record { agents = []; archived_agents = [] };
  latest_heartbeat = none;
  pages = some (page ∷ []);
  invalidated = [];
  notifications = [];
  pongs_asked = [];
}

on_message-IsValid_example :
    IsValid (on_message browser (codes "r") (codes "t") (λ s. some packet) (codes "{…}") stores)
on_message-IsValid_example =
    on_message-IsValid browser (codes "r") (codes "t") (λ s. some packet) (codes "{…}") stores
      (record {
        activities_ok = record { ids = tt; prints = tt; bounded = omega arith };
        agent_events_ok = λ session. tt;
        thoughts_ok = record { ids = tt; bounded = omega arith };
        archive_ok = tt;
        pages_ok = tt;
      })
