-- ===== src/Socket/Messages.antt =====
-- `ws.onmessage` of src/frontend/src/hooks/useWebSocket.ts: what a packet from the server changes
-- in the stores, the cached pages and the queries. A packet is one that the server sends, with the
-- fields that its event has; other fields and missing texts are read as empty. The random id and
-- the time that a packet without one is given are arguments.
pub mod Pages
pub mod Laws
use soren.Base.{
  ℕ, Bool, true, false, not, ◌&&◌, ◌||◌, Option, none, some, List, [], ◌∷◌, ◌++◌, map, Text, codes,
  ◌==◌, text_Eq, if◌then◌else◌, or_else, has,
}
use soren.Chat.{Message, Page, insert_message, Browser, Notification, maybe_notify}
use soren.Stores.Activities.{Activity, add_activity}
use soren.Stores.AgentEvents.{AgentEvent, AgentEventState, add_event}
use soren.Stores.Thoughts.{Thought, add_thought}
use soren.Stores.Agents.{
  AgentState, ArchivedAgentSummary, add_archived_agent, Session, SessionState, add_session,
  remove_session, update_session,
}

-- `data.data`
pub record Payload : Type 0 where
  pub id : Text
  pub timestamp : Text
  pub event_type : Text
  pub session_id : Text
  pub agent_id : Text
  pub from_agent : Text
  pub kind : Text
  pub status : Text
  pub session : Session
  pub archived : ArchivedAgentSummary
  pub all_clear : Bool
  pub highest_priority : Text
  pub keys : List Text
  -- the payload as an event, a thought, a message and a text
  pub as_event : AgentEvent
  pub as_thought : Thought
  pub as_message : Message
  pub as_text : Text

-- A packet that `JSON.parse` accepts.
pub record Packet : Type 0 where
  pub event : Text
  pub id : Text
  pub timestamp : Text
  pub payload : Payload

pub record Stores : Type 0 where
  pub activities : List Activity
  pub agent_events : AgentEventState
  pub thoughts : List Thought
  pub sessions : SessionState
  pub agents : AgentState
  pub latest_heartbeat : Option Payload
  pub pages : Option (List Page)
  -- the query keys that were invalidated, oldest first
  pub invalidated : List (List Text)
  pub notifications : List Notification
  pub pongs_asked : List Text

abbrev pub is_empty : Text → Bool
is_empty [] = true
is_empty (c ∷ s) = false

-- `a || b` on texts
abbrev pub or_text : Text → Text → Text
or_text a b = if is_empty a then b else a

abbrev pub invalidate : List (List Text) → Stores → Stores
invalidate queries s = record s { invalidated = s.invalidated ++ queries }

abbrev pub query : List Text → List (List Text)
query names = names ∷ []

-- `mapEventToActivityType`
unfoldable pub map_event_to_activity_type : Text → Text → Text
map_event_to_activity_type event kind =
    if has event (codes "webhook_received" ∷ codes "message_sent" ∷ codes "user_message" ∷ [])
    then event
    else if event == codes "new_message"
    then (if kind == codes "mailbox" then codes "mailbox_message" else codes "message_received")
    else if event == codes "status_change"
    then codes "status_change"
    else if event == codes "agent_event"
    then codes "tool_call"
    else if event == codes "heartbeat_update"
    then codes "heartbeat"
    else if has event
        (codes "session_created" ∷ codes "session_terminated" ∷ codes "session_status_changed" ∷ [])
    then codes "status_change"
    else codes "tool_call"

abbrev pub handled_events : List Text
handled_events =
    codes "agent_event"
    ∷ codes "agent_thought"
    ∷ codes "session_created"
    ∷ codes "session_terminated"
    ∷ codes "session_status_changed"
    ∷ codes "agent_archived"
    ∷ codes "data_changed"
    ∷ []

abbrev pub broad_queries : List (List Text)
broad_queries =
    (codes "agents" ∷ [])
    ∷ (codes "messages" ∷ [])
    ∷ (codes "tasks-tree" ∷ [])
    ∷ (codes "filesystem" ∷ [])
    ∷ []

abbrev pub changed_queries : List Text → List (List Text)
changed_queries [] = broad_queries
changed_queries (key ∷ keys) = map (λ k. k ∷ []) (key ∷ keys)

abbrev pub is_routine : Payload → Bool
is_routine d = d.all_clear && is_empty d.highest_priority

module _ (browser : Browser) (random_id now : Text) where
  -- The branch for `agent_event`.
  unfoldable pub on_agent_event : Packet → Stores → Stores
  on_agent_event p s =
      let event = record p.payload.as_event {
        id = or_text p.payload.id random_id;
        event_type = p.payload.event_type;
        session_id = p.payload.session_id;
        timestamp = or_text p.payload.timestamp p.timestamp;
      } in
      let added = record s { agent_events = add_event event s.agent_events } in
      let shown =
        if is_empty p.payload.agent_id
        then added
        else invalidate (query (codes "agent-terminal" ∷ p.payload.agent_id ∷ [])) added in
      if p.payload.event_type == codes "Stop"
      then invalidate ((codes "budget" ∷ []) ∷ (codes "agents" ∷ []) ∷ []) shown
      else shown

  -- The branch for `agent_thought`.
  unfoldable pub on_agent_thought : Packet → Stores → Stores
  on_agent_thought p s = record s {
    thoughts =
        add_thought
          (record p.payload.as_thought {
            id = or_text p.payload.id random_id;
            timestamp = or_text p.payload.timestamp p.timestamp;
          })
          s.thoughts;
  }

  -- The branch for `new_message` and `user_message`.
  unfoldable pub on_new_message : Packet → Stores → Stores
  on_new_message p s = invalidate (query (codes "mailboxMessages" ∷ [])) (record s {
    pages = insert_message p.payload.as_message s.pages;
    notifications = s.notifications ++ maybe_notify browser p.payload.as_message;
  })

  -- The branches for sessions, for an archived agent and for changed data.
  unfoldable pub on_session_created : Packet → Stores → Stores
  on_session_created p s =
      invalidate (query (codes "sessions" ∷ []))
        (record s { sessions = add_session p.payload.session s.sessions })

  unfoldable pub on_session_terminated : Packet → Stores → Stores
  on_session_terminated p s =
      invalidate (query (codes "sessions" ∷ []))
        (record s { sessions = remove_session p.payload.session_id s.sessions })

  unfoldable pub on_session_status_changed : Packet → Stores → Stores
  on_session_status_changed p s =
      invalidate (query (codes "sessions" ∷ []))
        (record s { sessions = update_session p.payload.session_id p.payload.status s.sessions })

  unfoldable pub on_agent_archived : Packet → Stores → Stores
  on_agent_archived p s =
      invalidate (query (codes "agents" ∷ []))
        (record s { agents = add_archived_agent p.payload.archived s.agents })

  unfoldable pub on_data_changed : Packet → Stores → Stores
  on_data_changed p s = invalidate (changed_queries p.payload.keys) s

  -- The activity of an event without a handler of its own.
  unfoldable pub activity_of : Packet → Activity
  unfolding map_event_to_activity_type
  activity_of p = record {
    id = or_text p.payload.id (or_text p.id random_id);
    timestamp = or_text p.timestamp now;
    kind = map_event_to_activity_type p.event p.payload.kind;
    agent_id =
        or_text p.payload.agent_id
          (or_text p.payload.session_id (or_text p.payload.from_agent (codes "system")));
    payload = p.payload.as_text;
  }

  -- The end of the handler: the activity feed.
  unfoldable pub on_activity : Packet → Stores → Stores
  unfolding activity_of
  on_activity p s =
      if has p.event handled_events
      then s
      else record s { activities = add_activity (activity_of p) s.activities }

  -- The handler. The tests of the event exclude one another, so they are a chain.
  unfoldable pub on_packet : Packet → Stores → Stores
  on_packet p s =
      if p.event == codes "ping"
      then record s { pongs_asked = s.pongs_asked ++ codes "pong" ∷ [] }
      else if p.event == codes "agent_event"
      then on_activity p (on_agent_event p s)
      else if p.event == codes "agent_thought"
      then on_activity p (on_agent_thought p s)
      else if p.event == codes "heartbeat_update"
      then (let beat = record s { latest_heartbeat = some p.payload } in
          if is_routine p.payload then beat else on_activity p beat)
      else if p.event == codes "new_message" || p.event == codes "user_message"
      then on_activity p (on_new_message p s)
      else if p.event == codes "session_created"
      then on_activity p (on_session_created p s)
      else if p.event == codes "session_terminated"
      then on_activity p (on_session_terminated p s)
      else if p.event == codes "session_status_changed"
      then on_activity p (on_session_status_changed p s)
      else if p.event == codes "agent_archived"
      then on_activity p (on_agent_archived p s)
      else if p.event == codes "data_changed"
      then on_activity p (on_data_changed p s)
      else on_activity p s

  -- `ws.onmessage`: text that is not JSON is logged and dropped.
  unfoldable pub on_message : (Text → Option Packet) → Text → Stores → Stores
  unfolding on_packet
  on_message parse text s = elim (parse text) [ none ↦ s | some p ↦ on_packet p s ]
