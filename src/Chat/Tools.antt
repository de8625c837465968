-- ===== src/Chat/Tools.antt =====
-- The tool calls under each message in src/frontend/src/hooks/useMessageFeed.ts: those that the server
-- has linked to it, and live ones under the last message of an agent. Times, lower case and the
-- payload of a call are arguments.
pub mod Counting
pub mod Linking
use soren.Base.{
  ℕ, Bool, true, false, not, ◌&&◌, ◌||◌, some, List, [], ◌∷◌, ◌++◌, map, reverse, Text, codes, ◌≡◌,
  ◌⊎◌, refl, subst, subst, ap, inl, inr, ◌==◌, text_Eq, text_eq_iff, ltb, leb, if◌then◌else◌,
  or_else, filter, sort, lookup, put, lookup-put, All, arith, Bool-cases,
}
use soren.Chat.{Message}
use soren.Chat.Thoughts.{is_empty, is_user, agent_matches, is_relevant_agent}
use soren.Stores.Activities.{Activity}
use soren.Stores.AgentEvents.{AgentEvent}

abbrev pub no_calls : List Activity → Bool
no_calls [] = true
no_calls (a ∷ calls) = false

abbrev pub calls_of : Text → List (Text × List Activity) → List Activity
calls_of id found = or_else (lookup id found) []

-- The time of the message before, in a list whose last message is the first one
abbrev pub start_of : (Text → ℕ) → List Message → ℕ
start_of get_time [] = 0
start_of get_time (m ∷ ms) = get_time m.timestamp

module _ (get_time : Text → ℕ) (lower : Text → Text) (pack : AgentEvent → Text) where
  abbrev pub to_activity : AgentEvent → Activity
  to_activity e = record {
    id = e.id;
    timestamp = e.timestamp;
    kind = codes "tool_call";
    agent_id = or_else e.agent_id [];
    payload = pack e;
  }

  -- The persisted events
  unfoldable pub put_persisted :
      List (Text × List AgentEvent) → List (Text × List Activity) → List (Text × List Activity)
  put_persisted [] found = found
  put_persisted ((id, []) ∷ events) found = put_persisted events found
  put_persisted ((id, e ∷ es) ∷ events) found =
      put_persisted events (put id (map to_activity (e ∷ es)) found)

  -- `liveToolCalls`
  abbrev pub live_tool_calls : List Message → List Activity → List Activity
  live_tool_calls ms activities =
      sort (λ a b. ltb (get_time b.timestamp) (get_time a.timestamp))
        (filter (λ a. a.kind == codes "tool_call" && is_relevant_agent get_time lower ms a.agent_id)
          activities)

  -- `relevant`, for a message whose predecessor's time is `start`
  abbrev pub relevant : ℕ → Message → List Activity → List Activity
  relevant start m calls =
      filter
        (λ c.
          ltb start (get_time c.timestamp)
          && leb (get_time c.timestamp) (get_time m.timestamp)
          && (if not (is_empty m.from_agent) && not (m.from_agent == codes "user")
              then agent_matches get_time lower m.from_agent c.agent_id
              else true))
        calls

  -- The loop from the last message back: it ends at the first message of an agent.
  unfoldable pub add_live :
      List Activity → List Message → List (Text × List Activity) → List (Text × List Activity)
  add_live calls [] found = found
  add_live calls (m ∷ ms) found =
      let rest = add_live calls ms found in
      if is_user m
      then rest
      else if not (no_calls (calls_of m.id found))
          || no_calls (relevant (start_of get_time ms) m calls)
      then found
      else put m.id (relevant (start_of get_time ms) m calls) found

  -- `useToolCorrelation`
  unfoldable pub tool_calls_by_message :
      List Message → List (Text × List AgentEvent) → List Activity → List (Text × List Activity)
  unfolding add_live put_persisted
  tool_calls_by_message ms persisted activities =
      add_live (live_tool_calls ms activities) (reverse ms) (put_persisted persisted [])
