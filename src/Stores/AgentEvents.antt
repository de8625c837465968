-- ===== src/Stores/AgentEvents.antt =====
-- src/frontend/src/stores/agentEventStore.ts: the events of each session, newest first, and the
-- latest of each. `new Date(t).getTime()` and the current time are arguments.
use soren.Base.{
  ℕ, ◌+◌, ◌≤◌, Bool, false, ◌&&◌, Option, none, some, List, [], ◌∷◌, Text, codes, ◌≡◌, refl, ◌==◌,
  text_Eq, text_eq_iff, ltb, if◌then◌else◌, or_else, length, take, filter, lookup, put, erase, keys,
  lookup-put, lookup-erase, arith, Bool-cases, length-take, subst, inl, inr, All, All-take,
}

abbrev pub max_events_per_session : ℕ
max_events_per_session = 500

abbrev pub activity_timeout : ℕ
activity_timeout = 90000

-- Tool inputs and outputs play no part in the store, and stand as text.
pub record AgentEvent : Type 0 where
  pub id : Text
  pub event_type : Text
  pub session_id : Text
  pub agent_id : Option Text
  pub tool_name : Option Text
  pub tool_input : Text
  pub tool_output : Text
  pub timestamp : Text

pub record AgentEventState : Type 0 where
  pub events_by_session : List (Text × List AgentEvent)
  pub latest_event_by_session : List (Text × AgentEvent)

abbrev pub initial : AgentEventState
initial = record { events_by_session = []; latest_event_by_session = [] }

-- `addEvent`
unfoldable pub add_event : AgentEvent → AgentEventState → AgentEventState
add_event event s =
    let existing = or_else (lookup event.session_id s.events_by_session) [] in
    let updated = take max_events_per_session (event ∷ existing) in
    record {
      events_by_session = put event.session_id updated s.events_by_session;
      latest_event_by_session = put event.session_id event s.latest_event_by_session;
    }

-- `getEventsForSession`
unfoldable pub get_events_for_session : Text → AgentEventState → List AgentEvent
get_events_for_session session s = or_else (lookup session s.events_by_session) []

-- `getLatestEvent`
unfoldable pub get_latest_event : Text → AgentEventState → Option AgentEvent
get_latest_event session s = lookup session s.latest_event_by_session

-- `clearSession`
unfoldable pub clear_session : Text → AgentEventState → AgentEventState
clear_session session s = record {
  events_by_session = erase session s.events_by_session;
  latest_event_by_session = erase session s.latest_event_by_session;
}

-- `clearAll`
unfoldable pub clear_all : AgentEventState → AgentEventState
clear_all s = record { events_by_session = []; latest_event_by_session = [] }

module _ (get_time : Text → ℕ) (now : ℕ) where
  -- `now - eventTime < ACTIVITY_TIMEOUT`, on integers, and the type of the event
  abbrev pub is_working : Option AgentEvent → Bool
  is_working none = false
  is_working (some e) =
      ltb now (get_time e.timestamp + activity_timeout) && e.event_type == codes "PostToolUse"

  -- `isAgentActive`
  unfoldable pub is_agent_active : Text → AgentEventState → Bool
  is_agent_active session s = is_working (lookup session s.latest_event_by_session)

  -- `getActiveSessions`
  unfoldable pub get_active_sessions : AgentEventState → List Text
  get_active_sessions s =
      filter (λ session. is_agent_active session s) (keys s.latest_event_by_session)

pub data Action : Type 0 where
  add : AgentEvent → Action
  clear : Text → Action
  clear_everything : Action

unfoldable pub step : AgentEventState → Action → AgentEventState
step s (add event) = add_event event s
step s (clear session) = clear_session session s
step s clear_everything = clear_all s

-- A session has events exactly if it has a latest one, which is the first of them; they are its own
-- and at most 500.
abbrev pub Agrees : Text → Option (List AgentEvent) → Option AgentEvent → Type 0
Agrees session none none = Unit
Agrees session none (some e) = ⊥
Agrees session (some es) none = ⊥
Agrees session (some []) (some e) = ⊥
Agrees session (some (x ∷ es)) (some e) =
    (x ≡ e)
    × All (λ y. y.session_id ≡ session) (x ∷ es)
    × (length (x ∷ es) ≤ max_events_per_session)

abbrev pub IsValid : AgentEventState → Type 0
IsValid s =
    (session : Text)
    → Agrees session (lookup session s.events_by_session) (lookup session s.latest_event_by_session)

Agrees-own :
    (session : Text) (es : Option (List AgentEvent)) (l : Option AgentEvent)
    → Agrees session es l
    → All (λ y. y.session_id ≡ session) (or_else es [])
Agrees-own session none l h = tt
Agrees-own session (some []) l h = tt
Agrees-own session (some (x ∷ es)) none h = elim h [ ]
Agrees-own session (some (x ∷ es)) (some e) h = h.1

Agrees-add :
    (event : AgentEvent) (es : Option (List AgentEvent)) (l : Option AgentEvent)
    → Agrees event.session_id es l
    → Agrees event.session_id
        (some (take max_events_per_session (event ∷ or_else es [])))
        (some event)
Agrees-add event es l h = (
  refl,
  All-take (λ y. y.session_id ≡ event.session_id) max_events_per_session (event ∷ or_else es [])
      (refl, Agrees-own event.session_id es l h),
  omega (arith, length-take max_events_per_session (event ∷ or_else es [])),
)

add_event_own :
    (event : AgentEvent) (s : AgentEventState)
    → IsValid s
    → Agrees event.session_id
        (lookup event.session_id (add_event event s).events_by_session)
        (lookup event.session_id (add_event event s).latest_event_by_session)
unfolding add_event
add_event_own event s v =
    rw
      (
        lookup-put event.session_id event.session_id
            (take max_events_per_session
              (event ∷ or_else (lookup event.session_id s.events_by_session) []))
            s.events_by_session,
        lookup-put event.session_id event.session_id event s.latest_event_by_session,
        (text_eq_iff event.session_id event.session_id).1 refl,
      )
      (Agrees-add event _ _ (v event.session_id))

add_event-IsValid :
    (event : AgentEvent) (s : AgentEventState) → IsValid s → IsValid (add_event event s)
unfolding add_event
add_event-IsValid event s v session = elim (Bool-cases (event.session_id == session)) [
  | inl same ↦
      subst
        (λ x.
          Agrees x (lookup x (add_event event s).events_by_session)
            (lookup x (add_event event s).latest_event_by_session))
        ((text_eq_iff event.session_id session).0 same) (add_event_own event s v)
  | inr other ↦
      rw
        (
          lookup-put event.session_id session
              (take max_events_per_session
                (event ∷ or_else (lookup event.session_id s.events_by_session) []))
              s.events_by_session,
          lookup-put event.session_id session event s.latest_event_by_session,
          other,
        )
        (v session)
]

clear_session-IsValid :
    (gone : Text) (s : AgentEventState) → IsValid s → IsValid (clear_session gone s)
unfolding clear_session
clear_session-IsValid gone s v session = elim (Bool-cases (gone == session)) [
  | inl same ↦
      rw
        (
          lookup-erase gone session s.events_by_session,
          lookup-erase gone session s.latest_event_by_session,
          same,
        )
        tt
  | inr other ↦
      rw
        (
          lookup-erase gone session s.events_by_session,
          lookup-erase gone session s.latest_event_by_session,
          other,
        )
        (v session)
]

-- Every action keeps the two tables in step: a session has events exactly if it has a latest one,
-- that is the first of its events, all of them are its own, and there are at most 500.
pub agent_events-IsValid : (s : AgentEventState) (a : Action) → IsValid s → IsValid (step s a)
unfolding step
agent_events-IsValid s (add event) v = add_event-IsValid event s v
agent_events-IsValid s (clear session) v = clear_session-IsValid session s v
agent_events-IsValid s clear_everything v = unfold clear_all in (λ session. tt)

-- An event makes its session active exactly if it is a tool use less than 90 seconds old, whatever
-- came before, and changes no other session's activity.
pub add_event-active :
    (get_time : Text → ℕ) (now : ℕ) (event : AgentEvent) (s : AgentEventState) (session : Text)
    → is_agent_active get_time now session (add_event event s) ≡ (
        if event.session_id == session
        then is_working get_time now (some event)
        else is_agent_active get_time now session s)
unfolding is_agent_active add_event
add_event-active get_time now event s session =
    rw (lookup-put event.session_id session event s.latest_event_by_session) (ground arith)
