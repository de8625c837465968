-- ===== src/Socket/Messages/Laws.antt =====
-- What every packet keeps: the invariants of all stores at once, each message once, and the
-- activity feed for the events that are meant for it.
use soren.Base.{
  Bool, true, false, ◌||◌, Option, some, List, [], ◌∷◌, map, Text, codes, ◌≡◌, refl, inl, inr, ◌==◌,
  text_Eq, if◌then◌else◌, any, has, Distinct, arith, Bool-cases, Option-cases,
}
use soren.Chat.{Browser}
use soren.Stores.Activities.Duplicates.{activities-IsValid}
use soren.Stores.Activities.{Activity, add_activity, add_one}
use soren.Stores.Activities
use soren.Stores.AgentEvents.{AgentEvent, add_event, agent_events-IsValid, add}
use soren.Stores.AgentEvents
use soren.Stores.Thoughts.{Thought, add_thought, add_thought-IsValid}
use soren.Stores.Thoughts
use soren.Stores.Agents.{ArchivedAgentSummary, AgentState, add_archived_agent}
use soren.Socket.Messages.{
  Packet, Stores, is_routine, handled_events, activity_of, on_packet, on_message, on_activity,
  on_agent_event, on_agent_thought, on_new_message, on_session_created, on_session_terminated,
  on_session_status_changed, on_agent_archived, on_data_changed, or_text, is_empty, invalidate,
}
use soren.Socket.Messages.Pages.{PagesOk, insert_message-PagesOk}

abbrev pub archive_ids : AgentState → List Text
archive_ids s = map (λ a. a.id) s.archived_agents

pub record IsValid (s : Stores) : Type 0 where
  pub activities_ok : Activities.IsValid s.activities
  pub agent_events_ok : AgentEvents.IsValid s.agent_events
  pub thoughts_ok : Thoughts.IsValid s.thoughts
  pub archive_ok : Distinct (archive_ids s.agents)
  pub pages_ok : PagesOk s.pages

any_archived :
    (k : Text) (xs : List ArchivedAgentSummary)
    → any (λ a. a.id == k) xs ≡ has k (map (λ a. a.id) xs)
any_archived k [] = refl
any_archived k (a ∷ xs) = ground (arith, any_archived k xs)

add_archived_agent-Distinct :
    (a : ArchivedAgentSummary) (s : AgentState)
    → Distinct (archive_ids s)
    → Distinct (archive_ids (add_archived_agent a s))
unfolding add_archived_agent
add_archived_agent-Distinct a s h = elim (Bool-cases (any (λ x. x.id == a.id) s.archived_agents)) [
  | inl e ↦ rw e h
  | inr e ↦ rw e (rw (any_archived a.id) at e, h)
]

if-IsValid : (b : Bool) (x y : Stores) → IsValid x → IsValid y → IsValid (if b then x else y)
if-IsValid true x y v w = v
if-IsValid false x y v w = w

invalidate-IsValid :
    (queries : List (List Text)) (s : Stores) → IsValid s → IsValid (invalidate queries s)
invalidate-IsValid queries s v = record {
  activities_ok = v.activities_ok;
  agent_events_ok = v.agent_events_ok;
  thoughts_ok = v.thoughts_ok;
  archive_ok = v.archive_ok;
  pages_ok = v.pages_ok;
}

module _ (browser : Browser) (random_id now : Text) where
  on_activity-IsValid :
      (p : Packet) (s : Stores) → IsValid s → IsValid (on_activity browser random_id now p s)
  unfolding on_activity
  on_activity-IsValid p s v = elim (Bool-cases (has p.event handled_events)) [
    | inl e ↦ rw e v
    | inr e ↦ rw e (record {
      activities_ok =
          unfold Activities.step in
          (activities-IsValid (λ t. 0) s.activities (add_one (activity_of browser random_id now p))
            v.activities_ok);
      agent_events_ok = v.agent_events_ok;
      thoughts_ok = v.thoughts_ok;
      archive_ok = v.archive_ok;
      pages_ok = v.pages_ok;
    })
  ]

  on_agent_event-IsValid :
      (p : Packet) (s : Stores) → IsValid s → IsValid (on_agent_event browser random_id now p s)
  unfolding on_agent_event AgentEvents.step
  on_agent_event-IsValid p s v =
      let added : IsValid (record s {
        agent_events =
            add_event
              (record p.payload.as_event {
                id = or_text p.payload.id random_id;
                event_type = p.payload.event_type;
                session_id = p.payload.session_id;
                timestamp = or_text p.payload.timestamp p.timestamp;
              })
              s.agent_events;
      }) =
        record {
          activities_ok = v.activities_ok;
          agent_events_ok =
              agent_events-IsValid s.agent_events
                (add (record p.payload.as_event {
                  id = or_text p.payload.id random_id;
                  event_type = p.payload.event_type;
                  session_id = p.payload.session_id;
                  timestamp = or_text p.payload.timestamp p.timestamp;
                }))
                v.agent_events_ok;
          thoughts_ok = v.thoughts_ok;
          archive_ok = v.archive_ok;
          pages_ok = v.pages_ok;
        } in
      let shown =
        if-IsValid (is_empty p.payload.agent_id) _ _ added (invalidate-IsValid _ _ added) in
      if-IsValid (p.payload.event_type == codes "Stop") _ _ (invalidate-IsValid _ _ shown) shown

  on_agent_thought-IsValid :
      (p : Packet) (s : Stores) → IsValid s → IsValid (on_agent_thought browser random_id now p s)
  unfolding on_agent_thought
  on_agent_thought-IsValid p s v = record {
    activities_ok = v.activities_ok;
    agent_events_ok = v.agent_events_ok;
    thoughts_ok = add_thought-IsValid _ s.thoughts v.thoughts_ok;
    archive_ok = v.archive_ok;
    pages_ok = v.pages_ok;
  }

  on_new_message-IsValid :
      (p : Packet) (s : Stores) → IsValid s → IsValid (on_new_message browser random_id now p s)
  unfolding on_new_message
  on_new_message-IsValid p s v = record {
    activities_ok = v.activities_ok;
    agent_events_ok = v.agent_events_ok;
    thoughts_ok = v.thoughts_ok;
    archive_ok = v.archive_ok;
    pages_ok = insert_message-PagesOk p.payload.as_message s.pages v.pages_ok;
  }

  on_agent_archived-IsValid :
      (p : Packet) (s : Stores) → IsValid s → IsValid (on_agent_archived browser random_id now p s)
  unfolding on_agent_archived
  on_agent_archived-IsValid p s v = record {
    activities_ok = v.activities_ok;
    agent_events_ok = v.agent_events_ok;
    thoughts_ok = v.thoughts_ok;
    archive_ok = add_archived_agent-Distinct p.payload.archived s.agents v.archive_ok;
    pages_ok = v.pages_ok;
  }

  -- A change of the other parts of the stores keeps the invariant.
  same-IsValid :
      (s t : Stores)
      → IsValid s
      → t.activities ≡ s.activities
      → t.agent_events ≡ s.agent_events
      → t.thoughts ≡ s.thoughts
      → t.agents ≡ s.agents
      → t.pages ≡ s.pages
      → IsValid t
  same-IsValid s t v a e th ag pg = record {
    activities_ok = rw a v.activities_ok;
    agent_events_ok = rw e v.agent_events_ok;
    thoughts_ok = rw th v.thoughts_ok;
    archive_ok = rw ag v.archive_ok;
    pages_ok = rw pg v.pages_ok;
  }

  on_heartbeat-IsValid :
      (p : Packet) (s : Stores)
      → IsValid s
      → IsValid (
          let beat = record s { latest_heartbeat = some p.payload } in
          if is_routine p.payload then beat else on_activity browser random_id now p beat)
  on_heartbeat-IsValid p s v =
      let beat : IsValid (record s { latest_heartbeat = some p.payload }) =
        same-IsValid s _ v refl refl refl refl refl in
      if-IsValid (is_routine p.payload) _ _ beat (on_activity-IsValid p _ beat)

  on_packet-IsValid :
      (p : Packet) (s : Stores) → IsValid s → IsValid (on_packet browser random_id now p s)
  unfolding on_packet on_session_created on_session_terminated on_session_status_changed
      on_data_changed
  on_packet-IsValid p s v = (elim (Bool-cases (p.event == codes "ping")) [
    | inl e ↦ rw e (same-IsValid s _ v refl refl refl refl refl)
    | inr e ↦ rw e (elim (Bool-cases (p.event == codes "agent_event")) [
      | inl e ↦ rw e (on_activity-IsValid p _ (on_agent_event-IsValid p s v))
      | inr e ↦ rw e (elim (Bool-cases (p.event == codes "agent_thought")) [
        | inl e ↦ rw e (on_activity-IsValid p _ (on_agent_thought-IsValid p s v))
        | inr e ↦ rw e (elim (Bool-cases (p.event == codes "heartbeat_update")) [
          | inl e ↦ rw e (on_heartbeat-IsValid p s v)
          | inr e ↦
              rw e
                (elim (Bool-cases
                  (p.event == codes "new_message" || p.event == codes "user_message")) [
                    | inl e ↦ rw e (on_activity-IsValid p _ (on_new_message-IsValid p s v))
                    | inr e ↦ rw e (elim (Bool-cases (p.event == codes "session_created")) [
                      | inl e ↦
                          rw e
                            (on_activity-IsValid p _ (same-IsValid s _ v refl refl refl refl refl))
                      | inr e ↦ rw e (elim (Bool-cases (p.event == codes "session_terminated")) [
                        | inl e ↦
                            rw e (
                              on_activity-IsValid p _ (same-IsValid s _ v refl refl refl refl refl))
                        | inr e ↦
                            rw e (elim (Bool-cases (p.event == codes "session_status_changed")) [
                              | inl e ↦ rw e (
                                  on_activity-IsValid p _
                                    (same-IsValid s _ v refl refl refl refl refl))
                              | inr e ↦
                                  rw e (elim (Bool-cases (p.event == codes "agent_archived")) [
                                    | inl e ↦
                                        rw e (
                                          on_activity-IsValid p _ (on_agent_archived-IsValid p s v))
                                    | inr e ↦
                                        rw e (elim (Bool-cases (p.event == codes "data_changed")) [
                                          | inl e ↦ rw e (
                                              on_activity-IsValid p _
                                                (same-IsValid s _ v refl refl refl refl refl))
                                          | inr e ↦ rw e (on_activity-IsValid p s v)
                                        ])
                                  ])
                            ])
                      ])
                    ])
                  ])
        ])
      ])
    ])
  ])

  -- Whatever text the server sends, packet or not, stores that meet all their invariants keep
  -- them: no activity, thought, archived agent or message of the first page is there twice, the
  -- feeds keep their bounds, and the tables of events agree.
  pub on_message-IsValid :
      (parse : Text → Option Packet) (text : Text) (s : Stores)
      → IsValid s
      → IsValid (on_message browser random_id now parse text s)
  unfolding on_message
  on_message-IsValid parse text s v = elim (Option-cases (parse text)) [
    | inl e ↦ rw (e, on_message) v
    | inr (p, e) ↦ rw (e, on_message) (on_packet-IsValid p s v)
  ]
