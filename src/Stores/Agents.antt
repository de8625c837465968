-- ===== src/Stores/Agents.antt =====
-- src/frontend/src/stores/agentStore.ts and sessionStore.ts: tables that snapshots fill and that
-- events of the socket change entry by entry.
use soren.Base.{
  Bool, true, false, not, Option, none, some, List, [], ◌∷◌, ◌++◌, map, Text, ◌≡◌, refl, ap₂, ◌==◌,
  text_Eq, if◌then◌else◌, or_else, any, filter, has, arith, Bool-cases, inl, inr, ◌⊎◌,
}

-- src/frontend/src/types/agent.ts
pub record Agent : Type 0 where
  pub id : Text
  pub name : Text
  pub kind : Text
  pub status : Text
  pub display_name : Option Text
  pub role : Option Text
  pub project_id : Option Text
  pub permanent : Bool

-- `Partial<Agent>`, for the same fields
pub record AgentUpdates : Type 0 where
  pub id : Option Text
  pub name : Option Text
  pub kind : Option Text
  pub status : Option Text
  pub display_name : Option Text
  pub role : Option Text
  pub project_id : Option Text
  pub permanent : Option Bool

pub record ArchivedAgentSummary : Type 0 where
  pub id : Text
  pub agent_id : Text
  pub agent_name : Text
  pub agent_type : Text
  pub archived_at : Text

pub record AgentState : Type 0 where
  pub agents : List Agent
  pub archived_agents : List ArchivedAgentSummary

-- A field that `updates` sets; an optional field stays where it does not.
abbrev or_keep : Option Text → Option Text → Option Text
or_keep none old = old
or_keep (some new) old = some new

-- `{ ...a, ...updates }`
unfoldable pub merge_agent : AgentUpdates → Agent → Agent
merge_agent u a = record {
  id = or_else u.id a.id;
  name = or_else u.name a.name;
  kind = or_else u.kind a.kind;
  status = or_else u.status a.status;
  display_name = or_keep u.display_name a.display_name;
  role = or_keep u.role a.role;
  project_id = or_keep u.project_id a.project_id;
  permanent = or_else u.permanent a.permanent;
}

unfoldable pub update_one : Text → AgentUpdates → Agent → Agent
update_one agent_id u a = if a.id == agent_id then merge_agent u a else a

-- `updateAgent`
unfoldable pub update_agent : Text → AgentUpdates → AgentState → AgentState
update_agent agent_id u s = record s { agents = map (update_one agent_id u) s.agents }

-- `setAgents`, `setArchivedAgents`
unfoldable pub set_agents : List Agent → AgentState → AgentState
set_agents agents s = record s { agents = agents }

unfoldable pub set_archived_agents : List ArchivedAgentSummary → AgentState → AgentState
set_archived_agents archived s = record s { archived_agents = archived }

-- `addArchivedAgent`
unfoldable pub add_archived_agent : ArchivedAgentSummary → AgentState → AgentState
add_archived_agent agent s = record s {
  archived_agents =
      if any (λ a. a.id == agent.id) s.archived_agents
      then s.archived_agents
      else agent ∷ s.archived_agents;
}

or_else_twice {ℓ} : {A : Type ℓ} (o : Option A) (a : A) → or_else o (or_else o a) ≡ or_else o a
or_else_twice none a = refl
or_else_twice (some x) a = refl

or_keep_twice : (o p : Option Text) → or_keep o (or_keep o p) ≡ or_keep o p
or_keep_twice none p = refl
or_keep_twice (some x) p = refl

merge_agent_twice :
    (u : AgentUpdates) (a : Agent) → merge_agent u (merge_agent u a) ≡ merge_agent u a
unfolding merge_agent
merge_agent_twice u a = simp (or_else_twice, or_keep_twice)

update_one_twice :
    (agent_id : Text) (u : AgentUpdates) (a : Agent)
    → update_one agent_id u (update_one agent_id u a) ≡ update_one agent_id u a
unfolding update_one
update_one_twice agent_id u a = elim (Bool-cases (a.id == agent_id)) [
  | inr e ↦ rw (e, e) refl
  | inl e ↦ elim (Bool-cases ((merge_agent u a).id == agent_id)) [
    | inl f ↦ rw (e, f) (merge_agent_twice u a)
    | inr f ↦ rw (e, f) refl
  ]
]

map_twice :
    (f : Agent → Agent) (xs : List Agent)
    → ((a : Agent) → f (f a) ≡ f a)
    → map f (map f xs) ≡ map f xs
map_twice f [] h = refl
map_twice f (x ∷ xs) h = ap₂ ◌∷◌ (h x) (map_twice f xs h)

map_unknown :
    (agent_id : Text) (u : AgentUpdates) (xs : List Agent)
    → has agent_id (map (λ a. a.id) xs) ≡ false
    → map (update_one agent_id u) xs ≡ xs
unfolding update_one
map_unknown agent_id u [] h = refl
map_unknown agent_id u (x ∷ xs) h = ground (arith, map_unknown agent_id u xs)

-- Delivering an update twice is delivering it once, whatever fields it sets, the id included; and
-- an update of an agent that is not in the table changes nothing.
pub update_agent_lem :
    (agent_id : Text) (u : AgentUpdates) (s : AgentState)
    → (update_agent agent_id u (update_agent agent_id u s) ≡ update_agent agent_id u s)
      × ((has agent_id (map (λ a. a.id) s.agents) ≡ true) ⊎ (update_agent agent_id u s ≡ s))
unfolding update_agent
update_agent_lem agent_id u s = (
  rw (map_twice (update_one agent_id u) s.agents (update_one_twice agent_id u)) refl,
  elim (Bool-cases (has agent_id (map (λ a. a.id) s.agents))) [
    | inl e ↦ inl e
    | inr e ↦ inr (rw (map_unknown agent_id u s.agents e) refl)
  ],
)

-- src/frontend/src/types/session.ts
pub record Session : Type 0 where
  pub id : Text
  pub name : Text
  pub status : Text
  pub supervisor_agent : Text

pub record SessionState : Type 0 where
  pub sessions : List Session
  pub selected_session_id : Option Text

-- `updateSession` with a new status, the only update that the client makes
unfoldable pub update_session : Text → Text → SessionState → SessionState
update_session id status s = record s {
  sessions = map (λ x. if x.id == id then record x { status = status } else x) s.sessions;
}

-- `addSession`
unfoldable pub add_session : Session → SessionState → SessionState
add_session session s = record s { sessions = s.sessions ++ session ∷ [] }

abbrev pub is_selected : Option Text → Text → Bool
is_selected none id = false
is_selected (some k) id = k == id

-- `removeSession`
unfoldable pub remove_session : Text → SessionState → SessionState
remove_session id s = record {
  sessions = filter (λ x. not (x.id == id)) s.sessions;
  selected_session_id =
      if is_selected s.selected_session_id id then none else s.selected_session_id;
}

-- `selectSession`
unfoldable pub select_session : Option Text → SessionState → SessionState
select_session id s = record s { selected_session_id = id }

removed :
    (id : Text) (xs : List Session)
    → has id (map (λ x. x.id) (filter (λ x. not (x.id == id)) xs)) ≡ false
removed id [] = refl
removed id (x ∷ xs) = ground (arith, removed id xs)

-- A session that is removed is neither listed nor selected afterwards, however often it was
-- listed.
pub remove_session_lem :
    (id : Text) (s : SessionState)
    → (has id (map (λ x. x.id) (remove_session id s).sessions) ≡ false)
      × (is_selected (remove_session id s).selected_session_id id ≡ false)
unfolding remove_session
remove_session_lem id s = (removed id s.sessions, ground arith)
