-- ===== src/Chat/Tools/Linking.antt =====
-- Which tool calls src/frontend/src/hooks/useMessageFeed.ts shows under a message.
use soren.Base.{
  ℕ, Bool, true, false, not, ◌&&◌, ◌||◌, none, List, [], ◌∷◌, ◌++◌, map, reverse, Text, codes, ◌≡◌,
  ◌⊎◌, refl, sym, subst, ap, ◌∙◌, inl, inr, ◌==◌, text_Eq, text_eq_iff, ltb, leb, if◌then◌else◌,
  or_else, filter, lookup, keys, has, Distinct, put, lookup-put, All, All-append, arith, Bool-cases,
  includes, has_of_lookup,
}
use mathlib.Core.List.{reverse-append}
use soren.Chat.{Message}
use soren.Chat.Thoughts.{is_empty, is_user, agent_matches, is_relevant_agent}
use soren.Chat.Tools.{
  no_calls, calls_of, start_of, to_activity, put_persisted, live_tool_calls, relevant, add_live,
  tool_calls_by_message,
}
use soren.Stores.Activities.{Activity}
use soren.Stores.AgentEvents.{AgentEvent}
use soren.Chat.Tools.Counting.{
  count, count-filter, count-sort, count_same, count-if, empty_or, reversed, added, any-append,
}

-- When the message before comes, whose time is 0 if there is none
abbrev pub StartsAt : (Text → ℕ) → List Message → ℕ → Type 0
StartsAt get_time earlier start =
    ((earlier ≡ []) × (start ≡ 0))
    ⊎ ((before : List Message) × (p : Message) × (earlier ≡ before ++ p ∷ [])
        × (start ≡ get_time p.timestamp))

start_of-reverse :
    (get_time : Text → ℕ) (earlier : List Message) (start : ℕ)
    → StartsAt get_time earlier start
    → start_of get_time (reverse earlier) ≡ start
start_of-reverse get_time earlier start (inl (e, f)) = rw (e, f) refl
start_of-reverse get_time earlier start (inr (before, p, e, f)) =
    rw (e, f, reverse-append before (p ∷ [])) refl

module _ (get_time : Text → ℕ) (lower : Text → Text) (pack : AgentEvent → Text) where
  -- A tool call of the agent `from`, by its name or a part of it, after `start` and not after `end`
  abbrev pub is_due : Text → ℕ → ℕ → Activity → Bool
  is_due from start end c =
      c.kind == codes "tool_call"
      && ltb start (get_time c.timestamp)
      && leb (get_time c.timestamp) end
      && (c.agent_id == from || includes (lower from) (lower c.agent_id))

  -- The calls of the events that the server has linked to a message
  abbrev pub linked : List (Text × List AgentEvent) → Text → List Activity
  linked persisted id = map (to_activity get_time lower pack) (or_else (lookup id persisted) [])

  add_live-users :
      (calls : List Activity) (us rest : List Message) (found : List (Text × List Activity))
      → All (λ u. is_user u ≡ true) us
      → add_live get_time lower pack calls (us ++ rest) found
        ≡ add_live get_time lower pack calls rest found
  unfolding add_live
  add_live-users calls [] rest found h = refl
  add_live-users calls (u ∷ us) rest found (h, k) = rw h (add_live-users calls us rest found k)

  module _ (m : Message) (earlier users : List Message) (agents : is_user m ≡ false)
      (named : is_empty m.from_agent ≡ false) where
    sender_lem : (m.from_agent == codes "user") ≡ false
    sender_lem = ground (arith, agents)

    relevant_agent :
        (name : Text)
        → agent_matches get_time lower m.from_agent name ≡ true
        → is_relevant_agent get_time lower (earlier ++ m ∷ users) name ≡ true
    relevant_agent name h = any-append _ earlier users m (ground (arith, named, sender_lem, h))

    abbrev is_live : Activity → Bool
    is_live c =
        c.kind == codes "tool_call"
        && is_relevant_agent get_time lower (earlier ++ m ∷ users) c.agent_id

    abbrev in_window : ℕ → Activity → Bool
    in_window start c =
        ltb start (get_time c.timestamp)
        && leb (get_time c.timestamp) (get_time m.timestamp)
        && (if not (is_empty m.from_agent) && not (m.from_agent == codes "user")
            then agent_matches get_time lower m.from_agent c.agent_id
            else true)

    due_lem :
        (start : ℕ) (q : Activity → Bool) (c : Activity)
        → (is_live c && (in_window start c && q c))
          ≡ (is_due m.from_agent start (get_time m.timestamp) c && q c)
    due_lem start q c = elim (Bool-cases (agent_matches get_time lower m.from_agent c.agent_id)) [
      | inl e ↦ rw (relevant_agent c.agent_id e) (ground (arith, e, named, sender_lem))
      | inr e ↦ ground (arith, e, named, sender_lem)
    ]

    count-relevant :
        (start : ℕ) (q : Activity → Bool) (activities : List Activity)
        → count q (
            relevant get_time lower pack start m
              (live_tool_calls get_time lower pack (earlier ++ m ∷ users) activities))
          ≡ count (λ c. is_due m.from_agent start (get_time m.timestamp) c && q c) activities
    count-relevant start q activities =
        count-filter (in_window start) q
          (live_tool_calls get_time lower pack (earlier ++ m ∷ users) activities)
        ∙ count-sort (λ a b. ltb (get_time b.timestamp) (get_time a.timestamp))
            (λ c. in_window start c && q c) (filter is_live activities)
        ∙ count-filter is_live (λ c. in_window start c && q c) activities
        ∙ count_same (λ c. is_live c && (in_window start c && q c))
            (λ c. is_due m.from_agent start (get_time m.timestamp) c && q c) activities
            (due_lem start q)

  absent :
      (k : Text) (events : List (Text × List AgentEvent))
      → has k (keys events) ≡ false
      → lookup k events ≡ none
  absent k events h = ground (arith, h, has_of_lookup k events)

  calls_of-put_persisted :
      (id : Text) (events : List (Text × List AgentEvent)) (found : List (Text × List Activity))
      → Distinct (keys events)
      → calls_of id (put_persisted get_time lower pack events found)
        ≡ (if no_calls (linked events id) then calls_of id found else linked events id)
  unfolding put_persisted
  calls_of-put_persisted id [] found d = refl
  calls_of-put_persisted id ((k, []) ∷ events) found (h, d) = elim (Bool-cases (k == id)) [
    | inl e ↦
        let same : k ≡ id = (text_eq_iff k id).0 e in
        let gone : lookup id events ≡ none =
          absent id events (subst (λ i. has i (keys events) ≡ false) same h) in
        calls_of-put_persisted id events found d ∙ rw (e, gone) refl
    | inr e ↦ calls_of-put_persisted id events found d ∙ rw e refl
  ]
  calls_of-put_persisted id ((k, e ∷ es) ∷ events) found (h, d) =
      let put_e = put k (map (to_activity get_time lower pack) (e ∷ es)) found in
      elim (Bool-cases (k == id)) [
        | inl c ↦
            let same : k ≡ id = (text_eq_iff k id).0 c in
            let gone : lookup id events ≡ none =
              absent id events (subst (λ i. has i (keys events) ≡ false) same h) in
            calls_of-put_persisted id events put_e d
            ∙ rw (gone, lookup-put k id (map (to_activity get_time lower pack) (e ∷ es)) found, c)
                refl
        | inr c ↦
            calls_of-put_persisted id events put_e d
            ∙ rw (lookup-put k id (map (to_activity get_time lower pack) (e ∷ es)) found, c) refl
      ]

  All-reverse :
      (us : List Message)
      → All (λ u. is_user u ≡ true) us
      → All (λ u. is_user u ≡ true) (reverse us)
  All-reverse [] h = tt
  All-reverse (u ∷ us) (h, k) =
      subst (All (λ u. is_user u ≡ true)) (sym (reverse-append (u ∷ []) us))
        (All-append _ (reverse us) (u ∷ []) (All-reverse us k) (h, tt))

  add_live_lem :
      (calls : List Activity) (m : Message) (rest : List Message)
      (found : List (Text × List Activity)) (id : Text)
      → is_user m ≡ false
      → calls_of id (add_live get_time lower pack calls (m ∷ rest) found) ≡ (
          if (m.id == id) && no_calls (calls_of id found)
          then relevant get_time lower pack (start_of get_time rest) m calls
          else calls_of id found)
  unfolding add_live
  add_live_lem calls m rest found id u =
      rw u (added m.id id (relevant get_time lower pack (start_of get_time rest) m calls) found)

  -- If the events are those of different messages, and the last message that is not a user's has a
  -- sender and starts at a time: under its id stand, if the server has linked no call to it, the
  -- tool calls of its sender since then up to its own time, every one of them exactly once, and
  -- under any other id, or if there are linked ones, just the calls that the server has linked.
  pub tool_calls_lem :
      (earlier users : List Message) (m : Message) (start : ℕ)
      (persisted : List (Text × List AgentEvent)) (activities : List Activity) (id : Text)
      (q : Activity → Bool)
      → Distinct (keys persisted)
      → All (λ u. is_user u ≡ true) users
      → is_user m ≡ false
      → is_empty m.from_agent ≡ false
      → StartsAt get_time earlier start
      → count q (
          calls_of id
            (tool_calls_by_message get_time lower pack (earlier ++ m ∷ users) persisted activities))
        ≡ (if (m.id == id) && no_calls (linked persisted id)
            then count (λ c. is_due m.from_agent start (get_time m.timestamp) c && q c) activities
            else count q (linked persisted id))
  unfolding tool_calls_by_message
  tool_calls_lem earlier users m start persisted activities id q distinct us agents named starts =
      let live = live_tool_calls get_time lower pack (earlier ++ m ∷ users) activities in
      let put_all = put_persisted get_time lower pack persisted [] in
      let stored : calls_of id put_all ≡ linked persisted id =
        calls_of-put_persisted id persisted [] distinct ∙ empty_or (linked persisted id) in
      let last : calls_of id
            (add_live get_time lower pack live (reverse (earlier ++ m ∷ users)) put_all)
          ≡ (if (m.id == id) && no_calls (linked persisted id)
              then relevant get_time lower pack start m live
              else linked persisted id) =
        ap (λ ms. calls_of id (add_live get_time lower pack live ms put_all))
          (reversed earlier m users)
        ∙ ap (calls_of id) (
            add_live-users live (reverse users) (m ∷ reverse earlier) put_all
              (All-reverse users us))
        ∙ add_live_lem live m (reverse earlier) put_all id agents
        ∙ rw (stored, start_of-reverse get_time earlier start starts) refl in
      ap (count q) last
      ∙ count-if ((m.id == id) && no_calls (linked persisted id)) q
          (relevant get_time lower pack start m live) (linked persisted id)
      ∙ rw (count-relevant m earlier users agents named start q activities) refl
