-- ===== src/Chat/Thoughts.antt =====
-- The thoughts under each message in src/frontend/src/hooks/useMessageFeed.ts: those of the message's
-- agent between the message before it and itself. `new Date(t).getTime()` and `toLowerCase` are
-- arguments.
use soren.Base.{
  ℕ, ◌≤◌, ◌<◌, Bool, true, false, not, ◌&&◌, ◌||◌, List, [], ◌∷◌, ◌++◌, map, Text, codes, ◌≡◌, ◌⊎◌,
  inl, inr, ◌==◌, text_Eq, text_eq_iff, ltb, leb, if◌then◌else◌, or_else, any, has, filter, sort,
  includes, lookup, put, lookup-put, In, In-filter, arith, Bool-cases,
}
use soren.Chat.{Message}
use soren.Stores.Thoughts.{Thought}

abbrev pub is_empty : Text → Bool
is_empty [] = true
is_empty (c ∷ s) = false

abbrev pub no_thoughts : List Thought → Bool
no_thoughts [] = true
no_thoughts (t ∷ ts) = false

abbrev pub is_user : Message → Bool
is_user m = m.kind == codes "user" || m.from_agent == codes "user"

in_window : (s t m : ℕ) (b : Bool) → (ltb s t && leb t m && b) ≡ true → (s < t) × (t ≤ m)
in_window s t m b h = ground arith

module _ (get_time : Text → ℕ) (lower : Text → Text) where
  -- Whether a thought's agent is the named one, as far as names tell.
  abbrev pub agent_matches : Text → Text → Bool
  agent_matches from name = name == from || includes (lower from) (lower name)

  -- `isRelevantAgent`, among the agents of the messages
  abbrev pub is_relevant_agent : List Message → Text → Bool
  is_relevant_agent ms name =
      any
        (λ m.
          not (is_empty m.from_agent)
          && not (m.from_agent == codes "user")
          && agent_matches m.from_agent name)
        ms

  -- `allThoughts`: the live ones, then those persisted that are not live.
  unfoldable pub all_thoughts : List Message → List Thought → List Thought → List Thought
  all_thoughts ms live persisted =
      filter (λ t. is_relevant_agent ms t.agent_name)
        (live ++ filter (λ t. not (has t.id (map (λ u. u.id) live))) persisted)

  -- Whether a thought belongs under a message, whose predecessor's time is `start`.
  abbrev pub is_under : ℕ → Message → Thought → Bool
  is_under start m t =
      ltb start (get_time t.timestamp)
      && leb (get_time t.timestamp) (get_time m.timestamp)
      && (if not (is_empty m.from_agent) && not (m.from_agent == codes "user")
          then agent_matches m.from_agent t.agent_name
          else true)

  -- The entry of one message.
  unfoldable pub put_thoughts :
      ℕ → List Thought → Message → List (Text × List Thought) → List (Text × List Thought)
  put_thoughts start thoughts m found =
      if is_user m || no_thoughts (filter (is_under start m) thoughts)
      then found
      else put m.id (filter (is_under start m) thoughts) found

  -- The loop over the messages.
  unfoldable pub correlate :
      ℕ → List Thought → List Message → List (Text × List Thought) → List (Text × List Thought)
  unfolding put_thoughts
  correlate start thoughts [] found = found
  correlate start thoughts (m ∷ ms) found =
      correlate (get_time m.timestamp) thoughts ms (put_thoughts start thoughts m found)

  -- `useThoughtCorrelation`
  unfoldable pub thoughts_by_message :
      List Message → List Thought → List Thought → List (Text × List Thought)
  unfolding correlate all_thoughts
  thoughts_by_message ms live persisted =
      correlate 0
        (sort (λ a b. ltb (get_time b.timestamp) (get_time a.timestamp))
          (all_thoughts ms live persisted))
        ms []

  -- The thoughts under an id.
  abbrev pub under : Text → List (Text × List Thought) → List Thought
  under k found = or_else (lookup k found) []

  -- Each message is at least as late as the one before.
  abbrev pub InOrder : ℕ → List Message → Type 0
  InOrder start [] = Unit
  InOrder start (m ∷ ms) = (start ≤ get_time m.timestamp) × InOrder (get_time m.timestamp) ms

  -- A message with this id whose window holds this time.
  abbrev Window : ℕ → List Message → Text → ℕ → Type 0
  Window start [] k time = ⊥
  Window start (m ∷ ms) k time =
      ((m.id ≡ k) × (start < time) × (time ≤ get_time m.timestamp))
      ⊎ Window (get_time m.timestamp) ms k time

  is_under-window :
      (start : ℕ) (m : Message) (t : Thought)
      → is_under start m t ≡ true
      → (start < get_time t.timestamp) × (get_time t.timestamp ≤ get_time m.timestamp)
  is_under-window start m t h = in_window start _ _ _ h

  put_thoughts-Window :
      (start : ℕ) (thoughts : List Thought) (m : Message) (found : List (Text × List Thought))
      (k : Text) (t : Thought)
      → In t (under k (put_thoughts start thoughts m found))
      → In t (under k found)
        ⊎ ((m.id ≡ k)
            × (start < get_time t.timestamp)
            × (get_time t.timestamp ≤ get_time m.timestamp))
  unfolding put_thoughts
  put_thoughts-Window start thoughts m found k t h =
      elim (Bool-cases (is_user m || no_thoughts (filter (is_under start m) thoughts))) [
        | inl e ↦ inl (rw e at h)
        | inr e ↦ elim (Bool-cases (m.id == k)) [
          | inl same ↦
              let listed =
                In-filter t (is_under start m) thoughts (
                  rw (e, lookup-put m.id k (filter (is_under start m) thoughts) found, same) at
                    h) in
              let (low, high) = is_under-window start m t listed.1 in
              inr ((text_eq_iff m.id k).0 same, low, high)
          | inr other ↦
              inl (rw (e, lookup-put m.id k (filter (is_under start m) thoughts) found, other) at h)
        ]
      ]

  correlate-Window :
      (start : ℕ) (thoughts : List Thought) (ms : List Message) (found : List (Text × List Thought))
      (k : Text) (t : Thought)
      → In t (under k (correlate start thoughts ms found))
      → In t (under k found) ⊎ Window start ms k (get_time t.timestamp)
  unfolding correlate
  correlate-Window start thoughts [] found k t h = inl h
  correlate-Window start thoughts (m ∷ ms) found k t h =
      elim (correlate-Window (get_time m.timestamp) thoughts ms _ k t h) [
        | inr w ↦ inr (inr w)
        | inl i ↦ elim (put_thoughts-Window start thoughts m found k t i) [
          | inl j ↦ inl j
          | inr w ↦ inr (inl w)
        ]
      ]

  Window-after :
      (start : ℕ) (ms : List Message) (k : Text) (time : ℕ)
      → InOrder start ms
      → Window start ms k time
      → start < time
  Window-after start [] k time o w = elim w [ ]
  Window-after start (m ∷ ms) k time (le, o) (inl (same, low, high)) = low
  Window-after start (m ∷ ms) k time (le, o) (inr w) =
      omega (arith, Window-after (get_time m.timestamp) ms k time o w)

  Window-unique :
      (start : ℕ) (ms : List Message) (j k : Text) (time : ℕ)
      → InOrder start ms
      → Window start ms j time
      → Window start ms k time
      → j ≡ k
  Window-unique start [] j k time o w v = elim w [ ]
  Window-unique start (m ∷ ms) j k time (le, o) (inl (x, low, high)) (inl (y, _, _)) = cc
  Window-unique start (m ∷ ms) j k time (le, o) (inl (x, low, high)) (inr v) =
      absurd (omega (arith, Window-after (get_time m.timestamp) ms k time o v))
  Window-unique start (m ∷ ms) j k time (le, o) (inr w) (inl (y, low, high)) =
      absurd (omega (arith, Window-after (get_time m.timestamp) ms j time o w))
  Window-unique start (m ∷ ms) j k time (le, o) (inr w) (inr v) =
      Window-unique (get_time m.timestamp) ms j k time o w v

  -- When the messages are in the order of their times, a thought stands under at most one id,
  -- however names overlap and whatever is live or persisted.
  pub thought_once :
      (ms : List Message) (live persisted : List Thought) (t : Thought) (j k : Text)
      → InOrder 0 ms
      → In t (under j (thoughts_by_message ms live persisted))
      → In t (under k (thoughts_by_message ms live persisted))
      → j ≡ k
  unfolding thoughts_by_message
  thought_once ms live persisted t j k o a b = elim (correlate-Window 0 _ ms [] j t a) [
    | inl x ↦ elim x [ ]
    | inr w ↦ elim (correlate-Window 0 _ ms [] k t b) [
      | inl y ↦ elim y [ ]
      | inr v ↦ Window-unique 0 ms j k (get_time t.timestamp) o w v
    ]
  ]
