-- ===== src/Input/Mentions.antt =====
-- Mentions in src/frontend/src/components/chat/ChatInput.tsx: from the `@` that opens the list of
-- agents to the text that accepting one leaves.
use soren.Base.{
  ℕ, zero, suc, ◌+◌, ◌≤◌, ◌<◌, Bool, true, false, ◌||◌, none, some, List, [], ◌∷◌, ◌++◌, Text,
  append_assoc, length, take, drop, drop-append, has, nat_eq, nat_Eq, ◌≡◌, refl, ap, ◌∙◌, arith,
}
use soren.Stores.Agents.{Agent}
use soren.Input.{Mention, Library, Input}
use soren.Input.Editing.{
  filtered_agents, filtered_commands, handle_change, has_blank, last_at, char_before, mention_at,
  types_command, insert_mention,
}
use soren.Input.Keys.{get_elem?, enter, handle_key_down}
use soren.Input.Steps.{step, agents_changed, key_pressed}

take-length : (s t : Text) → take (length s) (s ++ t) ≡ s
take-length [] t = refl
take-length (c ∷ s) t = ap (◌∷◌ c) (take-length s t)

drop_next : (c : ℕ) (s t : Text) → drop (suc (length s)) (s ++ c ∷ t) ≡ t
drop_next c [] t = refl
drop_next c (d ∷ s) t = drop_next c s t

last_at-none : (s : Text) → has b'@' s ≡ false → last_at s ≡ none
last_at-none [] h = refl
last_at-none (c ∷ s) h = ground (arith, last_at-none s)

last_at-append : (s q : Text) → has b'@' q ≡ false → last_at (s ++ b'@' ∷ q) ≡ some (length s)
last_at-append [] q h = ground (arith, last_at-none q h)
last_at-append (c ∷ s) q h = ground (arith, last_at-append s q h)

-- The text before the mention
cut : (before query after : Text) → take (length before) (before ++ b'@' ∷ query ++ after) ≡ before
cut before query after =
    ap (take (length before)) (append_assoc before (b'@' ∷ query) after)
    ∙ take-length before (b'@' ∷ query ++ after)

-- A mention may start after this text.
abbrev pub ends_open : Text → Bool
ends_open [] = true
ends_open (c ∷ []) = nat_eq c b' ' || nat_eq c 10
ends_open (c ∷ d ∷ s) = ends_open (d ∷ s)

char_before-append :
    (s t : Text)
    → ends_open s ≡ true
    → (nat_eq (char_before (length s) (s ++ t)) b' ' || nat_eq (char_before (length s) (s ++ t)) 10)
      ≡ true
char_before-append [] t h = refl
char_before-append (c ∷ []) t h = h
char_before-append (c ∷ d ∷ s) t h = char_before-append (d ∷ s) t h

abbrev new_mention : Text → ℕ → Mention
new_mention query start = record {
  active = true;
  query = query;
  start_index = start;
  selected_index = 0;
}

beyond : (k : ℕ) (found : List Agent) → length found ≤ k → get_elem? k found ≡ none
beyond k [] h = refl
beyond zero (a ∷ found) h = ground arith
beyond (suc k) (a ∷ found) h = beyond k found (omega (arith, h))

module _ (library : Library) where
  typed_mention :
      (before query after : Text) (i : Input)
      → ends_open before ≡ true
      → has b'@' query ≡ false
      → has_blank query ≡ false
      → mention_at (before ++ b'@' ∷ query) (last_at (before ++ b'@' ∷ query))
        ≡ some (record {
          active = true;
          query = query;
          start_index = length before;
          selected_index = 0;
        })
  typed_mention before query after i o a b = ground (
    arith,
    last_at-append before query a,
    char_before-append before (b'@' ∷ query) o,
    drop_next b'@' before query,
  )

  -- Enter takes the first agent that is shown, if no command is.
  enter_lem :
      (j : Input) (a : Agent) (rest : List Agent)
      → filtered_commands library j.slash_command ≡ []
      → filtered_agents library j ≡ a ∷ rest
      → j.mention.selected_index ≡ 0
      → handle_key_down library enter j ≡ insert_mention a.id j
  unfolding handle_key_down
  enter_lem j a rest c f z = ground (arith, c, f, z)

  no_commands :
      (value : Text) (cursor : ℕ) (i : Input)
      → types_command value cursor ≡ false
      → filtered_commands library (handle_change value cursor i).slash_command ≡ []
  unfolding handle_change filtered_commands
  no_commands value cursor i t = ground (arith, t)

  changed_lem :
      (value : Text) (cursor : ℕ) (i : Input) (m : Mention)
      → types_command value cursor ≡ false
      → mention_at (take cursor value) (last_at (take cursor value)) ≡ some m
      → ((handle_change value cursor i).message ≡ value)
        × ((handle_change value cursor i).selection_start ≡ cursor)
        × ((handle_change value cursor i).mention ≡ m)
  unfolding handle_change
  changed_lem value cursor i m t e = rw (t, e) (refl, refl, refl)

  inserted_lem :
      (before query after id : Text) (j : Input)
      → j.message ≡ before ++ b'@' ∷ query ++ after
      → j.selection_start ≡ length (before ++ b'@' ∷ query)
      → j.mention.start_index ≡ length before
      → ((insert_mention id j).message ≡ before ++ b'@' ∷ id ++ b' ' ∷ after)
        × ((insert_mention id j).selection_start ≡ length before + length id + 2)
  unfolding insert_mention
  inserted_lem before query after id j e c m =
      rw (e, c, m, cut before query after, drop-append (before ++ b'@' ∷ query) after) (refl, refl)

  -- Typing an @ and a query without blanks, at the start or after a blank or a new line and
  -- outside a slash command, and pressing enter replaces exactly the @ and the query by the name
  -- of the first agent shown and a blank, and puts the cursor behind it.
  pub mention_lem :
      (before query after : Text) (i : Input) (a : Agent) (rest : List Agent)
      → ends_open before ≡ true
      → has b'@' query ≡ false
      → has_blank query ≡ false
      → types_command (before ++ b'@' ∷ query ++ after) (length (before ++ b'@' ∷ query)) ≡ false
      → filtered_agents library
          (handle_change (before ++ b'@' ∷ query ++ after) (length (before ++ b'@' ∷ query)) i)
        ≡ a ∷ rest
      → ((handle_key_down library enter (
            handle_change
              (before ++ b'@' ∷ query ++ after)
              (length (before ++ b'@' ∷ query))
              i)).message
          ≡ before ++ b'@' ∷ a.id ++ b' ' ∷ after)
        × ((handle_key_down library enter (
              handle_change
                (before ++ b'@' ∷ query ++ after)
                (length (before ++ b'@' ∷ query))
                i)).selection_start
            ≡ length before + length a.id + 2)
  mention_lem before query after i a rest o h b t f =
      let value = before ++ b'@' ∷ query ++ after in
      let cursor = length (before ++ b'@' ∷ query) in
      let typed : take cursor value ≡ before ++ b'@' ∷ query =
        take-length (before ++ b'@' ∷ query) after in
      let opened =
        changed_lem value cursor i (new_mention query (length before)) t
          (rw typed (typed_mention before query after i o h b)) in
      rw
        (enter_lem (handle_change value cursor i) a rest (no_commands value cursor i t) f
          (rw (opened.2) refl))
        (inserted_lem before query after a.id (handle_change value cursor i) (opened.0) (opened.1)
          (rw (opened.2) refl))

  -- When the list of agents shrinks to one that does not reach the selected entry, while no
  -- command list is open, enter does nothing at all: it neither accepts an agent nor sends.
  pub stale_selection :
      (i : Input) (agents : List Agent)
      → i.slash_command.active ≡ false
      → 0 < length (filtered_agents library (record i { agents = agents }))
      → length (filtered_agents library (record i { agents = agents })) ≤ i.mention.selected_index
      → step library (step library i (agents_changed agents)) (key_pressed enter)
        ≡ step library i (agents_changed agents)
  unfolding step handle_key_down filtered_commands
  stale_selection i agents c z h = ground (
    arith,
    c,
    beyond i.mention.selected_index (filtered_agents library (record i { agents = agents })) h,
  )
