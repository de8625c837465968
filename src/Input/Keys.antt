-- ===== src/Input/Keys.antt =====
-- The keys of src/frontend/src/components/chat/ChatInput.tsx: choosing a suggestion, sending, and
-- recalling what was sent.
use soren.Base.{
  ℕ, zero, suc, ◌+◌, ◌-◌, ◌%◌, Bool, false, ◌&&◌, ◌||◌, Option, none, some, List, [], ◌∷◌, ◌++◌,
  Text, if◌then◌else◌, length, drop, nat_eq, nat_Eq, ltb, leb, is_some, or_else, text_Eq, ◌==◌,
}
use soren.Chat.Collapse.{trim}
use soren.Stores.Agents.{Agent}
use soren.Input.{
  Library, Command, name, Action, action_of, Input, is_empty, no_mention, no_slash_command,
  match_slash_command, save_history, history_max,
}
use soren.Input.Editing.{filtered_agents, filtered_commands, insert_slash_command, insert_mention}

module _ {ℓ} {A : Type ℓ} where
  -- `xs[i]`
  abbrev pub get_elem? : ℕ → List A → Option A
  get_elem? i [] = none
  get_elem? zero (x ∷ xs) = some x
  get_elem? (suc i) (x ∷ xs) = get_elem? i xs

-- `xs[xs.length - 1]`
abbrev pub last_of : List Text → Option Text
last_of [] = none
last_of (s ∷ []) = some s
last_of (s ∷ r ∷ h) = last_of (r ∷ h)

abbrev pub is_last : Option Text → Text → Bool
is_last none s = false
is_last (some r) s = r == s

-- `push`, then `shift` beyond the cap
abbrev pub push_history : Text → List Text → List Text
push_history s h = if ltb history_max (length h + 1) then drop 1 (h ++ s ∷ []) else h ++ s ∷ []

abbrev pub perform : Option Action → List Action → List Action
perform none actions = actions
perform (some a) actions = actions ++ a ∷ []

-- The keys that the component looks at.
pub data Key : Type 0 where
  arrow_up arrow_down enter shift_enter tab escape other : Key

module _ (library : Library) where
  abbrev pub record_sent : Text → Input → Input
  record_sent s i = if is_last (last_of i.history) s then i else record i {
    history = push_history s i.history;
    stored = save_history library (push_history s i.history);
  }

  abbrev pub send : Text → Input → Input
  send s i = record (record_sent s (record i { sent = i.sent ++ s ∷ [] })) {
    history_index = none;
    message = [];
    selection_start = 0;
    selection_end = 0;
    mention = no_mention;
  }

  abbrev pub run_or_send : Option (Command × Text) → Text → Input → Input
  run_or_send none s i = send s i
  run_or_send (some (c, arg)) s i = record i {
    running = i.running ++ (c, arg) ∷ [];
    actions = perform (action_of c arg) i.actions;
  }

  -- `handleSubmit`: a command starts, and the rest of it waits for its result.
  unfoldable pub handle_submit : Input → Input
  handle_submit i =
      if is_empty (trim i.message) || i.is_pending
      then i
      else run_or_send (match_slash_command (trim i.message)) (trim i.message) i

  -- Putting an old message, or the draft, into the box.
  abbrev pub show_message : Text → Option ℕ → Input → Input
  show_message s index i = record i {
    message = s;
    history_index = index;
    selection_start = length s;
    selection_end = length s;
  }

  abbrev pub older : Option ℕ → ℕ → ℕ
  older none n = n - 1
  older (some k) n = k - 1

  abbrev pub newer : ℕ → Input → Input
  newer k i =
      if leb (length i.history - 1) k
      then show_message i.draft none i
      else show_message (or_else (get_elem? (suc k) i.history) []) (some (suc k)) i

  abbrev pub newer_or_stay : Option ℕ → Input → Input
  newer_or_stay none i = i
  newer_or_stay (some k) i = newer k i

  -- `handleHistoryKey`
  unfoldable pub history_up : Input → Input
  history_up i =
      if (is_some i.history_index || nat_eq i.selection_start 0 && nat_eq i.selection_end 0)
        && ltb 0 (length i.history)
      then show_message
          (or_else (get_elem? (older i.history_index (length i.history)) i.history) [])
          (some (older i.history_index (length i.history)))
          (record i { draft = if is_some i.history_index then i.draft else i.message })
      else i

  unfoldable pub history_down : Input → Input
  history_down i = newer_or_stay i.history_index i

  abbrev pub plain_key : Key → Input → Input
  plain_key arrow_up i = history_up i
  plain_key arrow_down i = history_down i
  plain_key enter i = handle_submit i
  plain_key shift_enter i = i
  plain_key tab i = i
  plain_key escape i = i
  plain_key other i = i

  -- An index out of range throws, which leaves the state.
  abbrev pub accept_agent : Option Agent → Input → Input
  accept_agent none i = i
  accept_agent (some a) i = insert_mention a.id i

  abbrev pub select_agent : ℕ → Input → Input
  select_agent k i = record i { mention = record i.mention { selected_index = k } }

  abbrev pub mention_key : Key → List Agent → Input → Input
  mention_key arrow_down found i = select_agent ((i.mention.selected_index + 1) % length found) i
  mention_key arrow_up found i =
      select_agent ((i.mention.selected_index + length found - 1) % length found) i
  mention_key enter found i = accept_agent (get_elem? i.mention.selected_index found) i
  mention_key shift_enter found i = accept_agent (get_elem? i.mention.selected_index found) i
  mention_key tab found i = accept_agent (get_elem? i.mention.selected_index found) i
  mention_key escape found i = record i { mention = no_mention }
  mention_key other found i = plain_key other i

  abbrev pub accept_command : Option Command → Input → Input
  accept_command none i = i
  accept_command (some c) i = insert_slash_command (name c) i

  abbrev pub select_command : ℕ → Input → Input
  select_command k i = record i { slash_command = record i.slash_command { selected_index = k } }

  abbrev pub command_key : Key → List Command → Input → Input
  command_key arrow_down found i =
      select_command ((i.slash_command.selected_index + 1) % length found) i
  command_key arrow_up found i =
      select_command ((i.slash_command.selected_index + length found - 1) % length found) i
  command_key enter found i = accept_command (get_elem? i.slash_command.selected_index found) i
  command_key shift_enter found i =
      accept_command (get_elem? i.slash_command.selected_index found) i
  command_key tab found i = accept_command (get_elem? i.slash_command.selected_index found) i
  command_key escape found i = record i { slash_command = no_slash_command }
  command_key other found i = i

  -- `handleKeyDown`
  unfoldable pub handle_key_down : Key → Input → Input
  handle_key_down key i =
      if ltb 0 (length (filtered_commands library i.slash_command))
      then command_key key (filtered_commands library i.slash_command) i
      else if ltb 0 (length (filtered_agents library i))
      then mention_key key (filtered_agents library i) i
      else plain_key key i
