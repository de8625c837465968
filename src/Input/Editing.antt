-- ===== src/Input/Editing.antt =====
-- How src/frontend/src/components/chat/ChatInput.tsx follows edits: the suggestions that typing
-- opens, and what accepting one writes.
use soren.Base.{
  ℕ, zero, suc, ◌+◌, Bool, true, false, not, ◌&&◌, ◌||◌, Option, none, some, List, [], ◌∷◌, ◌++◌,
  Text, codes, if◌then◌else◌, filter, any, starts_with, includes, length, take, drop, nat_eq,
}
use soren.Stores.Agents.{Agent}
use soren.Input.{
  Library, Mention, SlashCommand, Command, slash_commands, name, Input, no_mention,
  no_slash_command,
}

-- `s.includes(" ")`
abbrev pub has_blank : Text → Bool
has_blank s = any (λ c. nat_eq c b' ') s

-- `s.lastIndexOf("@")`, with `none` for -1
abbrev pub last_at : Text → Option ℕ
last_at [] = none
last_at (c ∷ s) = later_at c (last_at s)
  where
    later_at : ℕ → Option ℕ → Option ℕ
    later_at c (some i) = some (suc i)
    later_at c none = if nat_eq c b'@' then some 0 else none

-- The character before an index, read as a blank at the start.
abbrev pub char_before : ℕ → Text → ℕ
char_before zero s = b' '
char_before (suc i) [] = b' '
char_before (suc zero) (c ∷ s) = c
char_before (suc (suc i)) (c ∷ s) = char_before (suc i) s

module _ (library : Library) where
  open library use {lower}

  abbrev pub names_match : Text → Option Text → Bool
  names_match query none = false
  names_match query (some shown) = not (length_is_zero shown) && includes query (lower shown)
    where
      length_is_zero : Text → Bool
      length_is_zero [] = true
      length_is_zero (_ ∷ _) = false

  -- `filteredAgents`
  unfoldable pub filtered_agents : Input → List Agent
  filtered_agents i =
      if i.mention.active
      then filter
          (λ a.
            includes (lower i.mention.query) (lower a.id)
            || names_match (lower i.mention.query) a.display_name)
          i.agents
      else []

  -- `filteredCommands`
  unfoldable pub filtered_commands : SlashCommand → List Command
  filtered_commands s =
      if s.active then filter (λ c. starts_with (lower s.query) (name c)) slash_commands else []

-- `insertSlashCommand`
unfoldable pub insert_slash_command : Text → Input → Input
insert_slash_command command i = record i {
  message = b'/' ∷ command ++ b' ' ∷ [];
  slash_command = no_slash_command;
  selection_start = length command + 2;
  selection_end = length command + 2;
}

-- `insertMention`
unfoldable pub insert_mention : Text → Input → Input
insert_mention agent_id i = record i {
  message =
      take i.mention.start_index i.message
      ++ b'@' ∷ agent_id
      ++ b' ' ∷ drop i.selection_start i.message;
  mention = no_mention;
  selection_start = length (take i.mention.start_index i.message) + length agent_id + 2;
  selection_end = length (take i.mention.start_index i.message) + length agent_id + 2;
}

-- The mention that the text before the cursor ends in, if an `@` starts one.
abbrev pub mention_at : Text → Option ℕ → Option Mention
mention_at before none = none
mention_at before (some at) =
    if (nat_eq (char_before at before) b' ' || nat_eq (char_before at before) 10)
      && not (has_blank (drop (suc at) before))
    then some (record {
      active = true;
      query = drop (suc at) before;
      start_index = at;
      selected_index = 0;
    })
    else none

abbrev pub or_no_mention : Option Mention → Mention → Mention
or_no_mention none m = if m.active then no_mention else m
or_no_mention (some new) m = new

abbrev pub types_command : Text → ℕ → Bool
types_command value cursor = starts_with (codes "/") value && not (has_blank (take cursor value))

-- `handleChange`: the browser has put a new value and its cursor into the text area.
unfoldable pub handle_change : Text → ℕ → Input → Input
handle_change value cursor i =
    let edited = record i {
      message = value;
      selection_start = cursor;
      selection_end = cursor;
      history_index = none;
    } in
    if types_command value cursor
    then record edited {
      slash_command = record {
        active = true;
        query = drop 1 (take cursor value);
        selected_index = 0;
      };
    }
    else record edited {
      slash_command = if i.slash_command.active then no_slash_command else i.slash_command;
      mention =
          or_no_mention (mention_at (take cursor value) (last_at (take cursor value))) i.mention;
    }
