-- ===== src/Input.antt =====
-- src/frontend/src/components/chat/ChatInput.tsx: the box that messages are written in, with its two
-- lists of suggestions and the recall of what was sent. This module has its state, the slash
-- commands and the stored history.
pub mod Editing
pub mod Keys
pub mod Steps
pub mod Invariant
pub mod Keeping
pub mod Recall
pub mod Commands
pub mod Mentions
mod Tests
use soren.Base.{
  ℕ, suc, ◌-◌, Bool, true, false, not, Option, none, some, List, [], ◌∷◌, ◌++◌, Text, codes,
  if◌then◌else◌, filter, starts_with, take_last, text_Eq, nat_eq, ◌==◌, or_else,
}
use soren.Bridge.Regex.{is_space}
use soren.Chat.Collapse.{trim}
use soren.Stores.Agents.{Agent}

-- JavaScript's lower case and JSON, with `none` where the source catches an error or finds no array.
pub record Library : Type 0 where
  pub lower : Text → Text
  pub stringify : List Text → Text
  pub parse : Text → Option (List Text)

-- `MentionState`
pub record Mention : Type 0 where
  pub active : Bool
  pub query : Text
  pub start_index : ℕ
  pub selected_index : ℕ

-- `SlashCommandState`
pub record SlashCommand : Type 0 where
  pub active : Bool
  pub query : Text
  pub selected_index : ℕ

-- `SlashCommandFeedback`, by its type
pub data Feedback : Type 0 where
  success error : Text → Feedback

-- `SLASH_COMMANDS`
pub data Command : Type 0 where
  compact wake interrupt status search : Command

abbrev pub slash_commands : List Command
slash_commands = compact ∷ wake ∷ interrupt ∷ status ∷ search ∷ []

abbrev pub name : Command → Text
name compact = codes "compact"
name wake = codes "wake"
name interrupt = codes "interrupt"
name status = codes "status"
name search = codes "search"

-- What running a command does outside: a request, a navigation, or opening the palette.
pub data Action : Type 0 where
  compact_agent wake_agent interrupt_agent navigate_agent open_with_query : Text → Action
  navigate_overview : Action

abbrev pub is_empty : Text → Bool
is_empty [] = true
is_empty (_ ∷ _) = false

-- `run` up to its result: nothing, if an argument is missing.
unfoldable pub action_of : Command → Text → Option Action
action_of compact arg = if is_empty arg then none else some (compact_agent arg)
action_of wake arg = if is_empty arg then none else some (wake_agent arg)
action_of interrupt arg = if is_empty arg then none else some (interrupt_agent arg)
action_of status arg = some (if is_empty arg then navigate_overview else navigate_agent arg)
action_of search arg = some (open_with_query arg)

-- The result of `run`
unfoldable pub feedback_of : Command → Text → Feedback
feedback_of compact arg =
    if is_empty arg
    then error (codes "Usage: /compact <agent>")
    else success (codes "Compaction triggered for " ++ arg)
feedback_of wake arg =
    if is_empty arg
    then error (codes "Usage: /wake <agent>")
    else success (codes "Wake requested for " ++ arg)
feedback_of interrupt arg =
    if is_empty arg
    then error (codes "Usage: /interrupt <agent>")
    else success (codes "Interrupt sent to " ++ arg)
feedback_of status arg =
    success (if is_empty arg then codes "Opened overview" else codes "Opened " ++ arg)
feedback_of search arg =
    success
      (if is_empty arg then codes "Opened search" else codes "Searching \"" ++ arg ++ codes "\"")

-- The state of the component, and what it did outside.
pub record Input : Type 0 where
  pub message : Text
  -- `selectionStart` and `selectionEnd` of the text area
  pub selection_start : ℕ
  pub selection_end : ℕ
  pub mention : Mention
  pub slash_command : SlashCommand
  pub command_feedback : Option Feedback
  -- `historyRef.current`, and what `sessionStorage` holds
  pub history : List Text
  pub stored : Option Text
  pub history_index : Option ℕ
  -- `draftRef.current`
  pub draft : Text
  pub last_restored_nonce : Option ℕ
  -- commands that run, oldest first
  pub running : List (Command × Text)
  -- the properties `isPending` and `agents`
  pub is_pending : Bool
  pub agents : List Agent
  -- calls of `onSend` and of the commands, oldest first
  pub sent : List Text
  pub actions : List Action

abbrev pub no_mention : Mention
no_mention = record { active = false; query = []; start_index = 0; selected_index = 0 }

abbrev pub no_slash_command : SlashCommand
no_slash_command = record { active = false; query = []; selected_index = 0 }

abbrev pub history_max : ℕ
history_max = 50

module _ (library : Library) where
  abbrev pub parsed_history : Option Text → List Text
  parsed_history none = []
  parsed_history (some []) = []
  parsed_history (some (c ∷ raw)) = or_else (library.parse (c ∷ raw)) []

  -- `loadHistory`
  unfoldable pub load_history : Option Text → List Text
  load_history stored = parsed_history stored

  -- `saveHistory`
  unfoldable pub save_history : List Text → Option Text
  save_history history = some (library.stringify (take_last history_max history))

  abbrev pub mount : Option Text → List Agent → Input
  unfolding load_history
  mount stored agents = record {
    message = [];
    selection_start = 0;
    selection_end = 0;
    mention = no_mention;
    slash_command = no_slash_command;
    command_feedback = none;
    history = load_history stored;
    stored = stored;
    history_index = none;
    draft = [];
    last_restored_nonce = none;
    running = [];
    is_pending = false;
    agents = agents;
    sent = [];
    actions = [];
  }

abbrev pub find_command : Text → List Command → Option Command
find_command word [] = none
find_command word (c ∷ cs) = if name c == word then some c else find_command word cs

-- The longest word at the start, `\S*`, and what follows it.
abbrev pub first_word : Text → Text
first_word [] = []
first_word (c ∷ s) = if is_space c then [] else c ∷ first_word s

abbrev pub after_word : Text → Text
after_word [] = []
after_word (c ∷ s) = if is_space c then c ∷ s else after_word s

abbrev pub with_argument : Option Command → Text → Option (Command × Text)
with_argument none rest = none
with_argument (some c) rest = some (c, trim rest)

-- `matchSlashCommand`: a slash, a word that is a command's name, and an argument after white space.
-- The word of the expression is the longest one, since white space or the end must follow it.
unfoldable pub match_slash_command : Text → Option (Command × Text)
match_slash_command [] = none
match_slash_command (c ∷ s) =
    if nat_eq c b'/'
    then with_argument (find_command (first_word s) slash_commands) (after_word s)
    else none
