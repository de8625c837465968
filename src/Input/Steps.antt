-- ===== src/Input/Steps.antt =====
-- What can happen to the box of src/frontend/src/components/chat/ChatInput.tsx, in any order.
use soren.Base.{
  ℕ, Bool, false, Option, none, some, List, [], ◌∷◌, ◌++◌, Text, codes, if◌then◌else◌, length, take,
  drop, suc, ltb, nat_eq,
}
use soren.Stores.Agents.{Agent}
use soren.Input.{
  Library, Command, name, Feedback, error, feedback_of, Input, is_empty, no_slash_command,
}
use soren.Input.Editing.{filtered_agents, filtered_commands, handle_change}
use soren.Input.Keys.{
  Key, handle_key_down, handle_submit, select_agent, select_command, accept_agent, accept_command,
  get_elem?,
}

-- How a command's request ends: a failure may carry the message of an `Error`.
pub data Reply : Type 0 where
  done : Reply
  failed : Option Text → Reply

abbrev pub feedback_after : Command → Text → Reply → Feedback
feedback_after c arg done = feedback_of c arg
feedback_after c arg (failed (some reason)) = error reason
feedback_after c arg (failed none) = error (codes "/" ++ name c ++ codes " failed")

-- `runSlashCommand` after the result of a command, with those that still run
abbrev pub finish : Option (Command × Text) → List (Command × Text) → Reply → Input → Input
finish none rest reply i = i
finish (some (c, arg)) rest reply i = record i {
  running = rest;
  command_feedback = some (feedback_after c arg reply);
  message = [];
  selection_start = 0;
  selection_end = 0;
  slash_command = no_slash_command;
}

-- The k-th of the commands that run is answered: they may end in any order.
unfoldable pub finish_command : ℕ → Reply → Input → Input
finish_command k reply i =
    finish (get_elem? k i.running) (take k i.running ++ drop (suc k) i.running) reply i

abbrev pub is_restored : Option ℕ → ℕ → Bool
is_restored none nonce = false
is_restored (some n) nonce = nat_eq n nonce

-- The effect on `failedSend`
unfoldable pub restore_failed : Text → ℕ → Input → Input
restore_failed content nonce i = if is_restored i.last_restored_nonce nonce then i else record i {
  last_restored_nonce = some nonce;
  message = if is_empty i.message then content else i.message;
  selection_start = if is_empty i.message then length content else i.selection_start;
  selection_end = if is_empty i.message then length content else i.selection_end;
}

-- Hovering and pressing name an entry that is shown.
pub data Event : Type 0 where
  changed : Text → ℕ → Event
  caret_moved : ℕ → ℕ → Event
  key_pressed : Key → Event
  send_clicked clicked_outside feedback_timeout : Event
  agent_hovered agent_pressed command_hovered command_pressed : ℕ → Event
  command_replied : ℕ → Reply → Event
  send_failed : Text → ℕ → Event
  pending_changed : Bool → Event
  agents_changed : List Agent → Event

module _ (library : Library) where
  unfoldable pub step : Input → Event → Input
  step i (changed value cursor) = handle_change value cursor i
  step i (caret_moved from to) = record i { selection_start = from; selection_end = to }
  step i (key_pressed key) = handle_key_down library key i
  step i send_clicked = handle_submit library i
  step i clicked_outside = record i {
    mention = record i.mention { active = false };
    slash_command = record i.slash_command { active = false };
  }
  step i feedback_timeout = record i { command_feedback = none }
  step i (agent_hovered k) =
      if ltb k (length (filtered_agents library i)) then select_agent library k i else i
  step i (agent_pressed k) = accept_agent library (get_elem? k (filtered_agents library i)) i
  step i (command_hovered k) =
      if ltb k (length (filtered_commands library i.slash_command))
      then select_command library k i
      else i
  step i (command_pressed k) =
      accept_command library (get_elem? k (filtered_commands library i.slash_command)) i
  step i (command_replied k reply) = finish_command k reply i
  step i (send_failed content nonce) = restore_failed content nonce i
  step i (pending_changed pending) = record i { is_pending = pending }
  step i (agents_changed agents) = record i { agents = agents }

  unfoldable pub run : Input → List Event → Input
  run i [] = i
  run i (e ∷ es) = run (step i e) es
