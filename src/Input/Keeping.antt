-- ===== src/Input/Keeping.antt =====
-- Every event of src/frontend/src/components/chat/ChatInput.tsx keeps the invariant of the box.
use soren.Base.{
  take, ℕ, ◌<◌, true, false, Option, none, some, List, [], ◌∷◌, Text, if◌then◌else◌, length, drop,
  ltb, text_Eq, refl, arith, Bool-cases, inl, inr,
}
use soren.Stores.Agents.{Agent}
use soren.Input.{no_slash_command, Library, Command, Input}
use soren.Input.Editing.{
  types_command, filtered_agents, filtered_commands, insert_mention, insert_slash_command,
  handle_change,
}
use soren.Input.Keys.{
  accept_agent, accept_command, select_command, Key, arrow_up, arrow_down, enter, shift_enter, tab,
  escape, other, handle_key_down, history_down, plain_key, mention_key, command_key,
}
use soren.Input.Steps.{
  finish_command, changed, caret_moved, key_pressed, send_clicked, clicked_outside,
  feedback_timeout, agent_hovered, agent_pressed, command_hovered, command_pressed, command_replied,
  send_failed, pending_changed, agents_changed, Reply, finish, restore_failed, Event, step, run,
}
use soren.Base.{mod_bound}
use soren.Input.Invariant.{
  IsValid, Same-IsValid, command-IsValid, index-IsValid, handle_submit-IsValid, history_up-IsValid,
  newer-IsValid,
}

module _ (library : Library) where
  plain_key-IsValid :
      (key : Key) (i : Input) → IsValid library i → IsValid library (plain_key library key i)
  unfolding history_down
  plain_key-IsValid arrow_up i v = history_up-IsValid library i v
  plain_key-IsValid arrow_down i v = newer-IsValid library i.history_index i v
  plain_key-IsValid enter i v = handle_submit-IsValid library i v
  plain_key-IsValid shift_enter i v = v
  plain_key-IsValid tab i v = v
  plain_key-IsValid escape i v = v
  plain_key-IsValid other i v = v

  accept_agent-IsValid :
      (a : Option Agent) (i : Input)
      → IsValid library i
      → IsValid library (accept_agent library a i)
  unfolding insert_mention
  accept_agent-IsValid none i v = v
  accept_agent-IsValid (some a) i v = Same-IsValid library i _ refl refl refl v

  mention_key-IsValid :
      (key : Key) (found : List Agent) (i : Input)
      → IsValid library i
      → IsValid library (mention_key library key found i)
  mention_key-IsValid arrow_up found i v = Same-IsValid library i _ refl refl refl v
  mention_key-IsValid arrow_down found i v = Same-IsValid library i _ refl refl refl v
  mention_key-IsValid enter found i v = accept_agent-IsValid _ i v
  mention_key-IsValid shift_enter found i v = accept_agent-IsValid _ i v
  mention_key-IsValid tab found i v = accept_agent-IsValid _ i v
  mention_key-IsValid escape found i v = Same-IsValid library i _ refl refl refl v
  mention_key-IsValid other found i v = v

  accept_command-IsValid :
      (c : Option Command) (i : Input)
      → IsValid library i
      → IsValid library (accept_command library c i)
  unfolding insert_slash_command
  accept_command-IsValid none i v = v
  accept_command-IsValid (some c) i v =
      Same-IsValid library (record i { slash_command = no_slash_command }) _ refl refl refl
        (command-IsValid library i no_slash_command refl v)

  select_command-IsValid :
      (k : ℕ) (i : Input)
      → k < length (filtered_commands library i.slash_command)
      → IsValid library i
      → IsValid library (select_command library k i)
  unfolding filtered_commands
  select_command-IsValid k i h v =
      command-IsValid library i (record i.slash_command { selected_index = k }) (ground arith) v

  command_key-IsValid :
      (key : Key) (i : Input)
      → 0 < length (filtered_commands library i.slash_command)
      → IsValid library i
      → IsValid library (command_key library key (filtered_commands library i.slash_command) i)
  command_key-IsValid arrow_down i z v = select_command-IsValid _ i (mod_bound _ _ z) v
  command_key-IsValid arrow_up i z v = select_command-IsValid _ i (mod_bound _ _ z) v
  command_key-IsValid enter i z v = accept_command-IsValid _ i v
  command_key-IsValid shift_enter i z v = accept_command-IsValid _ i v
  command_key-IsValid tab i z v = accept_command-IsValid _ i v
  command_key-IsValid escape i z v = command-IsValid library i no_slash_command refl v
  command_key-IsValid other i z v = v

  handle_key_down-IsValid :
      (key : Key) (i : Input) → IsValid library i → IsValid library (handle_key_down library key i)
  unfolding handle_key_down
  handle_key_down-IsValid key i v =
      elim (Bool-cases (ltb 0 (length (filtered_commands library i.slash_command)))) [
        | inl e ↦ rw e (command_key-IsValid key i (ground arith) v)
        | inr e ↦ elim (Bool-cases (ltb 0 (length (filtered_agents library i)))) [
          | inl f ↦ rw (e, f) (mention_key-IsValid key (filtered_agents library i) i v)
          | inr f ↦ rw (e, f) (plain_key-IsValid key i v)
        ]
      ]

  -- Leaving the history, and the list of commands closed if it was open
  left-IsValid :
      (i : Input) → IsValid library i → IsValid library (record i { history_index = none })
  left-IsValid i v = index-IsValid library i none refl v

  closed-IsValid :
      (i : Input)
      → IsValid library i
      → IsValid library (record i {
        history_index = none;
        slash_command = if i.slash_command.active then no_slash_command else i.slash_command;
      })
  closed-IsValid i v = elim (Bool-cases i.slash_command.active) [
    | inl a ↦
        Same-IsValid library (record i { history_index = none; slash_command = no_slash_command }) _
          refl refl (rw a refl)
          (command-IsValid library (record i { history_index = none }) no_slash_command refl
            (left-IsValid i v))
    | inr a ↦
        Same-IsValid library (record i { history_index = none }) _ refl refl (rw a refl)
          (left-IsValid i v)
  ]

  handle_change-IsValid :
      (value : Text) (cursor : ℕ) (i : Input)
      → IsValid library i
      → IsValid library (handle_change value cursor i)
  unfolding handle_change
  handle_change-IsValid value cursor i v = elim (Bool-cases (types_command value cursor)) [
    | inl e ↦ rw e (
        command-IsValid library
          (record i {
            message = value;
            selection_start = cursor;
            selection_end = cursor;
            history_index = none;
          })
          (record { active = true; query = drop 1 (take cursor value); selected_index = 0 }) refl
          (Same-IsValid library (record i { history_index = none }) _ refl refl refl
            (left-IsValid i v)))
    | inr e ↦ rw e (Same-IsValid library _ _ refl refl refl (closed-IsValid i v))
  ]

  finish-IsValid :
      (ended : Option (Command × Text)) (rest : List (Command × Text)) (reply : Reply) (i : Input)
      → IsValid library i
      → IsValid library (finish ended rest reply i)
  finish-IsValid none rest reply i v = v
  finish-IsValid (some (c, arg)) rest reply i v =
      Same-IsValid library (record i { slash_command = no_slash_command }) _ refl refl refl
        (command-IsValid library i no_slash_command refl v)

  restore_failed-IsValid :
      (content : Text) (nonce : ℕ) (i : Input)
      → IsValid library i
      → IsValid library (restore_failed content nonce i)
  unfolding restore_failed
  restore_failed-IsValid content nonce i v =
      Same-IsValid library i _ (ground arith) (ground arith) (ground arith) v

  step-IsValid : (i : Input) (e : Event) → IsValid library i → IsValid library (step library i e)
  unfolding step finish_command
  step-IsValid i (changed value cursor) v = handle_change-IsValid value cursor i v
  step-IsValid i (caret_moved from to) v = Same-IsValid library i _ refl refl refl v
  step-IsValid i (key_pressed key) v = handle_key_down-IsValid key i v
  step-IsValid i send_clicked v = handle_submit-IsValid library i v
  step-IsValid i clicked_outside v =
      Same-IsValid library (record i { slash_command = record i.slash_command { active = false } })
        _ refl refl refl
        (command-IsValid library i (record i.slash_command { active = false }) refl v)
  step-IsValid i feedback_timeout v = Same-IsValid library i _ refl refl refl v
  step-IsValid i (agent_hovered k) v =
      Same-IsValid library i _ (ground arith) (ground arith) (ground arith) v
  step-IsValid i (agent_pressed k) v = accept_agent-IsValid _ i v
  step-IsValid i (command_hovered k) v =
      elim (Bool-cases (ltb k (length (filtered_commands library i.slash_command)))) [
        | inl e ↦ rw e (select_command-IsValid k i (ground arith) v)
        | inr e ↦ rw e v
      ]
  step-IsValid i (command_pressed k) v = accept_command-IsValid _ i v
  step-IsValid i (command_replied k reply) v = finish-IsValid _ _ reply i v
  step-IsValid i (send_failed content nonce) v = restore_failed-IsValid content nonce i v
  step-IsValid i (pending_changed pending) v = Same-IsValid library i _ refl refl refl v
  step-IsValid i (agents_changed agents) v = Same-IsValid library i _ refl refl refl v

  -- Every event keeps the box valid: at most 50 messages in the history and none twice in a row,
  -- an index into it that is in range, and a selected command that is the first one or one that is
  -- shown.
  pub inputs-IsValid :
      (i : Input) (es : List Event) → IsValid library i → IsValid library (run library i es)
  unfolding run
  inputs-IsValid i [] v = v
  inputs-IsValid i (e ∷ es) v = inputs-IsValid (step library i e) es (step-IsValid i e v)
