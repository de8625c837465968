-- ===== src/Input/Commands.antt =====
-- What src/frontend/src/components/chat/ChatInput.tsx sends, and what it runs instead.
use soren.Base.{
  ◌+◌, All-drop, false, ◌||◌, Option, none, some, List, [], ◌∷◌, ◌++◌, Text, length, ltb, ◌≡◌, refl,
  arith, Bool-cases, inl, inr, All, All-append,
}
use soren.Chat.Collapse.{trim}
use soren.Stores.Agents.{Agent}
use soren.Input.{history_max, Library, Command, Input, match_slash_command, is_empty}
use soren.Input.Editing.{
  filtered_agents, filtered_commands, handle_change, insert_mention, insert_slash_command,
}
use soren.Input.Keys.{
  push_history, send, is_last, last_of, Key, arrow_up, arrow_down, enter, shift_enter, tab, escape,
  other, handle_key_down, handle_submit, run_or_send, history_up, history_down, plain_key,
  mention_key, command_key, accept_agent, accept_command,
}
use soren.Input.Steps.{
  Reply, Event, step, run, changed, caret_moved, key_pressed, send_clicked, clicked_outside,
  feedback_timeout, agent_hovered, agent_pressed, command_hovered, command_pressed, command_replied,
  send_failed, pending_changed, agents_changed, finish, finish_command, restore_failed,
}

-- What may be sent: some text that is no command.
abbrev pub IsMessage : Text → Type 0
IsMessage s = (is_empty s ≡ false) × (match_slash_command s ≡ none)

-- Only such texts were sent and recorded.
pub record IsClean (i : Input) : Type 0 where
  pub clean_sent : All IsMessage i.sent
  pub clean_history : All IsMessage i.history

kept : (i j : Input) → j.sent ≡ i.sent → j.history ≡ i.history → IsClean i → IsClean j
kept i j s h c = record { clean_sent = rw s c.clean_sent; clean_history = rw h c.clean_history }

push_history-clean :
    (s : Text) (h : List Text) → IsMessage s → All IsMessage h → All IsMessage (push_history s h)
push_history-clean s h m a =
    let b : All IsMessage (h ++ s ∷ []) = All-append IsMessage h (s ∷ []) a (m, tt) in
    elim (Bool-cases (ltb history_max (length h + 1))) [
      | inl e ↦ rw e (All-drop IsMessage 1 (h ++ s ∷ []) b)
      | inr e ↦ rw e b
    ]

module _ (library : Library) where
  send-IsClean : (s : Text) (i : Input) → IsMessage s → IsClean i → IsClean (send library s i)
  send-IsClean s i m c = elim (Bool-cases (is_last (last_of i.history) s)) [
    | inl e ↦ record {
      clean_sent = rw e (All-append IsMessage i.sent (s ∷ []) c.clean_sent (m, tt));
      clean_history = rw e c.clean_history;
    }
    | inr e ↦ record {
      clean_sent = rw e (All-append IsMessage i.sent (s ∷ []) c.clean_sent (m, tt));
      clean_history = rw e (push_history-clean s i.history m c.clean_history);
    }
  ]

  run_or_send-IsClean :
      (m : Option (Command × Text)) (s : Text) (i : Input)
      → match_slash_command s ≡ m
      → is_empty s ≡ false
      → IsClean i
      → IsClean (run_or_send library m s i)
  run_or_send-IsClean none s i e n c = send-IsClean s i (n, e) c
  run_or_send-IsClean (some (command, arg)) s i e n c = kept i _ refl refl c

  handle_submit-IsClean : (i : Input) → IsClean i → IsClean (handle_submit library i)
  unfolding handle_submit
  handle_submit-IsClean i c = elim (Bool-cases (is_empty (trim i.message) || i.is_pending)) [
    | inl e ↦ rw e c
    | inr e ↦ rw e (
        run_or_send-IsClean (match_slash_command (trim i.message)) (trim i.message) i refl
          (ground arith) c)
  ]

  plain_key-IsClean : (key : Key) (i : Input) → IsClean i → IsClean (plain_key library key i)
  unfolding history_up history_down
  plain_key-IsClean arrow_up i c = kept i _ (ground arith) (ground arith) c
  plain_key-IsClean arrow_down i c = kept i _ (ground arith) (ground arith) c
  plain_key-IsClean enter i c = handle_submit-IsClean i c
  plain_key-IsClean shift_enter i c = c
  plain_key-IsClean tab i c = c
  plain_key-IsClean escape i c = c
  plain_key-IsClean other i c = c

  accept_agent-IsClean :
      (a : Option Agent) (i : Input) → IsClean i → IsClean (accept_agent library a i)
  unfolding insert_mention
  accept_agent-IsClean none i c = c
  accept_agent-IsClean (some a) i c = kept i _ refl refl c

  accept_command-IsClean :
      (m : Option Command) (i : Input) → IsClean i → IsClean (accept_command library m i)
  unfolding insert_slash_command
  accept_command-IsClean none i c = c
  accept_command-IsClean (some m) i c = kept i _ refl refl c

  mention_key-IsClean :
      (key : Key) (found : List Agent) (i : Input)
      → IsClean i
      → IsClean (mention_key library key found i)
  mention_key-IsClean arrow_up found i c = kept i _ refl refl c
  mention_key-IsClean arrow_down found i c = kept i _ refl refl c
  mention_key-IsClean enter found i c = accept_agent-IsClean _ i c
  mention_key-IsClean shift_enter found i c = accept_agent-IsClean _ i c
  mention_key-IsClean tab found i c = accept_agent-IsClean _ i c
  mention_key-IsClean escape found i c = kept i _ refl refl c
  mention_key-IsClean other found i c = c

  command_key-IsClean :
      (key : Key) (found : List Command) (i : Input)
      → IsClean i
      → IsClean (command_key library key found i)
  command_key-IsClean arrow_up found i c = kept i _ refl refl c
  command_key-IsClean arrow_down found i c = kept i _ refl refl c
  command_key-IsClean enter found i c = accept_command-IsClean _ i c
  command_key-IsClean shift_enter found i c = accept_command-IsClean _ i c
  command_key-IsClean tab found i c = accept_command-IsClean _ i c
  command_key-IsClean escape found i c = kept i _ refl refl c
  command_key-IsClean other found i c = c

  handle_key_down-IsClean :
      (key : Key) (i : Input) → IsClean i → IsClean (handle_key_down library key i)
  unfolding handle_key_down
  handle_key_down-IsClean key i c =
      elim (Bool-cases (ltb 0 (length (filtered_commands library i.slash_command)))) [
        | inl e ↦ rw e (command_key-IsClean key (filtered_commands library i.slash_command) i c)
        | inr e ↦ elim (Bool-cases (ltb 0 (length (filtered_agents library i)))) [
          | inl f ↦ rw (e, f) (mention_key-IsClean key (filtered_agents library i) i c)
          | inr f ↦ rw (e, f) (plain_key-IsClean key i c)
        ]
      ]

  finish-IsClean :
      (ended : Option (Command × Text)) (rest : List (Command × Text)) (reply : Reply) (i : Input)
      → IsClean i
      → IsClean (finish ended rest reply i)
  finish-IsClean none rest reply i c = c
  finish-IsClean (some (command, arg)) rest reply i c = kept i _ refl refl c

  step-IsClean : (i : Input) (e : Event) → IsClean i → IsClean (step library i e)
  unfolding step finish_command handle_change restore_failed
  step-IsClean i (changed value cursor) c = kept i _ (ground arith) (ground arith) c
  step-IsClean i (caret_moved from to) c = kept i _ refl refl c
  step-IsClean i (key_pressed key) c = handle_key_down-IsClean key i c
  step-IsClean i send_clicked c = handle_submit-IsClean i c
  step-IsClean i clicked_outside c = kept i _ refl refl c
  step-IsClean i feedback_timeout c = kept i _ refl refl c
  step-IsClean i (agent_hovered k) c = kept i _ (ground arith) (ground arith) c
  step-IsClean i (agent_pressed k) c = accept_agent-IsClean _ i c
  step-IsClean i (command_hovered k) c = kept i _ (ground arith) (ground arith) c
  step-IsClean i (command_pressed k) c = accept_command-IsClean _ i c
  step-IsClean i (command_replied k reply) c = finish-IsClean _ _ reply i c
  step-IsClean i (send_failed content nonce) c = kept i _ (ground arith) (ground arith) c
  step-IsClean i (pending_changed pending) c = kept i _ refl refl c
  step-IsClean i (agents_changed agents) c = kept i _ refl refl c

  -- Whatever happens to the box, no slash command and no empty text is ever sent or recorded in
  -- the history, if none was before.
  pub inputs-IsClean : (i : Input) (es : List Event) → IsClean i → IsClean (run library i es)
  unfolding run
  inputs-IsClean i [] c = c
  inputs-IsClean i (e ∷ es) c = inputs-IsClean (step library i e) es (step-IsClean i e c)
