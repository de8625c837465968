-- ===== src/Input/Invariant.antt =====
-- What holds of the box of src/frontend/src/components/chat/ChatInput.tsx after any events.
use soren.Base.{
  ℕ, suc, ◌-◌, ◌≤◌, Bool, true, false, not, ◌&&◌, ◌||◌, Option, none, some, List, [], ◌∷◌, ◌++◌,
  Text, length, length-append, length-drop, drop, nat_eq, ltb, leb, is_some, text_Eq, ◌==◌, ◌≡◌,
  refl, arith, Bool-cases, inl, inr,
}
use soren.Chat.Collapse.{trim}
use soren.Input.{Library, Command, Input, SlashCommand, match_slash_command, is_empty}
use soren.Input.Editing.{filtered_commands}
use soren.Input.Keys.{
  handle_submit, run_or_send, send, record_sent, push_history, is_last, last_of, history_up,
  newer_or_stay, older,
}

-- No message stands twice in a row.
abbrev pub no_repeat : List Text → Bool
no_repeat [] = true
no_repeat (s ∷ []) = true
no_repeat (s ∷ r ∷ h) = not (s == r) && no_repeat (r ∷ h)

no_repeat-append :
    (h : List Text) (s : Text)
    → no_repeat h ≡ true
    → is_last (last_of h) s ≡ false
    → no_repeat (h ++ s ∷ []) ≡ true
no_repeat-append [] s k l = refl
no_repeat-append (r ∷ []) s k l = ground arith
no_repeat-append (r ∷ q ∷ h) s k l = ground (arith, no_repeat-append (q ∷ h) s)

no_repeat-drop : (h : List Text) → no_repeat h ≡ true → no_repeat (drop 1 h) ≡ true
no_repeat-drop [] k = refl
no_repeat-drop (s ∷ []) k = refl
no_repeat-drop (s ∷ r ∷ h) k = ground arith

push_history-no_repeat :
    (h : List Text) (s : Text)
    → no_repeat h ≡ true
    → is_last (last_of h) s ≡ false
    → no_repeat (push_history s h) ≡ true
push_history-no_repeat h s k l =
    ground (arith, no_repeat-append h s k l, no_repeat-drop (h ++ s ∷ []))

length-push_history : (h : List Text) (s : Text) → length h ≤ 50 → length (push_history s h) ≤ 50
length-push_history h s k = ground (arith, length-append h (s ∷ []), length-drop 1 (h ++ s ∷ []))

-- An index into the history, if there is one, is in range.
abbrev pub in_range : Option ℕ → ℕ → Bool
in_range none n = true
in_range (some k) n = ltb k n

-- A selection is the first entry or one that is shown.
abbrev pub is_selectable : ℕ → ℕ → Bool
is_selectable k n = nat_eq k 0 || ltb k n

pub record IsValid (library : Library) (i : Input) : Type 0 where
  pub bounded : length i.history ≤ 50
  pub distinct : no_repeat i.history ≡ true
  pub index_ok : in_range i.history_index (length i.history) ≡ true
  pub command_ok :
      (not i.slash_command.active
        || is_selectable i.slash_command.selected_index
            (length (filtered_commands library i.slash_command)))
      ≡ true

module _ (library : Library) where
  -- The invariant reads three fields.
  pub Same-IsValid :
      (i j : Input)
      → j.history ≡ i.history
      → j.history_index ≡ i.history_index
      → j.slash_command ≡ i.slash_command
      → IsValid library i
      → IsValid library j
  Same-IsValid i j h k s v = record {
    bounded = rw h v.bounded;
    distinct = rw h v.distinct;
    index_ok = rw (h, k) v.index_ok;
    command_ok = rw s v.command_ok;
  }

  -- A new place in the history
  pub index-IsValid :
      (i : Input) (k : Option ℕ)
      → in_range k (length i.history) ≡ true
      → IsValid library i
      → IsValid library (record i { history_index = k })
  index-IsValid i k h v = record {
    bounded = v.bounded;
    distinct = v.distinct;
    index_ok = h;
    command_ok = v.command_ok;
  }

  -- Another list of commands, or another choice in it
  pub command-IsValid :
      (i : Input) (s : SlashCommand)
      → (not s.active || is_selectable s.selected_index (length (filtered_commands library s)))
        ≡ true
      → IsValid library i
      → IsValid library (record i { slash_command = s })
  command-IsValid i s h v = record {
    bounded = v.bounded;
    distinct = v.distinct;
    index_ok = v.index_ok;
    command_ok = h;
  }

  record_sent-history :
      (s : Text) (i : Input)
      → length i.history ≤ 50
      → no_repeat i.history ≡ true
      → (length (record_sent library s i).history ≤ 50)
        × (no_repeat (record_sent library s i).history ≡ true)
        × ((record_sent library s i).slash_command ≡ i.slash_command)
  record_sent-history s i b d =
      ground (arith, length-push_history i.history s, push_history-no_repeat i.history s)

  send-IsValid : (s : Text) (i : Input) → IsValid library i → IsValid library (send library s i)
  send-IsValid s i v =
      let h = record_sent-history s (record i { sent = i.sent ++ s ∷ [] }) v.bounded v.distinct in
      record { bounded = h.0; distinct = h.1; index_ok = refl; command_ok = rw (h.2) v.command_ok }

  run_or_send-IsValid :
      (m : Option (Command × Text)) (s : Text) (i : Input)
      → IsValid library i
      → IsValid library (run_or_send library m s i)
  run_or_send-IsValid none s i v = send-IsValid s i v
  run_or_send-IsValid (some (c, arg)) s i v = Same-IsValid i _ refl refl refl v

  pub handle_submit-IsValid :
      (i : Input) → IsValid library i → IsValid library (handle_submit library i)
  unfolding handle_submit
  handle_submit-IsValid i v = elim (Bool-cases (is_empty (trim i.message) || i.is_pending)) [
    | inl e ↦ rw e v
    | inr e ↦ rw e (run_or_send-IsValid (match_slash_command (trim i.message)) (trim i.message) i v)
  ]

  older-in_range :
      (k : Option ℕ) (n : ℕ)
      → in_range k n ≡ true
      → ltb 0 n ≡ true
      → ltb (older library k n) n ≡ true
  older-in_range none n h z = ground arith
  older-in_range (some k) n h z = ground arith

  pub history_up-IsValid : (i : Input) → IsValid library i → IsValid library (history_up library i)
  unfolding history_up
  history_up-IsValid i v = elim (Bool-cases (ltb 0 (length i.history))) [
    | inl z ↦
        elim (Bool-cases
          (is_some i.history_index || nat_eq i.selection_start 0 && nat_eq i.selection_end 0)) [
            | inl e ↦
                rw (e, z)
                  (Same-IsValid
                    (record i {
                      history_index = some (older library i.history_index (length i.history));
                    })
                    _ refl refl refl
                    (index-IsValid i _
                      (older-in_range i.history_index (length i.history) v.index_ok z) v))
            | inr e ↦ rw e v
          ]
    | inr z ↦ Same-IsValid i _ (ground arith) (ground arith) (ground arith) v
  ]

  pub newer-IsValid :
      (k : Option ℕ) (i : Input) → IsValid library i → IsValid library (newer_or_stay library k i)
  newer-IsValid none i v = v
  newer-IsValid (some k) i v = elim (Bool-cases (leb (length i.history - 1) k)) [
    | inl e ↦ rw e (
        Same-IsValid (record i { history_index = none }) _ refl refl refl
          (index-IsValid i none refl v))
    | inr e ↦ rw e (
        Same-IsValid (record i { history_index = some (suc k) }) _ refl refl refl
          (index-IsValid i (some (suc k)) (ground arith) v))
  ]
