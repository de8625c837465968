-- ===== src/Input/Recall.antt =====
-- Recalling what was sent, in src/frontend/src/components/chat/ChatInput.tsx.
use soren.Base.{
  ℕ, zero, suc, ◌+◌, ◌-◌, ◌≤◌, ◌<◌, false, none, some, [], length, ◌≡◌, ap, ◌∙◌, arith, or_else,
}
use soren.Input.{Library, Input}
use soren.Input.Editing.{filtered_agents, filtered_commands}
use soren.Input.Keys.{
  Key, arrow_up, arrow_down, handle_key_down, history_up, history_down, show_message, get_elem?,
}

module _ (library : Library) where
  -- A key pressed so many times
  abbrev pub press : Key → ℕ → Input → Input
  press key zero i = i
  press key (suc n) i = press key n (handle_key_down library key i)

  -- The box while it shows the `k`-th message of the history
  abbrev pub browsing : ℕ → Input → Input
  browsing k i =
      show_message library (or_else (get_elem? k i.history) []) (some k)
        (record i { draft = i.message })

  -- The box with its draft again
  abbrev pub restored : Input → Input
  restored i = show_message library i.message none (record i { draft = i.message })

  module _ (i : Input) (no_mention : i.mention.active ≡ false)
      (no_command : i.slash_command.active ≡ false) where
    up_first :
        i.history_index ≡ none
        → i.selection_start ≡ 0
        → i.selection_end ≡ 0
        → 0 < length i.history
        → handle_key_down library arrow_up i ≡ browsing (length i.history - 1) i
    unfolding handle_key_down history_up filtered_agents filtered_commands
    up_first h a b l = ground (arith, no_mention, no_command, h)

    up_next :
        (k : ℕ)
        → suc k < length i.history
        → handle_key_down library arrow_up (browsing (suc k) i) ≡ browsing k i
    unfolding handle_key_down history_up filtered_agents filtered_commands
    up_next k l = ground (arith, no_mention, no_command)

    down_next :
        (k : ℕ)
        → suc k < length i.history
        → handle_key_down library arrow_down (browsing k i) ≡ browsing (suc k) i
    unfolding handle_key_down history_down filtered_agents filtered_commands
    down_next k l = ground (arith, no_mention, no_command)

    down_last :
        (k : ℕ)
        → suc k ≡ length i.history
        → handle_key_down library arrow_down (browsing k i) ≡ restored i
    unfolding handle_key_down history_down filtered_agents filtered_commands
    down_last k l = ground (arith, no_mention, no_command)

    ups :
        (n k : ℕ) → k + n < length i.history → press arrow_up n (browsing (k + n) i) ≡ browsing k i
    ups zero k l = ap (λ m. browsing m i) (omega arith)
    ups (suc n) k l =
        ap (λ m. press arrow_up (suc n) (browsing m i)) (omega arith)
        ∙ ap (press arrow_up n) (up_next (k + n) (omega arith))
        ∙ ups n k (omega arith)

    downs :
        (n k : ℕ)
        → k + suc n ≡ length i.history
        → press arrow_down (suc n) (browsing k i) ≡ restored i
    downs zero k l = down_last k (omega arith)
    downs (suc n) k l =
        ap (press arrow_down (suc n)) (down_next k (omega arith)) ∙ downs n (suc k) (omega arith)

    -- With both lists closed and the cursor at the start of a draft, n presses of the up key show
    -- the n-th newest message, for every n up to the length of the history, and n presses of the
    -- down key then restore the draft and leave the history.
    pub recall_lem :
        (n : ℕ)
        → suc n ≤ length i.history
        → i.history_index ≡ none
        → i.selection_start ≡ 0
        → i.selection_end ≡ 0
        → (press arrow_up (suc n) i ≡ browsing (length i.history - suc n) i)
          × (press arrow_down (suc n) (press arrow_up (suc n) i) ≡ restored i)
    recall_lem n l h a b = (
      up_all,
      ap (press arrow_down (suc n)) up_all ∙ downs n (length i.history - suc n) (omega arith),
    )
      where
        up_all : press arrow_up (suc n) i ≡ browsing (length i.history - suc n) i
        up_all =
            ap (press arrow_up n) (up_first h a b (omega arith))
            ∙ ap (λ m. press arrow_up n (browsing m i)) (omega arith)
            ∙ ups n (length i.history - suc n) (omega arith)
