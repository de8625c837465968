-- ===== src/Bridge/Guard/Commands.antt =====
-- What the write guard of .opencode/plugins/soren-bridge.ts promises of shell commands.
use soren.Base.{
  ℕ, Bool, true, false, ◌||◌, Option, none, some, [], ◌∷◌, ◌++◌, Text, codes, ◌≡◌, refl, ◌↔◌, ◌⊎◌,
  inl, inr, text_Eq, or_else, includes, arith, All, In, ◌≢◌,
}
use soren.Bridge.Regex.{seq, either, text, boundary, test, is_space, word_after}
use soren.Bridge.Regex.Laws.{
  Matches, Occurs, test_iff, last_of, Matches-literal, Matches-many, of_seq, of_unit, of_none,
  of_left, of_right, of_boundary,
}
use soren.Bridge.Settings.{Env, override, worktree, soren_home, agent, is_empty}
use soren.Bridge.Contracts.{Json, Disk, Cached, contract_forbids_protected}
use soren.Bridge.Guard.{
  ToolCall, allowed, blocked, lifecycle, guard, guard_command, ask_contract, full_stack_lifecycle,
  kills_main_session, writey, mentions_protected,
}
use soren.Bridge.Guard.Verbs.{
  writing_verbs, protected_names, verb_separators, name_separators, StandsBehind, writey-test,
  mentions_protected-test,
}

abbrev pub named_command : ToolCall → Text
named_command call = or_else call.output_command (or_else call.input_command [])

verb-Matches :
    (verb after : Text) (b : Option ℕ)
    → (verb ≡ codes "stop") ⊎ (verb ≡ codes "restart")
    → word_after after ≡ false
    → Matches
        (seq (either (text "stop") (text "restart")) boundary)
        b
        (verb ++ after)
        (last_of b verb)
        after
verb-Matches verb after b (inl e) ends =
    rw e (of_seq (of_left (Matches-literal (codes "stop") b after)) (of_boundary (rw ends refl)))
verb-Matches verb after b (inr e) ends =
    rw e
      (of_seq (of_right (Matches-literal (codes "restart") b after)) (of_boundary (rw ends refl)))

lifecycle-Occurs :
    (before gap verb after : Text) (c : ℕ)
    → is_space c ≡ true
    → All (λ d. is_space d ≡ true) gap
    → (verb ≡ codes "stop") ⊎ (verb ≡ codes "restart")
    → word_after after ≡ false
    → Occurs full_stack_lifecycle none
        (before ++ (codes "soren.sh" ++ (c ∷ gap ++ (verb ++ after))))
lifecycle-Occurs before gap verb after c space gap_spaces stops ends = (
  before,
  codes "soren.sh" ++ (c ∷ gap ++ (verb ++ after)),
  _,
  after,
  refl,
  of_seq (Matches-literal (codes "soren.sh") _ _) (
      of_seq of_none (
        of_seq (of_seq (of_unit space) (Matches-many is_space gap (some c) _ gap_spaces))
          (verb-Matches verb after _ stops ends))),
)

contradicted :
    (writes mentions bare live forbidden : Bool)
    → writes ≡ true
    → mentions ≡ true
    → (bare ≡ true) ⊎ ((live ≡ true) ⊎ (forbidden ≡ true))
    → (writes ≡ false) ⊎ ((mentions ≡ false) ⊎ (((bare || live) ≡ false) × (forbidden ≡ false)))
    → ⊥
contradicted writes mentions bare live forbidden h k l m = ground arith

module _ (parse : Text → Option Json) (env : Env) (cache : Option Cached) (disk : Disk) where
  abbrev forbids : Bool
  forbids = (contract_forbids_protected parse cache disk (agent env)).1

  guard_of_command :
      (call : ToolCall)
      → override env ≡ false
      → call.tool ≡ codes "bash"
      → guard parse env cache disk call ≡ guard_command parse env cache disk (named_command call)
  unfolding guard
  guard_of_command call off tool = rw (off, tool) refl

  -- The tests by which a command is allowed.
  abbrev Passes : Bool → Bool → Bool → Bool → Bool → Bool → Type 0
  Passes stops kills writes mentions live forbidden =
      (stops ≡ false)
      × (kills ≡ false)
      × ((writes ≡ false) ⊎ ((mentions ≡ false) ⊎ ((live ≡ false) × (forbidden ≡ false))))

  -- The tests by which a command is allowed, of which the writing ones follow.
  guard_command_tests :
      (command : Text)
      → ((guard_command parse env cache disk command).1 ≡ allowed)
        ↔ Passes
            (test full_stack_lifecycle command)
            (test kills_main_session command)
            (test writey command)
            (test mentions_protected command)
            (is_empty (worktree env) || includes (soren_home env ++ codes "/") command)
            forbids
  unfolding guard_command ask_contract
  guard_command_tests [] = unfold test in ((λ h. (refl, refl, inl refl)), λ h. refl)
  guard_command_tests (c ∷ s) = ground arith

  -- With no override, no agent may run a bash command in which one of the verbs that write, behind
  -- a blank, a bar, a semicolon or an ampersand or at the start, and one of the protected names,
  -- behind a blank, a slash, a quote or an equals sign or at the start, stand anywhere, if it has
  -- no worktree, or the command writes the live checkout's path, or its contract forbids.
  pub guard_writes :
      (call : ToolCall) (before verb after before' name after' : Text)
      → override env ≡ false
      → call.tool ≡ codes "bash"
      → named_command call ≡ before ++ (verb ++ after)
      → named_command call ≡ before' ++ (name ++ after')
      → In verb writing_verbs
      → StandsBehind verb_separators before
      → In name protected_names
      → StandsBehind name_separators before'
      → (is_empty (worktree env) ≡ true)
        ⊎ ((includes (soren_home env ++ codes "/") (named_command call) ≡ true) ⊎ (forbids ≡ true))
      → (guard parse env cache disk call).1 ≢ allowed
  guard_writes call before verb after before' name after' off tool w m v sv n sn bad h =
      let command = named_command call in
      let (a, b, c) = (guard_command_tests command).0 (rw (guard_of_command call off tool) at h) in
      let writes : test writey command ≡ true = rw w (writey-test before verb after v sv) in
      let mentions : test mentions_protected command ≡ true =
        rw m (mentions_protected-test before' name after' n sn) in
      contradicted (test writey command) (test mentions_protected command) (is_empty (worktree env))
        (includes (soren_home env ++ codes "/") command) forbids writes mentions bad c

  guard_command_lifecycle :
      (command : Text)
      → test full_stack_lifecycle command ≡ true
      → (guard_command parse env cache disk command).1 ≡ blocked lifecycle
  unfolding guard_command
  guard_command_lifecycle [] h = unfold test in cc
  guard_command_lifecycle (d ∷ s) h = rw h refl

  -- With no override, no agent may run a bash command in which soren.sh is followed by white space
  -- and by stop or restart as a whole word, in whatever it stands and whatever the contracts say.
  pub guard_lifecycle :
      (call : ToolCall) (before gap verb after : Text) (c : ℕ)
      → override env ≡ false
      → call.tool ≡ codes "bash"
      → named_command call ≡ before ++ (codes "soren.sh" ++ (c ∷ gap ++ (verb ++ after)))
      → is_space c ≡ true
      → All (λ d. is_space d ≡ true) gap
      → (verb ≡ codes "stop") ⊎ (verb ≡ codes "restart")
      → word_after after ≡ false
      → (guard parse env cache disk call).1 ≡ blocked lifecycle
  guard_lifecycle call before gap verb after c off tool named space gap_spaces stops ends =
      rw (guard_of_command call off tool, named)
        (guard_command_lifecycle _ (
          (test_iff full_stack_lifecycle _).1
            (lifecycle-Occurs before gap verb after c space gap_spaces stops ends)))
