-- ===== src/Bridge/Guard.antt =====
-- The hook `tool.execute.before` of .opencode/plugins/soren-bridge.ts: which tool calls an agent
-- may make. `blocked` stands for the thrown error, with the layer that throws it.
pub mod Paths
pub mod Edits
pub mod Verbs
pub mod Commands
use soren.Base.{
  Bool, not, ◌&&◌, ◌||◌, Option, [], ◌∷◌, ◌++◌, Text, codes, String, ◌==◌, text_Eq, nat_eq, or_else,
  if◌then◌else◌, includes, has,
}
use soren.Bridge.Regex.{
  Regex, unit, seq, either, maybe, many, start, finish, boundary, test, text, spaces, is_space,
  one_of,
}
use soren.Bridge.Settings.{
  Env, agent, override, worktree, soren_home, is_empty, not_empty, resolve_path,
  inside_live_checkout, is_protected_live_path, is_protected_worktree_path,
}
use soren.Bridge.Contracts.{Json, Disk, Cached, contract_forbids_protected}

pub record ToolCall : Type 0 where
  pub tool : Text
  -- `output.args?.filePath`, `output.args?.file_path`
  pub file_path_camel : Option Text
  pub file_path_snake : Option Text
  -- `output.args?.command`, `input.args?.command`
  pub output_command : Option Text
  pub input_command : Option Text

pub data Layer : Type 0 where
  worktree_jail protected_live contract_path supervisor_edit : Layer
  lifecycle protected_command contract_command : Layer

pub data Verdict : Type 0 where
  allowed : Verdict
  blocked : Layer → Verdict

-- /(^|\/)MEMORY\.md$/
abbrev pub memory_file : Regex
memory_file = seq (either start (text "/")) (seq (text "MEMORY.md") finish)

-- /reflection[^/]*\.md$/
abbrev pub reflection_file : Regex
reflection_file =
    seq (text "reflection") (seq (many (λ c. not (nat_eq c b'/'))) (seq (text ".md") finish))

unfoldable pub supervisor_may_edit : Text → Bool
unfolding test
supervisor_may_edit abs =
    includes (codes "/.soren/") abs
    || test memory_file abs
    || includes (codes "/memory/") abs
    || test reflection_file abs

-- /soren\.sh['"]?\s+(stop|restart)\b/
abbrev pub full_stack_lifecycle : Regex
full_stack_lifecycle = seq (text "soren.sh") (
    seq (maybe (unit (one_of (codes "'\""))))
      (seq spaces (seq (either (text "stop") (text "restart")) boundary)))

-- "?\$\{?SOREN_SESSION\}?"?|['"]?soren['"]?
abbrev pub main_session : Regex
main_session =
    either
      (seq (maybe (text "\"")) (
        seq (text "$") (
          seq (maybe (text "{"))
            (seq (text "SOREN_SESSION") (seq (maybe (text "}")) (maybe (text "\"")))))))
      (seq (maybe (unit (one_of (codes "'\""))))
        (seq (text "soren") (maybe (unit (one_of (codes "'\""))))))

-- /tmux\s+kill-session\s+-t\s+(…)($|[\s'";&|])/
abbrev pub kills_main_session : Regex
kills_main_session = seq (text "tmux") (
    seq spaces (
      seq (text "kill-session") (
        seq spaces (
          seq (text "-t") (
            seq spaces (
              seq main_session
                (either finish (unit (λ c. is_space c || one_of (codes "'\";&|") c)))))))))

abbrev pub space_after : String → Regex
space_after s = seq (text s) (unit is_space)

-- />>?|sed\s+-i|tee\s|mv\s|cp\s|rm\s|chmod\s|truncate\s|git\s+(checkout|restore)\s/
abbrev pub write_verb : Regex
write_verb = either (seq (text ">") (maybe (text ">"))) (
    either (seq (text "sed") (seq spaces (text "-i"))) (
      either (space_after "tee") (
        either (space_after "mv") (
          either (space_after "cp") (
            either (space_after "rm") (
              either (space_after "chmod") (
                either (space_after "truncate") (
                  seq (text "git") (
                    seq spaces
                      (seq (either (text "checkout") (text "restore")) (unit is_space)))))))))))

-- /(^|[\s|;&])(…)/
abbrev pub writey : Regex
writey = seq (either start (unit (λ c. is_space c || one_of (codes "|;&") c))) write_verb

-- /src\/orchestrator\/|\.opencode\/(plugins|hooks)\/|tools\/lib\/opencode\.sh|soren\.sh/
abbrev pub protected_name : Regex
protected_name = either (text "src/orchestrator/") (
    either (seq (text ".opencode/") (seq (either (text "plugins") (text "hooks")) (text "/")))
      (either (text "tools/lib/opencode.sh") (text "soren.sh")))

-- /(^|[\s\/'"=])(…)/
abbrev pub mentions_protected : Regex
mentions_protected =
    seq (either start (unit (λ c. is_space c || one_of (codes "/'\"=") c))) protected_name

-- Layer 3: the supervisor edits only its memory files.
unfoldable pub supervisor_layer : Env → Text → Verdict
supervisor_layer env abs =
    if agent env == codes "supervisor" && not (supervisor_may_edit abs)
    then blocked supervisor_edit
    else allowed

-- A hook returns the cache of contracts and what it decides.
abbrev pub Decision : Type 0
Decision = Option Cached × Verdict

module _ (parse : Text → Option Json) (env : Env) (cache : Option Cached) (disk : Disk) where
  -- The rule that asks the agent's contract: `blocked layer` if it forbids.
  unfoldable pub ask_contract : Layer → Verdict → Decision
  unfolding contract_forbids_protected
  ask_contract layer other =
      let (cache', forbids) = contract_forbids_protected parse cache disk (agent env) in
      (cache', if forbids then blocked layer else other)

  -- The branch for the tools that edit files.
  unfoldable pub guard_edit : Text → Decision
  guard_edit abs =
      if not_empty (worktree env) && not_empty abs && inside_live_checkout env abs
      then (cache, blocked worktree_jail)
      else if not_empty abs && is_protected_live_path env abs
      then (cache, blocked protected_live)
      else if not_empty abs && is_protected_worktree_path env abs
      then ask_contract contract_path (supervisor_layer env abs)
      else (cache, supervisor_layer env abs)

  -- The branch for `bash`.
  unfoldable pub guard_command : Text → Decision
  guard_command command =
      if is_empty command
      then (cache, allowed)
      else if test full_stack_lifecycle command || test kills_main_session command
      then (cache, blocked lifecycle)
      else if not (test writey command)
      then (cache, allowed)
      else if not (test mentions_protected command)
      then (cache, allowed)
      else if is_empty (worktree env) || includes (soren_home env ++ codes "/") command
      then (cache, blocked protected_command)
      else ask_contract contract_command allowed

  -- `tool.execute.before`
  unfoldable pub guard : ToolCall → Decision
  guard call =
      if override env
      then (cache, allowed)
      else if has call.tool (codes "edit" ∷ codes "write" ∷ codes "patch" ∷ [])
      then guard_edit
          (resolve_path env (or_else call.file_path_camel (or_else call.file_path_snake [])))
      else if call.tool == codes "bash"
      then guard_command (or_else call.output_command (or_else call.input_command []))
      else (cache, allowed)
