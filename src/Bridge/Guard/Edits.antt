-- ===== src/Bridge/Guard/Edits.antt =====
-- What the write guard of .opencode/plugins/soren-bridge.ts promises of the tools edit, write and
-- patch: paths in the live checkout, in the worktree, and with `..` in them.
use soren.Base.{
  Bool, true, false, ◌&&◌, Option, ◌++◌, Text, codes, ◌≡◌, refl, ◌≢◌, text_Eq, if◌then◌else◌,
  starts_with, starts_with-append, has, arith, Bool-cases, inl, inr,
}
use soren.Bridge.Settings.{
  Env, agent, override, worktree, soren_home, not_empty, is_protected, inside_live_checkout,
  rel_to_home, is_protected_worktree_path,
}
use soren.Bridge.Contracts.{Json, Disk, Cached, contract_forbids_protected}
use soren.Bridge.Guard.{
  ToolCall, allowed, blocked, worktree_jail, protected_live, contract_path, guard, guard_edit,
  supervisor_layer, ask_contract,
}
use soren.Bridge.Guard.Paths.{
  edit_tools, named_path, in_worktree, below, not_empty-below, rel_to_home-below, inside_live_below,
  starts_slash, resolve_absolute, protected_live_of_live, protected_worktree_of_empty, if-snd,
  inside_live_of_worktree, inside_live_of_runtime, protected_live_of_outside,
  protected_worktree-below, protected_worktree_of_outside, supervisor_layer_of_other,
}

module _ (parse : Text → Option Json) (env : Env) (cache : Option Cached) (disk : Disk) where
  -- A call of an editing tool at an absolute path is judged by that path.
  guard_of_path :
      (call : ToolCall) (abs : Text)
      → override env ≡ false
      → has call.tool edit_tools ≡ true
      → named_path call ≡ abs
      → starts_with (codes "/") abs ≡ true
      → guard parse env cache disk call ≡ guard_edit parse env cache disk abs
  unfolding guard
  guard_of_path call abs off tool path absolute =
      rw (off, tool, path, resolve_absolute env abs absolute) refl

  guard_edit_live :
      (abs : Text)
      → not_empty abs ≡ true
      → inside_live_checkout env abs ≡ true
      → (guard_edit parse env cache disk abs).1 ≡ (
          if not_empty (worktree env)
          then blocked worktree_jail
          else if is_protected (rel_to_home env abs)
          then blocked protected_live
          else supervisor_layer env abs)
  unfolding guard_edit
  guard_edit_live abs some_path live = elim (Bool-cases (not_empty (worktree env))) [
    | inl set ↦ rw (set, some_path, live) refl
    | inr unset ↦
        rw
          (
            unset,
            some_path,
            protected_live_of_live env abs live,
            protected_worktree_of_empty env abs unset,
          )
          (if-snd (is_protected (rel_to_home env abs)) cache (blocked protected_live)
            (supervisor_layer env abs))
  ]

  -- With no override, a call of edit, write or patch at an absolute path in the live checkout,
  -- outside the runtime directory and the agent's worktree, is blocked by the worktree jail if the
  -- agent has a worktree, else as protected if the path is protected, and else only by the rule
  -- for the supervisor, whatever the contracts and the cache are.
  pub guard_live :
      (call : ToolCall) (rel : Text)
      → override env ≡ false
      → has call.tool edit_tools ≡ true
      → starts_with (codes "/") (soren_home env) ≡ true
      → named_path call ≡ below (soren_home env) rel
      → starts_with (codes ".soren/") rel ≡ false
      → in_worktree env (below (soren_home env) rel) ≡ false
      → (guard parse env cache disk call).1 ≡ (
          if not_empty (worktree env)
          then blocked worktree_jail
          else if is_protected rel
          then blocked protected_live
          else supervisor_layer env (below (soren_home env) rel))
  guard_live call rel off tool absolute path runtime outside =
      rw
        (
          guard_of_path call (below (soren_home env) rel) off tool path (
              starts_slash (soren_home env ++ codes "/") rel
                (starts_slash (soren_home env) (codes "/") absolute)),
          guard_edit_live (below (soren_home env) rel) (not_empty-below (soren_home env) rel)
              (inside_live_below env rel runtime outside),
          rel_to_home-below env rel,
        )
        refl

  -- What the compiled contract says of the agent.
  abbrev pub forbids : Bool
  forbids = (contract_forbids_protected parse cache disk (agent env)).1

  guard_edit_outside :
      (abs : Text)
      → not_empty abs ≡ true
      → inside_live_checkout env abs ≡ false
      → (guard_edit parse env cache disk abs).1 ≡ (
          if is_protected_worktree_path env abs && forbids
          then blocked contract_path
          else supervisor_layer env abs)
  unfolding guard_edit ask_contract
  guard_edit_outside abs some_path outside =
      rw (some_path, outside, protected_live_of_outside env abs outside) (ground arith)

  -- With no override, a call of edit, write or patch at an absolute path of the agent's worktree
  -- is never jailed and never blocked as live: it is blocked exactly when the path is protected
  -- and the agent's contract forbids such paths, and else only the rule for the supervisor is
  -- left.
  pub guard-worktree :
      (call : ToolCall) (rel : Text)
      → override env ≡ false
      → has call.tool edit_tools ≡ true
      → not_empty (worktree env) ≡ true
      → starts_with (codes "/") (worktree env) ≡ true
      → named_path call ≡ below (worktree env) rel
      → (guard parse env cache disk call).1 ≡ (
          if is_protected rel && forbids
          then blocked contract_path
          else supervisor_layer env (below (worktree env) rel))
  guard-worktree call rel off tool set absolute path =
      rw
        (
          guard_of_path call (below (worktree env) rel) off tool path (
              starts_slash (worktree env ++ codes "/") rel
                (starts_slash (worktree env) (codes "/") absolute)),
          guard_edit_outside (below (worktree env) rel) (not_empty-below (worktree env) rel) (
              inside_live_of_worktree env (below (worktree env) rel)
                (rw (set, starts_with-append (worktree env ++ codes "/") rel) (ground arith))),
          protected_worktree-below env rel set,
        )
        refl

  -- The guard compares texts and does not resolve '..': with no override, an agent that is not the
  -- supervisor may edit any path of the live checkout that it spells through the runtime directory
  -- and that is not spelled below its worktree, protected or not, jailed or not.
  pub guard_escape :
      (call : ToolCall) (rel : Text)
      → override env ≡ false
      → has call.tool edit_tools ≡ true
      → starts_with (codes "/") (soren_home env) ≡ true
      → named_path call ≡ below (soren_home env) (codes ".soren/../" ++ rel)
      → in_worktree env (below (soren_home env) (codes ".soren/../" ++ rel)) ≡ false
      → agent env ≢ codes "supervisor"
      → (guard parse env cache disk call).1 ≡ allowed
  guard_escape call rel off tool absolute path outside other =
      let spelled : Text = codes ".soren/../" ++ rel in
      rw
        (
          guard_of_path call (below (soren_home env) spelled) off tool path (
              starts_slash (soren_home env ++ codes "/") spelled
                (starts_slash (soren_home env) (codes "/") absolute)),
          guard_edit_outside (below (soren_home env) spelled)
              (not_empty-below (soren_home env) spelled) (inside_live_of_runtime env spelled refl),
          protected_worktree_of_outside env (below (soren_home env) spelled) outside,
        )
        (supervisor_layer_of_other env (below (soren_home env) spelled) other)
