-- ===== src/Bridge/Settings.antt =====
-- The process environment that .opencode/plugins/soren-bridge.ts reads at load, the constants that
-- it derives, and how it places a path: in the live checkout, in the worktree, or elsewhere.
use soren.Base.{
  suc, Bool, true, false, not, ◌&&◌, ◌||◌, Option, none, some, List, [], ◌∷◌, ◌++◌, Text, codes,
  ◌==◌, text_Eq, nat_eq, or_else, if◌then◌else◌, starts_with, ends_with, strip_slash, length, drop,
  any,
}

-- The variables of `process.env`, `process.cwd()`, and the `directory` that the plugin is given.
pub record Env : Type 0 where
  pub agent_flag : Option Text
  pub agent_name : Option Text
  pub agent_role : Option Text
  pub home_dir : Option Text
  pub user_home : Option Text
  pub worktree_dir : Option Text
  pub override_flag : Option Text
  pub working_dir : Text
  pub directory : Option Text

abbrev pub defined_as : Option Text → Text → Bool
defined_as none t = false
defined_as (some s) t = s == t

abbrev pub is_empty : Text → Bool
is_empty [] = true
is_empty (c ∷ s) = false

abbrev pub not_empty : Text → Bool
not_empty s = not (is_empty s)

abbrev pub is_active : Env → Bool
is_active env = defined_as env.agent_flag (codes "true") && not_empty (or_else env.agent_name [])

abbrev pub agent : Env → Text
agent env = or_else env.agent_name (codes "unknown")

abbrev pub soren_home : Env → Text
soren_home env = or_else env.home_dir env.working_dir

abbrev pub is_supervisor : Env → Bool
is_supervisor env =
    (agent env == codes "supervisor")
    || starts_with (codes "sup-") (agent env)
    || starts_with (codes "supervisor-") (agent env)

abbrev pub is_permanent : Env → Bool
is_permanent env = starts_with (codes "perm-") (agent env)

abbrev pub worktree : Env → Text
worktree env = strip_slash (or_else env.worktree_dir [])

abbrev pub override : Env → Bool
override env = defined_as env.override_flag (codes "1")

abbrev pub protected_paths : List Text
protected_paths =
    codes "src/orchestrator/"
    ∷ codes ".opencode/plugins/"
    ∷ codes ".opencode/hooks/"
    ∷ codes "tools/lib/opencode.sh"
    ∷ codes "soren.sh"
    ∷ []

-- `cwdForResolve`, refined with the plugin's directory at init; an empty directory counts as none.
abbrev pub cwd_for_resolve : Env → Text
cwd_for_resolve env =
    let dir = or_else env.directory [] in if is_empty dir then soren_home env else strip_slash dir

-- `s.replace(/\/\.\//g, "/")`: what a match consumes is not read again.
pub drop_dots : Text → Text
drop_dots [] = []
drop_dots (a ∷ []) = a ∷ []
drop_dots (a ∷ b ∷ []) = a ∷ b ∷ []
drop_dots (a ∷ b ∷ c ∷ s) =
    let rest = a ∷ drop_dots (b ∷ c ∷ s) in
    let cut = b'/' ∷ drop_dots s in
    if nat_eq a b'/' && nat_eq b b'.' && nat_eq c b'/' then cut else rest

-- `resolvePath`
unfoldable pub resolve_path : Env → Text → Text
unfolding drop_dots
resolve_path env p =
    if is_empty p
    then []
    else if starts_with (codes "/") p
    then p
    else if starts_with (codes "~/") p
    then or_else env.user_home [] ++ codes "/" ++ drop 2 p
    else drop_dots (cwd_for_resolve env ++ codes "/" ++ p)

-- One entry of `PROTECTED_PATHS`: a trailing slash means the subtree.
abbrev pub covers : Text → Text → Bool
covers rel p = if ends_with (codes "/") p then starts_with p rel else rel == p

unfoldable pub is_protected : Text → Bool
is_protected rel = any (covers rel) protected_paths

-- `isProtectedWorktreePath`
unfoldable pub is_protected_worktree_path : Env → Text → Bool
is_protected_worktree_path env abs =
    if is_empty (worktree env) || not (starts_with (worktree env ++ codes "/") abs)
    then false
    else is_protected (drop (suc (length (worktree env))) abs)

-- `insideLiveCheckout`
unfoldable pub inside_live_checkout : Env → Text → Bool
inside_live_checkout env abs =
    if not (starts_with (soren_home env ++ codes "/") abs) && not (abs == soren_home env)
    then false
    else if starts_with (soren_home env ++ codes "/.soren/") abs
    then false
    else if not_empty (worktree env)
        && (abs == worktree env || starts_with (worktree env ++ codes "/") abs)
    then false
    else true

-- `relToHome`
unfoldable pub rel_to_home : Env → Text → Text
rel_to_home env abs =
    if starts_with (soren_home env ++ codes "/") abs
    then drop (suc (length (soren_home env))) abs
    else abs

-- `isProtectedLivePath`
unfoldable pub is_protected_live_path : Env → Text → Bool
is_protected_live_path env abs =
    if not (inside_live_checkout env abs) then false else is_protected (rel_to_home env abs)
