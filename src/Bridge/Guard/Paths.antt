-- ===== src/Bridge/Guard/Paths.antt =====
-- How the tests on paths of .opencode/plugins/soren-bridge.ts place a path that is written as a
-- directory and what lies below it.
use soren.Base.{
  suc, Bool, true, false, ◌&&◌, ◌||◌, List, [], ◌∷◌, ◌++◌, Text, codes, ◌≡◌, refl, ◌≢◌, ◌==◌,
  text_Eq, text_eq_iff, or_else, if◌then◌else◌, starts_with, starts_with-append, starts_with_split,
  starts_with-append_both, arith, length, drop, Bool-cases, inl, inr, append_assoc,
}
use soren.Bridge.Settings.{
  Env, agent, worktree, soren_home, not_empty, resolve_path, is_protected, inside_live_checkout,
  rel_to_home, is_protected_live_path, is_protected_worktree_path,
}
use soren.Bridge.Guard.{ToolCall, allowed, supervisor_layer}

abbrev pub edit_tools : List Text
edit_tools = codes "edit" ∷ codes "write" ∷ codes "patch" ∷ []

-- The path that a call names: `filePath`, else `file_path`, else nothing.
abbrev pub named_path : ToolCall → Text
named_path call = or_else call.file_path_camel (or_else call.file_path_snake [])

-- `abs` lies in the agent's worktree.
abbrev pub in_worktree : Env → Text → Bool
in_worktree env abs =
    not_empty (worktree env) && (abs == worktree env || starts_with (worktree env ++ codes "/") abs)

-- A path under the runtime directory is not protected.
pub runtime-not_protected :
    (rel : Text) → starts_with (codes ".soren/") rel ≡ true → is_protected rel ≡ false
unfolding is_protected
runtime-not_protected rel h = let (t, e) = starts_with_split (codes ".soren/") rel h in rw e refl

pub protected-not_runtime :
    (rel : Text) → is_protected rel ≡ true → starts_with (codes ".soren/") rel ≡ false
protected-not_runtime rel h = elim (Bool-cases (starts_with (codes ".soren/") rel)) [
  | inl e ↦ cc (runtime-not_protected rel e)
  | inr e ↦ e
]

-- `home + "/" + rel`
abbrev pub below : Text → Text → Text
below dir rel = dir ++ codes "/" ++ rel

pub drop-below : (dir rel : Text) → drop (suc (length dir)) (below dir rel) ≡ rel
drop-below [] rel = refl
drop-below (c ∷ dir) rel = drop-below dir rel

pub starts_below :
    (dir p rel : Text) → starts_with (below dir p) (below dir rel) ≡ starts_with p rel
starts_below dir p rel =
    rw (append_assoc, append_assoc)
      (starts_with-append_both dir (codes "/" ++ p) (codes "/" ++ rel))

pub not_empty-below : (dir rel : Text) → not_empty (below dir rel) ≡ true
not_empty-below [] rel = refl
not_empty-below (c ∷ dir) rel = refl

pub rel_to_home-below :
    (env : Env) (rel : Text) → rel_to_home env (below (soren_home env) rel) ≡ rel
unfolding rel_to_home
rel_to_home-below env rel =
    rw (starts_with-append (soren_home env ++ codes "/") rel) (drop-below (soren_home env) rel)

pub runtime_below :
    (dir rel : Text)
    → starts_with (dir ++ codes "/.soren/") (below dir rel) ≡ starts_with (codes ".soren/") rel
runtime_below dir rel =
    rw append_assoc (starts_with-append_both dir (codes "/.soren/") (codes "/" ++ rel))

pub inside_live_below :
    (env : Env) (rel : Text)
    → starts_with (codes ".soren/") rel ≡ false
    → in_worktree env (below (soren_home env) rel) ≡ false
    → inside_live_checkout env (below (soren_home env) rel) ≡ true
unfolding inside_live_checkout
inside_live_below env rel h k =
    rw (
      starts_with-append (soren_home env ++ codes "/") rel,
      runtime_below (soren_home env) rel,
      h,
      k,
    )

-- The path is absolute, so resolving changes nothing.
pub starts_slash :
    (s t : Text) → starts_with (codes "/") s ≡ true → starts_with (codes "/") (s ++ t) ≡ true
starts_slash [] t h = cc
starts_slash (c ∷ s) t h = ground arith

pub resolve_absolute :
    (env : Env) (p : Text) → starts_with (codes "/") p ≡ true → resolve_path env p ≡ p
unfolding resolve_path
resolve_absolute env [] h = refl
resolve_absolute env (c ∷ p) h = rw h

pub protected_live_of_live :
    (env : Env) (abs : Text)
    → inside_live_checkout env abs ≡ true
    → is_protected_live_path env abs ≡ is_protected (rel_to_home env abs)
unfolding is_protected_live_path
protected_live_of_live env abs h = rw h refl

pub protected_worktree_of_empty :
    (env : Env) (abs : Text)
    → not_empty (worktree env) ≡ false
    → is_protected_worktree_path env abs ≡ false
unfolding is_protected_worktree_path
protected_worktree_of_empty env abs h = ground arith

pub if-snd {ℓ κ} :
    {A : Type ℓ} {B : Type κ} (b : Bool) (a : A) (x y : B)
    → (if◌then◌else◌ {A = A × B} b (a, x) (a, y)).1 ≡ (if b then x else y)
if-snd true a x y = refl
if-snd false a x y = refl

-- A path in the worktree is not in the live checkout, wherever the worktree lies.
pub inside_live_of_worktree :
    (env : Env) (abs : Text) → in_worktree env abs ≡ true → inside_live_checkout env abs ≡ false
unfolding inside_live_checkout
inside_live_of_worktree env abs h = ground arith

pub inside_live_of_runtime :
    (env : Env) (rel : Text)
    → starts_with (codes ".soren/") rel ≡ true
    → inside_live_checkout env (below (soren_home env) rel) ≡ false
unfolding inside_live_checkout
inside_live_of_runtime env rel h =
    rw (starts_with-append (soren_home env ++ codes "/") rel, runtime_below (soren_home env) rel, h)
      refl

pub protected_live_of_outside :
    (env : Env) (abs : Text)
    → inside_live_checkout env abs ≡ false
    → is_protected_live_path env abs ≡ false
unfolding is_protected_live_path
protected_live_of_outside env abs h = rw h refl

pub protected_worktree-below :
    (env : Env) (rel : Text)
    → not_empty (worktree env) ≡ true
    → is_protected_worktree_path env (below (worktree env) rel) ≡ is_protected rel
unfolding is_protected_worktree_path
protected_worktree-below env rel h =
    rw (starts_with-append (worktree env ++ codes "/") rel, drop-below (worktree env) rel)
      (ground arith)

pub protected_worktree_of_outside :
    (env : Env) (abs : Text)
    → in_worktree env abs ≡ false
    → is_protected_worktree_path env abs ≡ false
unfolding is_protected_worktree_path
protected_worktree_of_outside env abs h = ground arith

pub supervisor_layer_of_other :
    (env : Env) (abs : Text) → agent env ≢ codes "supervisor" → supervisor_layer env abs ≡ allowed
unfolding supervisor_layer
supervisor_layer_of_other env abs h = elim (Bool-cases (agent env == codes "supervisor")) [
  | inl e ↦ absurd (h ((text_eq_iff (agent env) (codes "supervisor")).0 e))
  | inr e ↦ rw e refl
]
