-- ===== src/Tasks/Filtering.antt =====
-- What the filter of src/frontend/src/components/tasks/task-utils.ts keeps of a tree.
use soren.Base.{
  Bool, false, not, ◌||◌, ◌&&◌, List, [], ◌∷◌, ◌++◌, map, ◌≡◌, refl, if◌then◌else◌, any, filter,
  arith, Bool-cases, inl, inr, ap, ap₂, sym, ◌∙◌, Eq, ◌==◌, has, has-add,
}
use soren.Tasks.{
  TaskFields, Task, task, Tasks, no_tasks, cons, fields, flatten_tasks, has_some, filter_tasks,
  toggle_in_set,
}

-- Some task of the list passes.
abbrev pub some_passes : (TaskFields → Bool) → List Task → Bool
some_passes p ts = any (λ t. p (fields t)) ts

-- A task or one of its descendants passes.
abbrev pub subtree_passes : (TaskFields → Bool) → Task → Bool
subtree_passes p (task f cs) = p f || some_passes p (flatten_tasks cs)

any-append {ℓ} :
    {A : Type ℓ} (p : A → Bool) (xs ys : List A) → any p (xs ++ ys) ≡ (any p xs || any p ys)
any-append p [] ys = refl
any-append p (x ∷ xs) ys = ground (arith, any-append p xs ys)

filter-append {ℓ} :
    {A : Type ℓ} (p : A → Bool) (xs ys : List A) → filter p (xs ++ ys) ≡ filter p xs ++ filter p ys
filter-append p [] ys = refl
filter-append p (x ∷ xs) ys = ground (arith, filter-append p xs ys)

map-append {ℓ κ} :
    {A : Type ℓ} {B : Type κ} (f : A → B) (xs ys : List A) → map f (xs ++ ys) ≡ map f xs ++ map f ys
map-append f [] ys = refl
map-append f (x ∷ xs) ys = ap (◌∷◌ (f x)) (map-append f xs ys)

has_some-if :
    (b : Bool) (t : Task) (ts : Tasks) → has_some (if b then cons t ts else ts) ≡ (b || has_some ts)
has_some-if b t ts = ground arith

or_assoc : (a b c : Bool) → ((a || b) || c) ≡ (a || (b || c))
or_assoc a b c = ground arith

has_some-filter :
    (p : TaskFields → Bool) (ts : Tasks)
    → has_some (filter_tasks p ts) ≡ some_passes p (flatten_tasks ts)
unfolding filter_tasks flatten_tasks
has_some-filter p no_tasks = refl
has_some-filter p (cons (task f cs) rest) =
    rw
      (
        has_some-if (p f || has_some (filter_tasks p cs)) _ (filter_tasks p rest),
        has_some-filter p cs,
        has_some-filter p rest,
        any-append (λ t. p (fields t)) (flatten_tasks cs) (flatten_tasks rest),
      )
      (or_assoc (p f) (some_passes p (flatten_tasks cs)) (some_passes p (flatten_tasks rest)))

none_left : (ts : Tasks) → has_some ts ≡ false → ts ≡ no_tasks
none_left no_tasks h = refl
none_left (cons t ts) h = cc

or_right : (a b : Bool) → (a || b) ≡ false → b ≡ false
or_right a b h = ground arith

filter_tasks-cons :
    (p : TaskFields → Bool) (f : TaskFields) (cs rest : Tasks)
    → filter_tasks p (cons (task f cs) rest) ≡ (
        if subtree_passes p (task f cs)
        then cons (task f (filter_tasks p cs)) (filter_tasks p rest)
        else filter_tasks p rest)
unfolding filter_tasks
filter_tasks-cons p f cs rest = rw (has_some-filter p cs) refl

-- The filter keeps a task exactly if it or one of its descendants passes the test, and keeps them
-- in the order of the tree: flattened, what is left is the flattened tree without the others.
pub filter_tasks_lem :
    (p : TaskFields → Bool) (ts : Tasks)
    → map fields (flatten_tasks (filter_tasks p ts))
      ≡ map fields (filter (subtree_passes p) (flatten_tasks ts))
unfolding flatten_tasks
filter_tasks_lem p no_tasks = unfold filter_tasks in refl
filter_tasks_lem p (cons (task f cs) rest) =
    rw
      (
        filter_tasks-cons p f cs rest,
        filter-append (subtree_passes p) (flatten_tasks cs) (flatten_tasks rest),
      )
      (elim (Bool-cases (subtree_passes p (task f cs))) [
        | inl e ↦ rw e (
            ap (◌∷◌ f) (
              map-append fields (flatten_tasks (filter_tasks p cs))
                (flatten_tasks (filter_tasks p rest))
              ∙ ap₂ ◌++◌ (filter_tasks_lem p cs) (filter_tasks_lem p rest)
              ∙ sym (map-append fields (filter (subtree_passes p) (flatten_tasks cs)) _)))
        | inr e ↦
            let nothing : filter_tasks p cs ≡ no_tasks =
              none_left _ (has_some-filter p cs ∙ or_right (p f) _ e) in
            rw e (
              filter_tasks_lem p rest
              ∙ ap (λ l. l ++ map fields (filter (subtree_passes p) (flatten_tasks rest)))
                  (sym (ap (λ t. map fields (flatten_tasks t)) nothing) ∙ filter_tasks_lem p cs)
              ∙ sym (map-append fields (filter (subtree_passes p) (flatten_tasks cs)) _))
      ])

has-without {ℓ} :
    {A : Type ℓ} ⦃e : Eq A⦄ (set : List A) (value other : A)
    → has other (filter (λ x. not (x == value)) set) ≡ (not (value == other) && has other set)
has-without [] value other = ground arith
has-without ⦃e⦄ (x ∷ set) value other = ground (
  arith,
  e.equal_iff x value,
  e.equal_iff x other,
  e.equal_iff value other,
  has-without set value other,
)

-- A value that is toggled changes sides, and no other value does.
pub toggle_in_set_lem {ℓ} :
    {A : Type ℓ} ⦃e : Eq A⦄ (set : List A) (value other : A)
    → has other (toggle_in_set set value)
      ≡ (if value == other then not (has other set) else has other set)
unfolding toggle_in_set
toggle_in_set_lem ⦃e⦄ set value other = elim (Bool-cases (has value set)) [
  | inl h ↦ rw h (ground (arith, has-without set value other, e.equal_iff value other))
  | inr h ↦ rw h (ground (arith, has-add value other set, e.equal_iff value other))
]
