-- ===== src/Shortcuts/Cycling.antt =====
-- Going through the agents with j and k, in src/frontend/src/hooks/useKeyboardShortcuts.ts.
use native.Mathlib.Nat.{mod-add-mod, mod-eq_of_lt, add-mod_right}
use soren.Base.{
  ℕ, zero, suc, ◌+◌, ◌-◌, ◌%◌, ◌<◌, Bool, true, false, Option, none, some, List, [], ◌∷◌, Text,
  codes, ◌≡◌, refl, sym, ap, ◌∙◌, arith, Distinct, has, length, text_Eq, or_else, if◌then◌else◌,
  mod_bound,
}
use soren.Input.Keys.{get_elem?}
use soren.Navigation.{Urls, route_agent, route_agent_id}
use soren.Shortcuts.{
  KeyboardEvent, Effect, navigate, prevent_default, focus_filter, Shortcuts, Prefix, index_from,
  index_of, next_index, on_key_down, sequence, single_key, after_sequence, move, go_to,
  is_typing_target, Target,
}

has-get_elem? : (i : ℕ) (x : Text) (ids : List Text) → get_elem? i ids ≡ some x → has x ids ≡ true
has-get_elem? i x [] h = ground (arith, h)
has-get_elem? zero x (y ∷ ids) h = ground (arith, h, text_Eq.equal_iff y x)
has-get_elem? (suc i) x (y ∷ ids) h = ground (arith, has-get_elem? i x ids h)

index_from-get_elem? :
    (i n : ℕ) (x : Text) (ids : List Text)
    → Distinct ids
    → get_elem? i ids ≡ some x
    → index_from n x ids ≡ some (n + i)
index_from-get_elem? i n x [] d h = ground (arith, h)
index_from-get_elem? zero n x (y ∷ ids) d h = ground (arith, h, text_Eq.equal_iff y x)
index_from-get_elem? (suc i) n x (y ∷ ids) d h = ground (
  arith,
  d.0,
  text_Eq.equal_iff y x,
  has-get_elem? i x ids h,
  index_from-get_elem? i (suc n) x ids d.1 h,
)

get_elem?-bound : (i : ℕ) (x : Text) (ids : List Text) → get_elem? i ids ≡ some x → i < length ids
get_elem?-bound i x [] h = ground (arith, h)
get_elem?-bound zero x (y ∷ ids) h = omega arith
get_elem?-bound (suc i) x (y ∷ ids) h = ground (arith, get_elem?-bound i x ids h)

get_elem?-total :
    (i : ℕ) (ids : List Text) → i < length ids → (x : Text) × (get_elem? i ids ≡ some x)
get_elem?-total i [] h = ground (arith, h)
get_elem?-total zero (y ∷ ids) h = (y, refl)
get_elem?-total (suc i) (y ∷ ids) h = get_elem?-total i ids (omega arith)

abbrev pub letter : Bool → Text
letter forward = if forward then codes "j" else codes "k"

no_sequence :
    (forward : Bool) (p : Option Prefix) (now : ℕ) → sequence p (letter forward) now ≡ none
no_sequence true none now = refl
no_sequence false none now = refl
no_sequence true (some p) now = ground arith
no_sequence false (some p) now = ground arith

-- A plain press of one of the two letters
abbrev pub press : Option Target → Bool → ℕ → KeyboardEvent
press target forward now = record {
  key = letter forward;
  meta_key = false;
  ctrl_key = false;
  alt_key = false;
  target = target;
  dialog_open = false;
  now = now;
}

-- The positions that presses move by, going back being going forward by all but one
abbrev pub moves : ℕ → List (Bool × ℕ) → ℕ
moves n [] = 0
moves n ((forward, now) ∷ presses) = (if forward then 1 else n - 1) + moves n presses

-- Where the effects lead from a path
abbrev pub visit : List Effect → Text → Text
visit [] path = path
visit (navigate to ∷ effects) path = visit effects to
visit (prevent_default ∷ effects) path = visit effects path
visit (focus_filter ∷ effects) path = visit effects path

move-filled :
    (urls : Urls) (current : Option Text) (ids : List Text) (forward : Bool) (i : ℕ)
    → index_of current ids ≡ some i
    → 0 < length ids
    → move urls current ids forward
      ≡ prevent_default
        ∷ go_to (
            route_agent urls (
              or_else
                (get_elem? (next_index forward (some i) (length ids)) ids)
                (codes "undefined")))
move-filled urls current [] forward i h l = ground (arith, l)
move-filled urls current (a ∷ ids) forward i h l = rw h refl

-- The route of an agent, which has an id, is read back as its id.
abbrev pub IsAddressable : Urls → Text → Type 0
IsAddressable urls id =
    (0 < length id)
    × (url : Text) × (route_agent urls id ≡ some url)
    × (route_agent_id urls url ≡ some (some id))

module _ (urls : Urls) (ids : List Text) (target : Option Target) where
  -- Presses, each while the path that the one before led to is shown
  abbrev pub walk : List (Bool × ℕ) → Shortcuts → Text → Text
  walk [] s path = path
  walk ((forward, now) ∷ presses) s path =
      let done =
        on_key_down urls (or_else (route_agent_id urls path) none) ids (press target forward now)
          s in
      walk presses done.0 (visit done.1 path)

  move_lem :
      (current : Option Text) (forward : Bool) (now : ℕ) (s : Shortcuts)
      → is_typing_target target ≡ false
      → (on_key_down urls current ids (press target forward now) s).1
        ≡ move urls current ids forward
  unfolding on_key_down after_sequence single_key
  move_lem current true now s h = rw h (rw (no_sequence true s.pending_prefix now) refl)
  move_lem current false now s h = rw h (rw (no_sequence false s.pending_prefix now) refl)

  module _ (distinct : Distinct ids)
      (addressable : (i : ℕ) (id : Text) → get_elem? i ids ≡ some id → IsAddressable urls id)
      (elsewhere : is_typing_target target ≡ false) where
    index_of-get_elem? :
        (i : ℕ) (id : Text) → get_elem? i ids ≡ some id → index_of (some id) ids ≡ some i
    index_of-get_elem? i [] h = ground (arith, addressable i [] h)
    index_of-get_elem? i (c ∷ id) h =
        index_from-get_elem? i 0 (c ∷ id) ids distinct h ∙ ap some (omega arith)

    next_index_lem :
        (forward : Bool) (i n : ℕ)
        → 0 < n
        → next_index forward (some i) n ≡ (i + (if forward then 1 else n - 1)) % n
    next_index_lem true i n h = add-mod_right (i + 1) n
    next_index_lem false i n h = ap (λ m. m % n) (omega arith)

    abbrev pressed : Bool → ℕ → Shortcuts → Text → Shortcuts × List Effect
    pressed forward now s path =
        on_key_down urls (or_else (route_agent_id urls path) none) ids (press target forward now) s

    -- One press leads to the route of the agent that it goes to.
    press_lem :
        (forward : Bool) (now : ℕ) (s : Shortcuts) (i : ℕ) (id path : Text)
        → get_elem? i ids ≡ some id
        → route_agent_id urls path ≡ some (some id)
        → (next url : Text) × (get_elem?
              ((i + (if forward then 1 else length ids - 1)) % length ids)
              ids
            ≡ some next)
          × ((pressed forward now s path).1 ≡ prevent_default ∷ navigate url ∷ [])
          × (route_agent_id urls url ≡ some (some next))
    press_lem forward now s i id path h r = (found.0, reached.1, found.1, effects, reached.3)
      where
        filled : 0 < length ids
        filled = ground (arith, get_elem?-bound i id ids h)

        found :
            (next : Text) × (get_elem?
                ((i + (if forward then 1 else length ids - 1)) % length ids)
                ids
              ≡ some next)
        found =
            get_elem?-total ((i + (if forward then 1 else length ids - 1)) % length ids) ids
              (mod_bound (i + (if forward then 1 else length ids - 1)) (length ids) filled)

        reached : IsAddressable urls found.0
        reached =
            addressable ((i + (if forward then 1 else length ids - 1)) % length ids) found.0 found.1

        current : Option Text
        current = or_else (route_agent_id urls path) none

        index : index_of current ids ≡ some i
        index = ap (λ o. index_of (or_else o none) ids) r ∙ index_of-get_elem? i id h

        effects : (pressed forward now s path).1 ≡ prevent_default ∷ navigate reached.1 ∷ []
        effects =
            move_lem current forward now s elsewhere
            ∙ move-filled urls current ids forward i index filled
            ∙ rw (next_index_lem forward i (length ids) filled) (rw found.1 (rw reached.2 refl))

    -- If the agents of the list have different ids, the route of each is read back as its id, and
    -- one of them is shown, any presses of j and k outside a field and a dialog, at whatever times
    -- and with whatever prefix pending, lead around the list: each j one place further, each k one
    -- place back, from the last to the first and from the first to the last.
    pub walk_lem :
        (presses : List (Bool × ℕ)) (s : Shortcuts) (i : ℕ) (id path : Text)
        → get_elem? i ids ≡ some id
        → route_agent_id urls path ≡ some (some id)
        → (next : Text) × (get_elem? ((i + moves (length ids) presses) % length ids) ids
            ≡ some next)
          × (route_agent_id urls (walk presses s path) ≡ some (some next))
    walk_lem [] s i id path h r = (
      id,
      ap (λ k. get_elem? (k % length ids) ids) (omega arith)
          ∙ ap (λ k. get_elem? k ids) (mod-eq_of_lt (get_elem?-bound i id ids h))
          ∙ h,
      r,
    )
    walk_lem ((forward, now) ∷ presses) s i id path h r =
        let (first, url, a, effects, b) = press_lem forward now s i id path h r in
        let (next, c, d) =
          walk_lem presses (pressed forward now s path).0
            ((i + (if forward then 1 else length ids - 1)) % length ids) first url a b in
        (
          next,
          ap (λ k. get_elem? k ids) (sym (turns (if forward then 1 else length ids - 1))) ∙ c,
          ap
                (λ es.
                  route_agent_id urls (walk presses (pressed forward now s path).0 (visit es path)))
                effects
              ∙ d,
        )
      where
        turns :
            (step : ℕ)
            → ((i + step) % length ids + moves (length ids) presses) % length ids
              ≡ (i + (step + moves (length ids) presses)) % length ids
        turns step =
            mod-add-mod (i + step) (length ids) (moves (length ids) presses)
            ∙ ap (λ m. m % length ids) (omega arith)
