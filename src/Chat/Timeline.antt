-- ===== src/Chat/Timeline.antt =====
-- `buildTimeline` of src/frontend/src/components/chat/InterleavedTimeline.tsx:
-- thoughts and tool calls in the order of their times, a thought together with the call that follows.
use soren.Base.{
  ℕ, Bool, not, ◌&&◌, Option, none, some, List, [], ◌∷◌, ◌++◌, map, Text, codes, ◌≡◌, refl, ap,
  ◌==◌, text_Eq, ltb, or_else, filter, sort, IsSorted, sort-IsSorted, sort-perm, arith, All,
  All-imp, length, is_some, true, false, ◌||◌, ◌≤◌, subst,
}
use mathlib.Core.List.{Perm}
use soren.Chat.Thoughts.{is_empty}
use soren.Stores.Activities.{Activity}
use soren.Stores.Thoughts.{Thought}

-- `Tagged`, whose time is computed from the timestamp
pub data Tagged : Type 0 where
  thought : Thought → Tagged
  tool : Activity → Tagged

pub record TimelineStep : Type 0 where
  pub step_thought : Option Thought
  pub step_tool : Option Activity
  pub timestamp : Text

-- Thoughts with content
abbrev pub is_reasoning : Thought → Bool
is_reasoning t = t.thought_type == codes "reasoning" && not (is_empty (or_else t.content []))

abbrev pub stamp : Tagged → Text
stamp (thought t) = t.timestamp
stamp (tool a) = a.timestamp

-- The loop over the sorted items
unfoldable pub steps_of : List Tagged → List TimelineStep
steps_of [] = []
steps_of (tool a ∷ items) =
    record { step_thought = none; step_tool = some a; timestamp = a.timestamp } ∷ steps_of items
steps_of (thought t ∷ []) =
    record { step_thought = some t; step_tool = none; timestamp = t.timestamp } ∷ []
steps_of (thought t ∷ tool a ∷ items) =
    record { step_thought = some t; step_tool = some a; timestamp = t.timestamp } ∷ steps_of items
steps_of (thought t ∷ thought u ∷ items) =
    record { step_thought = some t; step_tool = none; timestamp = t.timestamp }
    ∷ steps_of (thought u ∷ items)

module _ (get_time : Text → ℕ) where
  abbrev pub later : Tagged → Tagged → Bool
  later a b = ltb (get_time (stamp b)) (get_time (stamp a))

  abbrev pub timeline_items : List Thought → List Activity → List Tagged
  timeline_items thoughts calls = map thought (filter is_reasoning thoughts) ++ map tool calls

  -- `buildTimeline`
  unfoldable pub build_timeline : List Thought → List Activity → List TimelineStep
  unfolding steps_of
  build_timeline thoughts calls = steps_of (sort later (timeline_items thoughts calls))

abbrev pub optional {ℓ κ} : {A : Type ℓ} {B : Type κ} → (A → B) → Option A → List B
optional f none = []
optional f (some a) = f a ∷ []

-- What the steps show, from the first to the last
abbrev pub shown : List TimelineStep → List Tagged
shown [] = []
shown (s ∷ steps) = optional thought s.step_thought ++ (optional tool s.step_tool ++ shown steps)

shown-steps_of : (items : List Tagged) → shown (steps_of items) ≡ items
unfolding steps_of
shown-steps_of [] = refl
shown-steps_of (tool a ∷ items) = ap (◌∷◌ (tool a)) (shown-steps_of items)
shown-steps_of (thought t ∷ []) = refl
shown-steps_of (thought t ∷ tool a ∷ items) =
    ap (λ r. thought t ∷ tool a ∷ r) (shown-steps_of items)
shown-steps_of (thought t ∷ thought u ∷ items) =
    ap (◌∷◌ (thought t)) (shown-steps_of (thought u ∷ items))

-- A thought that has something to show as reasoning
abbrev pub reasons : Thought → Bool
reasons t = t.thought_type == codes "reasoning" && ltb 0 (length (or_else t.content []))

abbrev pub moment : (Text → ℕ) → Tagged → ℕ
moment get_time (thought t) = get_time t.timestamp
moment get_time (tool a) = get_time a.timestamp

-- No item is earlier than one that it follows.
abbrev pub Chronological : (Text → ℕ) → List Tagged → Type 0
Chronological get_time [] = Unit
Chronological get_time (x ∷ xs) =
    All (λ y. moment get_time x ≤ moment get_time y) xs × Chronological get_time xs

-- A call without a thought of its own stands first in the steps.
abbrev pub starts_with_call : List TimelineStep → Bool
starts_with_call [] = false
starts_with_call (s ∷ steps) = not (is_some s.step_thought) && is_some s.step_tool

-- A thought without a call is followed by no call without a thought.
abbrev pub Joined : List TimelineStep → Type 0
Joined [] = Unit
Joined (s ∷ steps) = ((is_some s.step_tool || not (starts_with_call steps)) ≡ true) × Joined steps

thought_first :
    (t : Thought) (items : List Tagged) → starts_with_call (steps_of (thought t ∷ items)) ≡ false
unfolding steps_of
thought_first t [] = refl
thought_first t (tool a ∷ items) = refl
thought_first t (thought u ∷ items) = refl

Joined-steps_of : (items : List Tagged) → Joined (steps_of items)
unfolding steps_of
Joined-steps_of [] = tt
Joined-steps_of (tool a ∷ items) = (refl, Joined-steps_of items)
Joined-steps_of (thought t ∷ []) = (refl, tt)
Joined-steps_of (thought t ∷ tool a ∷ items) = (refl, Joined-steps_of items)
Joined-steps_of (thought t ∷ thought u ∷ items) =
    (rw (thought_first u items) refl, Joined-steps_of (thought u ∷ items))

not_empty_iff : (s : Text) → not (is_empty s) ≡ ltb 0 (length s)
not_empty_iff [] = refl
not_empty_iff (c ∷ s) = ground arith

filter-reasons : (thoughts : List Thought) → filter is_reasoning thoughts ≡ filter reasons thoughts
filter-reasons [] = refl
filter-reasons (t ∷ thoughts) =
    ground (arith, filter-reasons thoughts, not_empty_iff (or_else t.content []))

later_lem :
    (get_time : Text → ℕ) (x y : Tagged)
    → later get_time x y ≡ false
    → moment get_time x ≤ moment get_time y
later_lem get_time (thought t) (thought u) e = ground (arith, e)
later_lem get_time (thought t) (tool a) e = ground (arith, e)
later_lem get_time (tool a) (thought t) e = ground (arith, e)
later_lem get_time (tool a) (tool b) e = ground (arith, e)

sorted-Chronological :
    (get_time : Text → ℕ) (xs : List Tagged)
    → IsSorted (later get_time) xs
    → Chronological get_time xs
sorted-Chronological get_time [] h = tt
sorted-Chronological get_time (x ∷ xs) (h, k) =
    (All-imp _ _ xs (later_lem get_time x) h, sorted-Chronological get_time xs k)

-- Read from the first step to the last, each step's thought before its call, the timeline shows
-- every tool call, and every thought that is reasoning with a text, exactly once, and no earlier
-- one after a later one; and a thought and a call that follow each other share a step, unless the
-- call has a thought of its own.
pub build_timeline_lem :
    (get_time : Text → ℕ) (thoughts : List Thought) (calls : List Activity)
    → Perm
        (shown (build_timeline get_time thoughts calls))
        (map thought (filter reasons thoughts) ++ map tool calls)
      × Chronological get_time (shown (build_timeline get_time thoughts calls))
      × Joined (build_timeline get_time thoughts calls)
unfolding build_timeline
build_timeline_lem get_time thoughts calls =
    let items = sort (later get_time) (timeline_items get_time thoughts calls) in
    (
      rw (shown-steps_of items) (
          subst (λ ts. Perm items (map thought ts ++ map tool calls)) (filter-reasons thoughts)
            (sort-perm (later get_time) (timeline_items get_time thoughts calls))),
      rw (shown-steps_of items) (
          sorted-Chronological get_time items (
            sort-IsSorted (later get_time) (λ a b h. ground (arith, h))
              (λ a b c h k. ground (arith, h, k)) (timeline_items get_time thoughts calls))),
      Joined-steps_of items,
    )
