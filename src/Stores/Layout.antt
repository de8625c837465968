-- ===== src/Stores/Layout.antt =====
-- src/frontend/src/stores/layoutStore.ts: the sizes of the panels, which are percentages and so
-- numbers of an abstract ordered type.
use soren.Base.{
  ℕ, ◌≤◌, Bool, true, false, not, Option, none, some, List, [], ◌∷◌, ◌≡◌, or_else, Numbers,
  math_min, math_max, arith,
}

abbrev pub left_min : ℕ
left_min = 10

abbrev pub left_max : ℕ
left_max = 25

abbrev pub right_min : ℕ
right_min = 15

abbrev pub right_max : ℕ
right_max = 40

module _ (numbers : Numbers) where
  open numbers use {Number, of_nat, le, le_total, le_trans, of_nat_mono}

  pub record LayoutState : Type 0 where
    pub left_panel_size : Number
    pub right_panel_size : Number
    pub activity_panel_collapsed : Bool

  -- `Math.min(hi, Math.max(lo, size))`, the form of `clampLeft` and `clampRight`
  pub clamp : ℕ → ℕ → Number → Number
  clamp lo hi size = math_min numbers (of_nat hi) (math_max numbers (of_nat lo) size)

  pub clamp_left : Number → Number
  clamp_left = clamp left_min left_max

  pub clamp_right : Number → Number
  clamp_right = clamp right_min right_max

  pub initial : LayoutState
  initial = record {
    left_panel_size = of_nat 16;
    right_panel_size = of_nat 25;
    activity_panel_collapsed = false;
  }

  pub data LayoutAction : Type 0 where
    set_left_panel_size set_right_panel_size : Number → LayoutAction
    toggle_activity_panel : LayoutAction
    set_activity_panel_collapsed : Bool → LayoutAction

  pub step : LayoutState → LayoutAction → LayoutState
  unfolding clamp_left clamp_right clamp
  step s (set_left_panel_size size) = record s { left_panel_size = clamp_left size }
  step s (set_right_panel_size size) = record s { right_panel_size = clamp_right size }
  step s toggle_activity_panel = record s {
    activity_panel_collapsed = not s.activity_panel_collapsed;
  }
  step s (set_activity_panel_collapsed collapsed) = record s {
    activity_panel_collapsed = collapsed;
  }

  pub run : LayoutState → List LayoutAction → LayoutState
  unfolding step
  run s [] = s
  run s (a ∷ as') = run (step s a) as'

  -- What a browser may have stored: a size only if it is a number, and the flag's truth value.
  pub record Persisted : Type 0 where
    pub left : Option Number
    pub right : Option Number
    pub collapsed : Bool

  -- `migrate`
  pub migrate : Option Persisted → LayoutState
  unfolding clamp_left clamp_right clamp
  migrate none = record {
    left_panel_size = clamp_left (of_nat 16);
    right_panel_size = clamp_right (of_nat 25);
    activity_panel_collapsed = false;
  }
  migrate (some p) = record {
    left_panel_size = clamp_left (or_else p.left (of_nat 16));
    right_panel_size = clamp_right (or_else p.right (of_nat 25));
    activity_panel_collapsed = p.collapsed;
  }

  abbrev pub Between : ℕ → ℕ → Number → Type 0
  Between lo hi size = (le (of_nat lo) size ≡ true) × (le size (of_nat hi) ≡ true)

  pub record IsValid (s : LayoutState) : Type 0 where
    pub left_ok : Between left_min left_max s.left_panel_size
    pub right_ok : Between right_min right_max s.right_panel_size

  clamp-Between : (lo hi : ℕ) (size : Number) → lo ≤ hi → Between lo hi (clamp lo hi size)
  unfolding clamp
  clamp-Between lo hi size h = ground (
    arith,
    of_nat_mono lo hi h,
    le_total (of_nat lo) size,
    le_total (of_nat hi) size,
    le_total (of_nat hi) (of_nat lo),
    of_nat_mono lo lo,
    of_nat_mono hi hi,
  )

  step-IsValid : (s : LayoutState) (a : LayoutAction) → IsValid s → IsValid (step s a)
  unfolding step clamp_left clamp_right
  step-IsValid s (set_left_panel_size size) v = record {
    left_ok = clamp-Between left_min left_max size (omega arith);
    right_ok = v.right_ok;
  }
  step-IsValid s (set_right_panel_size size) v = record {
    left_ok = v.left_ok;
    right_ok = clamp-Between right_min right_max size (omega arith);
  }
  step-IsValid s toggle_activity_panel v = record { left_ok = v.left_ok; right_ok = v.right_ok }
  step-IsValid s (set_activity_panel_collapsed collapsed) v = record {
    left_ok = v.left_ok;
    right_ok = v.right_ok;
  }

  run-IsValid : (s : LayoutState) (as' : List LayoutAction) → IsValid s → IsValid (run s as')
  unfolding run
  run-IsValid s [] v = v
  run-IsValid s (a ∷ as') v = run-IsValid (step s a) as' (step-IsValid s a v)

  migrate-IsValid : (p : Option Persisted) → IsValid (migrate p)
  unfolding migrate clamp_left clamp_right
  migrate-IsValid none = record {
    left_ok = clamp-Between left_min left_max _ (omega arith);
    right_ok = clamp-Between right_min right_max _ (omega arith);
  }
  migrate-IsValid (some p) = record {
    left_ok = clamp-Between left_min left_max _ (omega arith);
    right_ok = clamp-Between right_min right_max _ (omega arith);
  }

  -- Whatever a browser has stored, and whatever actions follow its migration, both panels stay
  -- within their bounds.
  pub layout_bounds :
      (p : Option Persisted) (as' : List LayoutAction) → IsValid (run (migrate p) as')
  layout_bounds p as' = run-IsValid (migrate p) as' (migrate-IsValid p)
