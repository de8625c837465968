-- ===== src/Stores/Terminal.antt =====
-- src/frontend/src/stores/terminalSettingsStore.ts: font sizes for two classes of device, and the
-- length of the scrollback. Sizes and lines are whole numbers; below zero the source's `Math.max`
-- gives what it gives at zero.
use soren.Base.{
  ℕ, ◌+◌, ◌-◌, ◌≤◌, ◌<◌, min, max, Bool, Option, none, some, List, [], ◌∷◌, ◌≡◌, if◌then◌else◌,
  arith, nat_eq, ◌&&◌, is_some,
}

abbrev pub min_font_size : ℕ
min_font_size = 6

abbrev pub max_font_size : ℕ
max_font_size = 20

abbrev pub font_step : ℕ
font_step = 1

pub record TerminalSettings : Type 0 where
  pub desktop_font_size : ℕ
  pub mobile_font_size : ℕ
  pub scrollback : ℕ

pub initial : TerminalSettings
initial = record { desktop_font_size = 13; mobile_font_size = 8; scrollback = 10_000 }

pub increase_font_size : Bool → TerminalSettings → TerminalSettings
increase_font_size mobile s =
    if mobile
    then record s { mobile_font_size = min max_font_size (s.mobile_font_size + font_step) }
    else record s { desktop_font_size = min max_font_size (s.desktop_font_size + font_step) }

pub decrease_font_size : Bool → TerminalSettings → TerminalSettings
decrease_font_size mobile s =
    if mobile
    then record s { mobile_font_size = max min_font_size (s.mobile_font_size - font_step) }
    else record s { desktop_font_size = max min_font_size (s.desktop_font_size - font_step) }

pub set_scrollback : ℕ → TerminalSettings → TerminalSettings
set_scrollback lines s = record s { scrollback = max 500 (min 50_000 lines) }

pub data Action : Type 0 where
  increase decrease : Bool → Action
  scroll : ℕ → Action

pub step : TerminalSettings → Action → TerminalSettings
unfolding increase_font_size decrease_font_size set_scrollback
step s (increase mobile) = increase_font_size mobile s
step s (decrease mobile) = decrease_font_size mobile s
step s (scroll lines) = set_scrollback lines s

pub run : TerminalSettings → List Action → TerminalSettings
unfolding step
run s [] = s
run s (a ∷ rest) = run (step s a) rest

-- What a browser may have stored, by an earlier version or by this one.
pub record Persisted : Type 0 where
  pub font_size : Option ℕ
  pub desktop : Option ℕ
  pub mobile : Option ℕ
  pub lines : Option ℕ

-- `migrate`: version 0 had one font size, which becomes the desktop's.
unfoldable pub migrate : Persisted → ℕ → Persisted
migrate p version =
    if nat_eq version 0 && is_some p.font_size
    then record p { font_size = none; desktop = p.font_size; mobile = some 8 }
    else p

pub record IsValid (s : TerminalSettings) : Type 0 where
  pub desktop_ok : (min_font_size ≤ s.desktop_font_size) × (s.desktop_font_size ≤ max_font_size)
  pub mobile_ok : (min_font_size ≤ s.mobile_font_size) × (s.mobile_font_size ≤ max_font_size)
  pub scrollback_ok : (500 ≤ s.scrollback) × (s.scrollback ≤ 50_000)

step-IsValid : (s : TerminalSettings) (a : Action) → IsValid s → IsValid (step s a)
unfolding step
step-IsValid s (increase mobile) v = ground arith
step-IsValid s (decrease mobile) v = ground arith
step-IsValid s (scroll lines) v = ground arith

run-IsValid : (s : TerminalSettings) (as' : List Action) → IsValid s → IsValid (run s as')
unfolding run
run-IsValid s [] v = v
run-IsValid s (a ∷ as') v = run-IsValid (step s a) as' (step-IsValid s a v)

-- From the defaults, font sizes stay between 6 and 20 and the scrollback between 500 and 50,000
-- lines, whatever actions follow.
pub terminal_bounds : (as' : List Action) → IsValid (run initial as')
terminal_bounds as' = run-IsValid initial as' (unfold initial in (omega arith))

-- Within valid settings and strictly inside the bounds, a step up and a step down undo each other,
-- in both orders, and only the chosen device's size is touched.
pub font_steps_cancel :
    (s : TerminalSettings) (mobile : Bool)
    → IsValid s
    → (min_font_size < (if mobile then s.mobile_font_size else s.desktop_font_size))
    → ((if mobile then s.mobile_font_size else s.desktop_font_size) < max_font_size)
    → (decrease_font_size mobile (increase_font_size mobile s) ≡ s)
      × (increase_font_size mobile (decrease_font_size mobile s) ≡ s)
unfolding decrease_font_size increase_font_size
font_steps_cancel s mobile v low high = ground arith
