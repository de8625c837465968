-- ===== src/Base/Numeric.antt =====
-- JavaScript numbers that the source only compares: an ordered type with the integers in it. Not a
-- number (NaN) is left out, since the order is total.
use Prim.Native.Nat.{ℕ, ◌≤◌}
use mathlib.Core.Path.{◌≡◌}
use mathlib.Core.Logic.{◌⊎◌}
use mathlib.Core.Bool.{Bool, true}
use native.Mathlib.Omega.{arith}
use soren.Base.Tests.{leb, if◌then◌else◌}

pub record Numbers : Type 1 where
  pub Number : Type 0
  pub of_nat : ℕ → Number
  pub le : Number → Number → Bool
  pub le_total : (a b : Number) → (le a b ≡ true) ⊎ (le b a ≡ true)
  pub le_trans : (a b c : Number) → le a b ≡ true → le b c ≡ true → le a c ≡ true
  pub of_nat_mono : (m n : ℕ) → m ≤ n → le (of_nat m) (of_nat n) ≡ true

module _ (numbers : Numbers) where
  open numbers use {Number, le}

  -- `Math.min(a, b)` and `Math.max(a, b)`
  abbrev pub math_min : Number → Number → Number
  math_min a b = if le a b then a else b

  abbrev pub math_max : Number → Number → Number
  math_max a b = if le a b then b else a

pub leb_total : (a b : ℕ) → (leb a b ≡ true) ⊎ (leb b a ≡ true)
leb_total a b = ground arith

pub leb_trans : (a b c : ℕ) → leb a b ≡ true → leb b c ≡ true → leb a c ≡ true
leb_trans a b c h k = ground arith

pub leb_mono : (m n : ℕ) → m ≤ n → leb m n ≡ true
leb_mono m n h = ground arith

-- The natural numbers meet the requirements.
abbrev pub natural_numbers : Numbers
natural_numbers = record {
  Number = ℕ;
  of_nat = λ n. n;
  le = leb;
  le_total = leb_total;
  le_trans = leb_trans;
  of_nat_mono = leb_mono;
}
