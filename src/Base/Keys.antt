-- ===== src/Base/Keys.antt =====
-- Collections with keys: sets of ids as lists, distinct keys, and maps as association lists in
-- insertion order, which is the order that JavaScript's Map and Set iterate in.
use Prim.Native.Nat.{ℕ, zero, suc}
use mathlib.Core.Path.{◌≡◌, refl}
use mathlib.Core.Bool.{Bool, false, ◌||◌}
use mathlib.Core.List.{List, [], ◌∷◌, ◌++◌}
use native.Mathlib.Omega.{arith}
use soren.Base.Tests.{Eq, ◌==◌, if◌then◌else◌}
use soren.Base.Lists.{take}

module _ {ℓ} {K : Type ℓ} ⦃e : Eq K⦄ where
  -- `set.has(k)`
  abbrev pub has : K → List K → Bool
  has k [] = false
  has k (x ∷ xs) = x == k || has k xs

  -- No key is listed twice.
  abbrev pub Distinct : List K → Type 0
  Distinct [] = Unit {0}
  Distinct (x ∷ xs) = (has x xs ≡ false) × Distinct xs

  -- `set.add(k)`: a key that is there keeps its place.
  abbrev pub add : K → List K → List K
  add k [] = k ∷ []
  add k (x ∷ xs) = if x == k then x ∷ xs else x ∷ add k xs

  pub has-add : (k j : K) (xs : List K) → has j (add k xs) ≡ (k == j || has j xs)
  has-add k j [] = refl
  has-add k j (x ∷ xs) =
      ground (arith, has-add k j xs, e.equal_iff x k, e.equal_iff x j, e.equal_iff k j)

  pub add-Distinct : (k : K) (xs : List K) → Distinct xs → Distinct (add k xs)
  add-Distinct k [] d = (refl, tt)
  add-Distinct k (x ∷ xs) d =
      ground (arith, has-add k x xs, add-Distinct k xs d.1, e.equal_iff x k, e.equal_iff k x)

  pub has-append : (k : K) (xs ys : List K) → has k (xs ++ ys) ≡ (has k xs || has k ys)
  has-append k [] ys = refl
  has-append k (x ∷ xs) ys = ground (arith, has-append k xs ys)

  pub has-take : (k : K) (n : ℕ) (xs : List K) → has k xs ≡ false → has k (take n xs) ≡ false
  has-take k zero xs h = refl
  has-take k (suc n) [] h = refl
  has-take k (suc n) (x ∷ xs) h = ground (arith, has-take k n xs)
