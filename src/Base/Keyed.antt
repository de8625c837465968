-- ===== src/Base/Keyed.antt =====
-- Lists whose entries have keys: how cutting, joining, filtering and sorting treat distinct keys.
use Prim.Native.Nat.{ℕ, zero, suc}
use mathlib.Core.Path.{◌≡◌, refl}
use mathlib.Core.Bool.{Bool, false, ◌||◌}
use mathlib.Core.List.{List, [], ◌∷◌, ◌++◌, map}
use native.Mathlib.Omega.{arith}
use soren.Base.Tests.{Eq, ◌==◌}
use soren.Base.Lists.{take, drop, filter}
use soren.Base.Keys.{has, Distinct}
use soren.Base.Sorting.{insert, sort}

module _ {ℓ κ} {A : Type ℓ} {K : Type κ} ⦃e : Eq K⦄ (f : A → K) where
  pub has-map-append :
      (k : K) (xs ys : List A) → has k (map f (xs ++ ys)) ≡ (has k (map f xs) || has k (map f ys))
  has-map-append k [] ys = refl
  has-map-append k (x ∷ xs) ys = ground (arith, has-map-append k xs ys)

  pub has-map-take :
      (k : K) (n : ℕ) (xs : List A) → has k (map f xs) ≡ false → has k (map f (take n xs)) ≡ false
  has-map-take k zero xs h = refl
  has-map-take k (suc n) [] h = refl
  has-map-take k (suc n) (x ∷ xs) h = ground (arith, has-map-take k n xs)

  pub take-Distinct : (n : ℕ) (xs : List A) → Distinct (map f xs) → Distinct (map f (take n xs))
  take-Distinct zero xs d = tt
  take-Distinct (suc n) [] d = tt
  take-Distinct (suc n) (x ∷ xs) (h, d) = (has-map-take (f x) n xs h, take-Distinct n xs d)

  pub drop-Distinct : (n : ℕ) (xs : List A) → Distinct (map f xs) → Distinct (map f (drop n xs))
  drop-Distinct zero xs d = d
  drop-Distinct (suc n) [] d = tt
  drop-Distinct (suc n) (x ∷ xs) (h, d) = drop-Distinct n xs d

  pub has-map-insert :
      (after : A → A → Bool) (k : K) (x : A) (xs : List A)
      → has k (map f (insert after x xs)) ≡ (f x == k || has k (map f xs))
  has-map-insert after k x [] = refl
  has-map-insert after k x (y ∷ ys) = ground (arith, has-map-insert after k x ys)

  pub has-map-sort :
      (after : A → A → Bool) (k : K) (xs : List A)
      → has k (map f (sort after xs)) ≡ has k (map f xs)
  has-map-sort after k [] = refl
  has-map-sort after k (x ∷ xs) =
      ground (arith, has-map-insert after k x (sort after xs), has-map-sort after k xs)

  pub insert-Distinct :
      (after : A → A → Bool) (x : A) (xs : List A)
      → has (f x) (map f xs) ≡ false
      → Distinct (map f xs)
      → Distinct (map f (insert after x xs))
  insert-Distinct after x [] h d = (refl, tt)
  insert-Distinct after x (y ∷ ys) h (g, d) = ground (
    arith,
    has-map-insert after (f y) x ys,
    insert-Distinct after x ys,
    e.equal_iff (f x) (f y),
    e.equal_iff (f y) (f x),
  )

  pub sort-Distinct :
      (after : A → A → Bool) (xs : List A) → Distinct (map f xs) → Distinct (map f (sort after xs))
  sort-Distinct after [] d = tt
  sort-Distinct after (x ∷ xs) (h, d) = ground (
    arith,
    insert-Distinct after x (sort after xs),
    has-map-sort after (f x) xs,
    sort-Distinct after xs d,
  )

  -- No key of `xs` is a key of `ys`.
  abbrev pub Apart : List A → List A → Type 0
  Apart [] ys = Unit {0}
  Apart (x ∷ xs) ys = (has (f x) (map f ys) ≡ false) × Apart xs ys

  pub append-Distinct :
      (xs ys : List A)
      → Distinct (map f xs)
      → Distinct (map f ys)
      → Apart xs ys
      → Distinct (map f (xs ++ ys))
  append-Distinct [] ys d e' a = e'
  append-Distinct (x ∷ xs) ys (h, d) e' (g, a) =
      ground (arith, has-map-append (f x) xs ys, append-Distinct xs ys d e' a)

  pub has-map-filter :
      (p : A → Bool) (k : K) (xs : List A)
      → has k (map f xs) ≡ false
      → has k (map f (filter p xs)) ≡ false
  has-map-filter p k [] h = refl
  has-map-filter p k (x ∷ xs) h = ground (arith, has-map-filter p k xs)

  pub filter-Distinct :
      (p : A → Bool) (xs : List A) → Distinct (map f xs) → Distinct (map f (filter p xs))
  filter-Distinct p [] d = tt
  filter-Distinct p (x ∷ xs) (h, d) =
      ground (arith, has-map-filter p (f x) xs h, filter-Distinct p xs d)
