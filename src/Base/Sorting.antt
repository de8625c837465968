-- ===== src/Base/Sorting.antt =====
-- `Array.prototype.sort`, which is stable: a comparator is read as the test that its second
-- argument must stand before its first (a positive result).
use Prim.Native.Nat.{◌+◌}
use mathlib.Core.Path.{◌≡◌, refl}
use mathlib.Core.Logic.{◌⊎◌, inl, inr}
use mathlib.Core.Bool.{Bool, true, false}
use mathlib.Core.List.{List, [], ◌∷◌, Perm}
use mathlib.Core.List.Perm
use native.Mathlib.Omega.{arith}
use soren.Base.Tests.{if◌then◌else◌, Bool-cases}
use soren.Base.Lists.{length, All, In}

module _ {ℓ} {A : Type ℓ} where
  -- `after x y`: the comparator gives a positive number for `(x, y)`.
  abbrev pub insert : (A → A → Bool) → A → List A → List A
  insert after x [] = x ∷ []
  insert after x (y ∷ ys) = if after x y then y ∷ insert after x ys else x ∷ y ∷ ys

  abbrev pub sort : (A → A → Bool) → List A → List A
  sort after [] = []
  sort after (x ∷ xs) = insert after x (sort after xs)

  -- Each entry may stand before all that follow it.
  abbrev pub IsSorted : (A → A → Bool) → List A → Type ℓ
  IsSorted after [] = Unit
  IsSorted after (x ∷ xs) = All (λ y. after x y ≡ false) xs × IsSorted after xs

  pub insert-perm : (after : A → A → Bool) (x : A) (xs : List A) → Perm (insert after x xs) (x ∷ xs)
  insert-perm after x [] = Perm.refl _
  insert-perm after x (y ∷ ys) = elim (Bool-cases (after x y)) [
    | inl e ↦ rw e (Perm.trans (Perm.cons y (insert-perm after x ys)) (Perm.swap x y ys))
    | inr e ↦ rw e (Perm.refl _)
  ]

  pub sort-perm : (after : A → A → Bool) (xs : List A) → Perm (sort after xs) xs
  sort-perm after [] = Perm.refl _
  sort-perm after (x ∷ xs) =
      Perm.trans (insert-perm after x (sort after xs)) (Perm.cons x (sort-perm after xs))

  pub length-insert :
      (after : A → A → Bool) (x : A) (xs : List A) → length (insert after x xs) ≡ length xs + 1
  length-insert after x [] = refl
  length-insert after x (y ∷ ys) = ground (arith, length-insert after x ys)

  pub length-sort : (after : A → A → Bool) (xs : List A) → length (sort after xs) ≡ length xs
  length-sort after [] = refl
  length-sort after (x ∷ xs) =
      omega (arith, length-insert after x (sort after xs), length-sort after xs)

module _ {A : Type 0} (a : A) (after : A → A → Bool) where
  pub In-insert : (x : A) (xs : List A) → In a (insert after x xs) → (x ≡ a) ⊎ In a xs
  In-insert x [] h = h
  In-insert x (y ∷ ys) h = ground (arith, In-insert x ys)

  pub insert-In : (x : A) (xs : List A) → (x ≡ a) ⊎ In a xs → In a (insert after x xs)
  insert-In x [] h = h
  insert-In x (y ∷ ys) h = ground (arith, insert-In x ys)

  pub In-sort : (xs : List A) → In a (sort after xs) → In a xs
  In-sort [] h = h
  In-sort (x ∷ xs) h = elim (In-insert x (sort after xs) h) [
    | inl e ↦ inl e
    | inr k ↦ inr (In-sort xs k)
  ]

  pub sort-In : (xs : List A) → In a xs → In a (sort after xs)
  sort-In [] h = h
  sort-In (x ∷ xs) (inl e) = insert-In x (sort after xs) (inl e)
  sort-In (x ∷ xs) (inr k) = insert-In x (sort after xs) (inr (sort-In xs k))

module _ {ℓ κ} {A : Type ℓ} (P : A → Type κ) where
  pub All-insert :
      (after : A → A → Bool) (x : A) (xs : List A) → P x → All P xs → All P (insert after x xs)
  All-insert after x [] p h = (p, tt)
  All-insert after x (y ∷ ys) p (q, h) = ground (arith, All-insert after x ys p h)

  pub All-sort : (after : A → A → Bool) (xs : List A) → All P xs → All P (sort after xs)
  All-sort after [] h = tt
  All-sort after (x ∷ xs) (p, h) = All-insert after x (sort after xs) p (All-sort after xs h)

pub All-imp {ℓ κ ι} :
    {A : Type ℓ} (P : A → Type κ) (Q : A → Type ι) (xs : List A)
    → ((a : A) → P a → Q a)
    → All P xs
    → All Q xs
All-imp P Q [] f h = tt
All-imp P Q (x ∷ xs) f (p, h) = (f x p, All-imp P Q xs f h)

-- For a comparator that is a total preorder the result is in order.
module _ {ℓ} {A : Type ℓ} (after : A → A → Bool)
    (asym : (x y : A) → after x y ≡ true → after y x ≡ false)
    (trans : (x y z : A) → after x y ≡ false → after y z ≡ false → after x z ≡ false) where
  pub insert-IsSorted :
      (x : A) (xs : List A) → IsSorted after xs → IsSorted after (insert after x xs)
  insert-IsSorted x [] h = (tt, tt)
  insert-IsSorted x (y ∷ ys) (h, k) = elim (Bool-cases (after x y)) [
    | inl e ↦ rw e (All-insert _ after x ys (asym x y e) h, insert-IsSorted x ys k)
    | inr e ↦ rw e ((e, All-imp _ _ ys (λ z. trans x y z e) h), (h, k))
  ]

  pub sort-IsSorted : (xs : List A) → IsSorted after (sort after xs)
  sort-IsSorted [] = tt
  sort-IsSorted (x ∷ xs) = insert-IsSorted x (sort after xs) (sort-IsSorted xs)
