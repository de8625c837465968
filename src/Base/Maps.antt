-- ===== src/Base/Maps.antt =====
-- Maps as association lists in insertion order, which is the order that JavaScript's Map iterates
-- in. Setting a key that is there keeps its place.
use Prim.Native.Nat.{suc, ◌≤◌}
use mathlib.Core.Path.{◌≡◌, refl}
use mathlib.Core.Bool.{true, not, ◌&&◌, ◌||◌}
use mathlib.Core.Option.{Option, none, some}
use mathlib.Core.List.{List, [], ◌∷◌}
use native.Mathlib.Omega.{arith}
use soren.Base.Tests.{Eq, ◌==◌, if◌then◌else◌, is_some}
use soren.Base.Lists.{length}
use soren.Base.Keys.{has, Distinct}

module _ {ℓ κ} {K : Type ℓ} {V : Type κ} ⦃e : Eq K⦄ where
  abbrev pub lookup : K → List (K × V) → Option V
  lookup k [] = none
  lookup k ((j, v) ∷ m) = if j == k then some v else lookup k m

  -- `m.set(k, v)`
  abbrev pub put : K → V → List (K × V) → List (K × V)
  put k v [] = (k, v) ∷ []
  put k v ((j, w) ∷ m) = if j == k then (k, v) ∷ m else (j, w) ∷ put k v m

  -- `m.delete(k)`
  abbrev pub erase : K → List (K × V) → List (K × V)
  erase k [] = []
  erase k ((j, w) ∷ m) = if j == k then erase k m else (j, w) ∷ erase k m

  abbrev pub keys : List (K × V) → List K
  keys [] = []
  keys ((j, w) ∷ m) = j ∷ keys m

  pub lookup-put :
      (k j : K) (v : V) (m : List (K × V))
      → lookup j (put k v m) ≡ (if k == j then some v else lookup j m)
  lookup-put k j v [] = refl
  lookup-put k j v ((i, w) ∷ m) =
      ground (arith, e.equal_iff k j, e.equal_iff i k, e.equal_iff i j, lookup-put k j v m)

  pub lookup-erase :
      (k j : K) (m : List (K × V)) → lookup j (erase k m) ≡ (if k == j then none else lookup j m)
  lookup-erase k j [] = ground arith
  lookup-erase k j ((i, w) ∷ m) =
      ground (arith, e.equal_iff k j, e.equal_iff i k, e.equal_iff i j, lookup-erase k j m)

  pub has-keys-put :
      (k j : K) (v : V) (m : List (K × V)) → has j (keys (put k v m)) ≡ (k == j || has j (keys m))
  has-keys-put k j v [] = refl
  has-keys-put k j v ((i, w) ∷ m) =
      ground (arith, e.equal_iff k j, e.equal_iff i k, e.equal_iff i j, has-keys-put k j v m)

  pub has-keys-erase :
      (k j : K) (m : List (K × V)) → has j (keys (erase k m)) ≡ (not (k == j) && has j (keys m))
  has-keys-erase k j [] = ground arith
  has-keys-erase k j ((i, w) ∷ m) =
      ground (arith, e.equal_iff k j, e.equal_iff i k, e.equal_iff i j, has-keys-erase k j m)

  pub put-Distinct :
      (k : K) (v : V) (m : List (K × V)) → Distinct (keys m) → Distinct (keys (put k v m))
  put-Distinct k v [] d = (refl, tt)
  put-Distinct k v ((i, w) ∷ m) (f, d) =
      ground (arith, e.equal_iff i k, e.equal_iff k i, has-keys-put k i v m, put-Distinct k v m d)

  pub erase-Distinct : (k : K) (m : List (K × V)) → Distinct (keys m) → Distinct (keys (erase k m))
  erase-Distinct k [] d = tt
  erase-Distinct k ((i, w) ∷ m) (f, d) = ground (arith, has-keys-erase k i m, erase-Distinct k m d)

  pub length-put :
      (k : K) (v : V) (m : List (K × V))
      → length (put k v m) ≡ (if has k (keys m) then length m else suc (length m))
  length-put k v [] = refl
  length-put k v ((i, w) ∷ m) = ground (arith, length-put k v m)

  pub length-erase-le : (k : K) (m : List (K × V)) → length (erase k m) ≤ length m
  length-erase-le k [] = omega arith
  length-erase-le k ((i, w) ∷ m) = ground (arith, length-erase-le k m)

  pub length-erase-lt :
      (k : K) (m : List (K × V)) → has k (keys m) ≡ true → suc (length (erase k m)) ≤ length m
  length-erase-lt k [] h = cc
  length-erase-lt k ((i, w) ∷ m) h = ground (arith, length-erase-lt k m, length-erase-le k m)

  pub has_of_lookup : (k : K) (m : List (K × V)) → has k (keys m) ≡ is_some (lookup k m)
  has_of_lookup k [] = refl
  has_of_lookup k ((i, w) ∷ m) = ground (arith, has_of_lookup k m)
