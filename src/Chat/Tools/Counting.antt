-- ===== src/Chat/Tools/Counting.antt =====
-- Counting calls, and what src/frontend/src/hooks/useMessageFeed.ts puts under one id.
use soren.Base.{
  ℕ, Bool, true, false, not, ◌&&◌, ◌||◌, List, [], ◌∷◌, ◌++◌, reverse, Text, ◌≡◌, refl, sym, ap,
  ◌∙◌, inl, inr, ◌==◌, text_Eq, text_eq_iff, if◌then◌else◌, filter, sort, insert, any, length, put,
  lookup-put, arith, Bool-cases, append_assoc,
}
use mathlib.Core.List.{reverse-append}
use soren.Chat.{Message}
use soren.Chat.Tools.{no_calls, calls_of}
use soren.Stores.Activities.{Activity}

-- How many pass a test
abbrev pub count : (Activity → Bool) → List Activity → ℕ
count q calls = length (filter q calls)

pub count-filter :
    (p q : Activity → Bool) (xs : List Activity)
    → count q (filter p xs) ≡ count (λ c. p c && q c) xs
count-filter p q [] = refl
count-filter p q (x ∷ xs) = ground (arith, count-filter p q xs)

pub count-insert :
    (after : Activity → Activity → Bool) (q : Activity → Bool) (x : Activity) (xs : List Activity)
    → count q (insert after x xs) ≡ count q (x ∷ xs)
count-insert after q x [] = refl
count-insert after q x (y ∷ ys) = ground (arith, count-insert after q x ys)

pub count-sort :
    (after : Activity → Activity → Bool) (q : Activity → Bool) (xs : List Activity)
    → count q (sort after xs) ≡ count q xs
count-sort after q [] = refl
count-sort after q (x ∷ xs) =
    ground (arith, count-insert after q x (sort after xs), count-sort after q xs)

pub count_same :
    (p q : Activity → Bool) (xs : List Activity)
    → ((c : Activity) → p c ≡ q c)
    → count p xs ≡ count q xs
count_same p q [] h = refl
count_same p q (x ∷ xs) h = ground (arith, h x, count_same p q xs h)

pub count-if :
    (b : Bool) (q : Activity → Bool) (xs ys : List Activity)
    → count q (if b then xs else ys) ≡ (if b then count q xs else count q ys)
count-if true q xs ys = refl
count-if false q xs ys = refl

pub empty_or : (xs : List Activity) → (if no_calls xs then [] else xs) ≡ xs
empty_or [] = refl
empty_or (x ∷ xs) = refl

pub reversed :
    (xs : List Message) (m : Message) (ys : List Message)
    → reverse (xs ++ m ∷ ys) ≡ reverse ys ++ m ∷ reverse xs
reversed xs m ys =
    reverse-append xs (m ∷ ys)
    ∙ ap (λ r. r ++ reverse xs) (reverse-append (m ∷ []) ys)
    ∙ append_assoc (reverse ys) (m ∷ []) (reverse xs)

-- What the entry of one message becomes when calls are put there if there are any and none before
pub add_same :
    (id : Text) (shown : List Activity) (found : List (Text × List Activity))
    → calls_of id
        (if not (no_calls (calls_of id found)) || no_calls shown then found else put id shown found)
      ≡ (if no_calls (calls_of id found) then shown else calls_of id found)
add_same id shown found = elim (Bool-cases (no_calls (calls_of id found))) [
  | inr e ↦ rw e refl
  | inl e ↦ elim (Bool-cases (no_calls shown)) [
    | inl f ↦ rw (e, f) (none_of (calls_of id found) e ∙ sym (none_of shown f))
    | inr f ↦ rw (e, f, lookup-put id id shown found, (text_eq_iff id id).1 refl) refl
  ]
]
  where
    none_of : (xs : List Activity) → no_calls xs ≡ true → xs ≡ []
    none_of [] h = refl
    none_of (x ∷ xs) h = cc

pub added :
    (mid id : Text) (shown : List Activity) (found : List (Text × List Activity))
    → calls_of id (
        if not (no_calls (calls_of mid found)) || no_calls shown
        then found
        else put mid shown found)
      ≡ (if (mid == id) && no_calls (calls_of id found) then shown else calls_of id found)
added mid id shown found = elim (Bool-cases (mid == id)) [
  | inl e ↦ rw e (
      ap
        (λ i. calls_of id (
          if not (no_calls (calls_of i found)) || no_calls shown then found else put i shown found))
        ((text_eq_iff mid id).0 e)
      ∙ add_same id shown found)
  | inr e ↦ elim (Bool-cases (not (no_calls (calls_of mid found)) || no_calls shown)) [
    | inl f ↦ rw (e, f) refl
    | inr f ↦ rw (f, lookup-put mid id shown found, e) refl
  ]
]

pub any-append :
    (p : Message → Bool) (xs ys : List Message) (m : Message)
    → p m ≡ true
    → any p (xs ++ m ∷ ys) ≡ true
any-append p [] ys m h = ground (arith, h)
any-append p (x ∷ xs) ys m h = ground (arith, any-append p xs ys m h)
