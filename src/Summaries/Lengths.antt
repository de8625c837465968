-- ===== src/Summaries/Lengths.antt =====
-- What the cuts of src/frontend/src/lib/toolSummary.ts leave of a text.
use soren.Base.{
  ℕ, false, true, suc, ◌+◌, ◌-◌, ◌≤◌, Option, none, some, List, [], ◌∷◌, ◌++◌, append_assoc,
  append-nil, Text, codes, leb, length, length-append, length-take, take, take_last, drop, has, All,
  ◌<◌, or_else, text_Eq, nat_eq, nat_eq_iff, ◌≡◌, ◌⊎◌, inl, inr, refl, sym, ap, ◌∙◌, arith,
  Bool-cases,
}
use soren.Summaries.{
  truncate, split, split_from, join_with, from_landmark, last_two, landmark_or_last, shorten_path,
}
use soren.Summaries.Details.{
  ToolOutput, nothing, output_text, output_value, first_text, text_of, get_tool_output_summary,
}

pub length-truncate : (s : Text) (n : ℕ) → length (truncate s n) ≤ n + 1
unfolding truncate
length-truncate s n = ground (arith, length-append (take n s) (8230 ∷ []), length-take n s)

first_text-bounded :
    (c o : Option Text) (json : Text) → length (or_else (first_text c o json) []) ≤ 301
first_text-bounded (some s) o json = length-truncate s 300
first_text-bounded none (some s) json = length-truncate s 300
first_text-bounded none none json = ground (arith, length-truncate json 300)

-- The summary of any output has at most 301 characters.
pub get_tool_output_summary-bounded :
    (o : ToolOutput) → length (or_else (get_tool_output_summary o) []) ≤ 301
unfolding get_tool_output_summary
get_tool_output_summary-bounded nothing = omega arith
get_tool_output_summary-bounded (output_text s) = ground (arith, length-truncate s 300)
get_tool_output_summary-bounded (output_value c o json) =
    first_text-bounded (text_of c) (text_of o) json

join_first :
    (c : ℕ) (part q s : Text)
    → join_with c (part ∷ split_from c q s) ≡ part ++ c ∷ join_with c (split_from c q s)
join_first c part q [] = refl
join_first c part q (d ∷ s) = elim (Bool-cases (nat_eq d c)) [
  | inl e ↦ rw e refl
  | inr e ↦ rw e (join_first c part (q ++ d ∷ []) s)
]

-- Joining undoes splitting.
pub join-split_from : (c : ℕ) (part s : Text) → join_with c (split_from c part s) ≡ part ++ s
join-split_from c part [] = sym (append-nil part)
join-split_from c part (d ∷ s) = elim (Bool-cases (nat_eq d c)) [
  | inl e ↦ rw e (
      join_first c part [] s
      ∙ ap (λ t. part ++ c ∷ t) (join-split_from c [] s)
      ∙ ap (λ x. part ++ x ∷ s) (sym ((nat_eq_iff d c).0 e)))
  | inr e ↦ rw e (join-split_from c (part ++ d ∷ []) s ∙ append_assoc part (d ∷ []) s)
]

-- The folders from which a long path is shown
abbrev pub folders : List Text
folders = codes "src" ∷ codes "tools" ∷ codes "docs" ∷ codes "tests" ∷ codes ".opencode" ∷ []

-- The path from its first such folder on
abbrev pub FirstFolder : List Text → Text → Type 0
FirstFolder parts t =
    (before : List Text) × (part : Text) × (after : List Text) × (parts ≡ before ++ part ∷ after)
    × All (λ p. has p folders ≡ false) before
    × (has part folders ≡ true)
    × (t ≡ join_with b'/' (part ∷ after))

from_landmark-cases :
    (parts : List Text)
    → ((from_landmark parts ≡ none) × All (λ p. has p folders ≡ false) parts)
      ⊎ ((found : List Text) × (from_landmark parts ≡ some found)
          × FirstFolder parts (join_with b'/' found))
from_landmark-cases [] = inl (refl, tt)
from_landmark-cases (p ∷ ps) = elim (Bool-cases (has p folders)) [
  | inl e ↦ inr (p ∷ ps, rw e refl, ([], p, ps, refl, tt, e, refl))
  | inr e ↦ elim (from_landmark-cases ps) [
    | inl (a, b) ↦ inl (rw e a, (e, b))
    | inr (found, a, (before, part, after, f, g, h, j)) ↦
        inr (found, rw e a, (p ∷ before, part, after, ap (◌∷◌ p) f, (e, g), h, j))
  ]
]

-- What stands at the end of at least two parts
take_last-two :
    (parts : List Text)
    → 2 ≤ length parts
    → (before : List Text) × (a b : Text) × (parts ≡ before ++ a ∷ b ∷ [])
      × (take_last 2 parts ≡ a ∷ b ∷ [])
take_last-two [] h = absurd (omega arith)
take_last-two (a ∷ []) h = absurd (omega arith)
take_last-two (a ∷ b ∷ []) h = ([], a, b, refl, refl)
take_last-two (x ∷ y ∷ z ∷ zs) h =
    let (before, a, b, e, f) = take_last-two (y ∷ z ∷ zs) (omega arith) in
    let less : length (x ∷ y ∷ z ∷ zs) - 2 ≡ suc (length (y ∷ z ∷ zs) - 2) = omega arith in
    (x ∷ before, a, b, ap (◌∷◌ x) e, ap (λ n. drop n (x ∷ y ∷ z ∷ zs)) less ∙ f)

-- The last two parts behind an ellipsis
abbrev pub LastTwo : List Text → Text → Type 0
LastTwo parts r =
    (before : List Text) × (a b : Text) × (parts ≡ before ++ a ∷ b ∷ [])
    × (r ≡ codes ".../" ++ (a ++ b'/' ∷ b))

last_two-LastTwo : (parts : List Text) → 2 < length parts → LastTwo parts (last_two parts)
last_two-LastTwo parts h =
    let (before, a, b, e, f) = take_last-two parts (omega (arith, h)) in
    (before, a, b, e, ap (λ t. codes ".../" ++ join_with b'/' t) f)

-- How a path is shown in so many characters; its parts stand between slashes.
abbrev pub Shortened : Text → ℕ → Text → Type 0
Shortened path n r =
    ((length path ≤ n) × (r ≡ path))
    ⊎ (((n < length path) × (length (split b'/' path) ≤ 2) × (r ≡ take n path ++ 8230 ∷ []))
        ⊎ (((n < length path)
              × (2 < length (split b'/' path))
              × FirstFolder (split b'/' path) r
              × (length r ≤ n))
            ⊎ ((n < length path)
                × (2 < length (split b'/' path))
                × (All (λ p. has p folders ≡ false) (split b'/' path)
                    ⊎ ((t : Text) × FirstFolder (split b'/' path) t × (n < length t)))
                × LastTwo (split b'/' path) r)))

long-Shortened :
    (path : Text) (n : ℕ)
    → n < length path
    → 2 < length (split b'/' path)
    → Shortened path n (landmark_or_last (from_landmark (split b'/' path)) (split b'/' path) n)
long-Shortened path n l k = elim (from_landmark-cases (split b'/' path)) [
  | inl (e, none_of) ↦
      rw e (inr (inr (inr (l, k, inl none_of, last_two-LastTwo (split b'/' path) k))))
  | inr (found, e, first) ↦ elim (Bool-cases (leb (length (join_with b'/' found)) n)) [
    | inl f ↦ rw (e, f) (inr (inr (inl (l, k, first, ground (arith, f)))))
    | inr f ↦
        rw (e, f)
          (inr (
            inr (
              inr (
                l,
                k,
                inr (join_with b'/' found, first, ground (arith, f)),
                last_two-LastTwo (split b'/' path) k,
              ))))
  ]
]

-- A path that fits is shown whole; else one of at most two parts is cut; else it is shown from its
-- first folder of those five on, if that fits; and else, whether there is none or it does not fit,
-- by its last two parts behind an ellipsis.
pub shorten_path_lem : (path : Text) (n : ℕ) → Shortened path n (shorten_path path n)
unfolding shorten_path truncate
shorten_path_lem path n = elim (Bool-cases (leb (length path) n)) [
  | inl e ↦ rw e (inl (ground (arith, e), refl))
  | inr e ↦ elim (Bool-cases (leb (length (split b'/' path)) 2)) [
    | inl f ↦ rw (e, f) (inr (inl (ground (arith, e), ground (arith, f), refl)))
    | inr f ↦ rw (e, f) (long-Shortened path n (ground (arith, e)) (ground (arith, f)))
  ]
]
