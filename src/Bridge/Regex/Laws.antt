-- ===== src/Bridge/Regex/Laws.antt =====
-- What a regular expression matches, as a relation between positions, and that `test` decides it.
use soren.Base.{
  ℕ, Bool, true, ◌&&◌, ◌||◌, Option, none, some, [], ◌∷◌, ◌++◌, Text, nat_eq, ◌≡◌, refl, ◌⊎◌, inl,
  inr, ◌↔◌, arith, All, false, Bool-cases,
}
use soren.Bridge.Regex.{
  Regex, unit, literal, seq, either, maybe, many, start, finish, boundary, run_literal, run_many,
  run, test_from, test, is_start, is_end, differ, word_before, word_after,
}

pub data Matches : Regex → Option ℕ → Text → Option ℕ → Text → Type 0 where
  of_unit :
      {p : ℕ → Bool} {b : Option ℕ} {c : ℕ} {s : Text}
      → p c ≡ true
      → Matches (unit p) b (c ∷ s) (some c) s
  of_empty : {b : Option ℕ} {s : Text} → Matches (literal []) b s b s
  of_cons :
      {p : Text} {b d : Option ℕ} {c : ℕ} {s t : Text}
      → Matches (literal p) (some c) s d t
      → Matches (literal (c ∷ p)) b (c ∷ s) d t
  of_seq :
      {r q : Regex} {b c d : Option ℕ} {s t u : Text}
      → Matches r b s c t
      → Matches q c t d u
      → Matches (seq r q) b s d u
  of_left :
      {r q : Regex} {b d : Option ℕ} {s t : Text} → Matches r b s d t → Matches (either r q) b s d t
  of_right :
      {r q : Regex} {b d : Option ℕ} {s t : Text} → Matches q b s d t → Matches (either r q) b s d t
  of_some :
      {r : Regex} {b d : Option ℕ} {s t : Text} → Matches r b s d t → Matches (maybe r) b s d t
  of_none : {r : Regex} {b : Option ℕ} {s : Text} → Matches (maybe r) b s b s
  of_stop : {p : ℕ → Bool} {b : Option ℕ} {s : Text} → Matches (many p) b s b s
  of_more :
      {p : ℕ → Bool} {b d : Option ℕ} {c : ℕ} {s t : Text}
      → p c ≡ true
      → Matches (many p) (some c) s d t
      → Matches (many p) b (c ∷ s) d t
  of_start : {b : Option ℕ} {s : Text} → is_start b ≡ true → Matches start b s b s
  of_finish : {b : Option ℕ} {s : Text} → is_end s ≡ true → Matches finish b s b s
  of_boundary :
      {b : Option ℕ} {s : Text}
      → differ (word_before b) (word_after s) ≡ true
      → Matches boundary b s b s

-- A match of `r` that ends where `k` holds.
abbrev pub Ends : Regex → Option ℕ → Text → (Option ℕ → Text → Bool) → Type 0
Ends r b s k = (c : Option ℕ) × (t : Text) × Matches r b s c t × (k c t ≡ true)

and_split : (a b : Bool) → (a && b) ≡ true → (a ≡ true) × (b ≡ true)
and_split a b h = ground arith

or_split : (a b : Bool) → (a || b) ≡ true → (a ≡ true) ⊎ (b ≡ true)
or_split a b h = ground arith

literal_sound :
    (p : Text) (b : Option ℕ) (s : Text) (k : Option ℕ → Text → Bool)
    → run_literal p b s k ≡ true
    → Ends (literal p) b s k
unfolding run_literal
literal_sound [] b s k h = (b, s, of_empty, h)
literal_sound (c ∷ p) b [] k h = cc
literal_sound (c ∷ p) b (d ∷ s) k h =
    let (e, more) = and_split (nat_eq c d) _ h in
    let (x, t, m, end) = literal_sound p (some d) s k more in
    let same : c ≡ d = ground arith in (x, t, rw same (of_cons m), end)

many_sound :
    (p : ℕ → Bool) (b : Option ℕ) (s : Text) (k : Option ℕ → Text → Bool)
    → run_many p b s k ≡ true
    → Ends (many p) b s k
unfolding run_many
many_sound p b [] k h = (b, [], of_stop, h)
many_sound p b (c ∷ s) k h = elim (or_split (p c && run_many p (some c) s k) _ h) [
  | inl more ↦
      let (e, rest) = and_split (p c) _ more in
      let (x, t, m, end) = many_sound p (some c) s k rest in (x, t, of_more e m, end)
  | inr end ↦ (b, c ∷ s, of_stop, end)
]

pub run_sound :
    (r : Regex) (b : Option ℕ) (s : Text) (k : Option ℕ → Text → Bool)
    → run r b s k ≡ true
    → Ends r b s k
unfolding run
run_sound (unit p) b [] k h = cc
run_sound (unit p) b (c ∷ s) k h = let (e, end) = and_split (p c) _ h in (some c, s, of_unit e, end)
run_sound (literal t) b s k h = literal_sound t b s k h
run_sound (seq r q) b s k h =
    let (c, t, m, more) = run_sound r b s (λ c t. run q c t k) h in
    let (d, u, n, end) = run_sound q c t k more in (d, u, of_seq m n, end)
run_sound (either r q) b s k h = elim (or_split (run r b s k) _ h) [
  | inl e ↦ let (d, t, m, end) = run_sound r b s k e in (d, t, of_left m, end)
  | inr e ↦ let (d, t, m, end) = run_sound q b s k e in (d, t, of_right m, end)
]
run_sound (maybe r) b s k h = elim (or_split (run r b s k) _ h) [
  | inl e ↦ let (d, t, m, end) = run_sound r b s k e in (d, t, of_some m, end)
  | inr end ↦ (b, s, of_none, end)
]
run_sound (many p) b s k h = many_sound p b s k h
run_sound start b s k h = let (e, end) = and_split (is_start b) _ h in (b, s, of_start e, end)
run_sound finish b s k h = let (e, end) = and_split (is_end s) _ h in (b, s, of_finish e, end)
run_sound boundary b s k h =
    let (e, end) = and_split (differ (word_before b) (word_after s)) _ h in
    (b, s, of_boundary e, end)

nat_eq_refl : (c : ℕ) → nat_eq c c ≡ true
nat_eq_refl c = ground arith

many_stop :
    (p : ℕ → Bool) (b : Option ℕ) (s : Text) (k : Option ℕ → Text → Bool)
    → k b s ≡ true
    → run_many p b s k ≡ true
unfolding run_many
many_stop p b [] k h = h
many_stop p b (c ∷ s) k h = ground arith

pub run_complete :
    {r : Regex} {b c : Option ℕ} {s t : Text} (k : Option ℕ → Text → Bool)
    → Matches r b s c t
    → k c t ≡ true
    → run r b s k ≡ true
unfolding run run_literal run_many
run_complete k (of_unit e) h = rw e h
run_complete k of_empty h = h
run_complete k (of_cons {c} m) h = rw (nat_eq_refl c) (run_complete k m h)
run_complete k (of_seq m n) h = run_complete _ m (run_complete k n h)
run_complete k (of_left m) h = rw (run_complete k m h)
run_complete k (of_right m) h = ground (arith, run_complete k m h)
run_complete k (of_some m) h = rw (run_complete k m h)
run_complete k of_none h = ground arith
run_complete k (of_stop {p} {b} {s}) h = many_stop p b s k h
run_complete k (of_more e m) h = rw (e, run_complete k m h)
run_complete k (of_start e) h = rw e h
run_complete k (of_finish e) h = rw e h
run_complete k (of_boundary e) h = rw e h

-- The code unit before the text that follows `p`, where `b` stands before `p`.
abbrev pub last_of : Option ℕ → Text → Option ℕ
last_of b [] = b
last_of b (c ∷ p) = last_of (some c) p

-- `r` matches somewhere in a text.
abbrev pub Occurs : Regex → Option ℕ → Text → Type 0
Occurs r b s =
    (p : Text) × (q : Text) × (c : Option ℕ) × (t : Text) × (s ≡ p ++ q)
    × Matches r (last_of b p) q c t

test_from_sound : (r : Regex) (b : Option ℕ) (s : Text) → test_from r b s ≡ true → Occurs r b s
unfolding test_from
test_from_sound r b [] h =
    let (c, t, m, _) = run_sound r b [] (λ c t. true) h in ([], [], c, t, refl, m)
test_from_sound r b (x ∷ s) h = elim (or_split (run r b (x ∷ s) (λ c t. true)) _ h) [
  | inl e ↦ let (c, t, m, _) = run_sound r b (x ∷ s) (λ c t. true) e in ([], x ∷ s, c, t, refl, m)
  | inr e ↦
      let (p, q, c, t, same, m) = test_from_sound r (some x) s e in (x ∷ p, q, c, t, rw same, m)
]

-- A match at the end of a text is found behind any text.
pub test_from_behind :
    (r : Regex) (b : Option ℕ) (p q : Text) {c : Option ℕ} {t : Text}
    → Matches r (last_of b p) q c t
    → test_from r b (p ++ q) ≡ true
unfolding test_from
test_from_behind r b [] [] m = run_complete _ m refl
test_from_behind r b [] (x ∷ q) m = rw (run_complete (λ c t. true) m refl)
test_from_behind r b (x ∷ p) q m = ground (arith, test_from_behind r (some x) p q m)

-- `test` accepts a text exactly when the expression matches somewhere in it.
pub test_iff : (r : Regex) (s : Text) → (test r s ≡ true) ↔ Occurs r none s
unfolding test
test_iff r s =
    (test_from_sound r none s, λ (p, q, c, t, same, m). rw same (test_from_behind r none p q m))

pub test-false_iff : (r : Regex) (s : Text) → (test r s ≡ false) ↔ ¬ Occurs r none s
test-false_iff r s = elim (Bool-cases (test r s)) [
  | inl e ↦ (λ h. cc, λ no. absurd (no ((test_iff r s).0 e)))
  | inr e ↦ (λ h o. cc ((test_iff r s).1 o), λ no. e)
]

-- How the parts of an expression match a text that is written out.
pub Matches-literal :
    (p : Text) (b : Option ℕ) (s : Text) → Matches (literal p) b (p ++ s) (last_of b p) s
Matches-literal [] b s = of_empty
Matches-literal (c ∷ p) b s = of_cons (Matches-literal p (some c) s)

pub Matches-many :
    (p : ℕ → Bool) (w : Text) (b : Option ℕ) (s : Text)
    → All (λ c. p c ≡ true) w
    → Matches (many p) b (w ++ s) (last_of b w) s
Matches-many p [] b s h = of_stop
Matches-many p (c ∷ w) b s (e, h) = of_more e (Matches-many p w (some c) s h)
