-- ===== src/Bridge/Turn/Gate.antt =====
-- The stop-gate over a sequence of turns: how many sessions it remembers, and how often it nudges.
use soren.Base.{
  ℕ, suc, ◌+◌, ◌≤◌, ◌<◌, true, false, List, [], ◌∷◌, Text, ◌≡◌, inl, inr, ◌==◌, text_Eq,
  text_eq_iff, ltb, if◌then◌else◌, length, has, add, drop, Distinct, has-add, add-Distinct, arith,
  Bool-cases,
}
use soren.Bridge.Settings.{Env}
use soren.Bridge.Turn.{Scan, max_nudged, remember, stop_gate}

-- The sessions that a sequence of turns leaves remembered.
unfoldable pub gates : Env → List (Scan × Text) → List Text → List Text
gates env [] nudged = nudged
gates env ((s, session) ∷ turns) nudged = gates env turns (stop_gate env s session nudged).0

drop_one-Distinct : (xs : List Text) → Distinct xs → Distinct (drop 1 xs)
drop_one-Distinct [] d = tt
drop_one-Distinct (x ∷ xs) d = d.1

length-add : (k : Text) (xs : List Text) → length (add k xs) ≤ suc (length xs)
length-add k [] = omega arith
length-add k (x ∷ xs) = ground (arith, length-add k xs)

abbrev pub IsBounded : List Text → Type 0
IsBounded nudged = Distinct nudged × (length nudged ≤ max_nudged)

length-drop_one : (xs : List Text) → length xs ≤ suc max_nudged → length (drop 1 xs) ≤ max_nudged
length-drop_one [] h = omega arith
length-drop_one (x ∷ xs) h = omega arith

remember-IsBounded :
    (session : Text) (nudged : List Text) → IsBounded nudged → IsBounded (remember session nudged)
unfolding remember
remember-IsBounded session nudged (d, h) =
    elim (Bool-cases (ltb max_nudged (length (add session nudged)))) [
      | inl e ↦ rw e (
        drop_one-Distinct _ (add-Distinct session nudged d),
        length-drop_one (add session nudged) (omega (arith, length-add session nudged)),
      )
      | inr e ↦ rw e (add-Distinct session nudged d, ground arith)
    ]

stop_gate-IsBounded :
    (env : Env) (s : Scan) (session : Text) (nudged : List Text)
    → IsBounded nudged
    → IsBounded (stop_gate env s session nudged).0
unfolding stop_gate
stop_gate-IsBounded env s session nudged b = elim (Bool-cases (stop_gate env s session nudged).1) [
  | inl e ↦ ground (arith, remember-IsBounded session nudged b)
  | inr e ↦ ground arith
]

-- However many turns end, from at most 200 sessions that are remembered, none twice, at most 200
-- are remembered after, and none twice.
pub gates-IsBounded :
    (env : Env) (turns : List (Scan × Text)) (nudged : List Text)
    → IsBounded nudged
    → IsBounded (gates env turns nudged)
unfolding gates
gates-IsBounded env [] nudged b = b
gates-IsBounded env ((s, session) ∷ turns) nudged b =
    gates-IsBounded env turns _ (stop_gate-IsBounded env s session nudged b)

-- How many sessions were remembered after `k`.
abbrev behind : Text → List Text → ℕ
behind k [] = 0
behind k (x ∷ xs) = if x == k then length xs else behind k xs

behind-add :
    (k j : Text) (xs : List Text)
    → has k xs ≡ true
    → (has k (add j xs) ≡ true) × (behind k (add j xs) ≤ suc (behind k xs))
behind-add k j [] h = cc
behind-add k j (x ∷ xs) h = ground (
  arith,
  has-add j k (x ∷ xs),
  behind-add k j xs,
  length-add j xs,
  text_eq_iff x k,
  text_eq_iff x j,
  text_eq_iff j k,
)

behind-drop_one :
    (k : Text) (xs : List Text)
    → has k xs ≡ true
    → suc (behind k xs) < length xs
    → (has k (drop 1 xs) ≡ true) × (behind k (drop 1 xs) ≡ behind k xs)
behind-drop_one k [] h l = cc
behind-drop_one k (x ∷ xs) h l = ground arith

-- `k` is remembered, with at most `n` sessions after it.
abbrev Within : Text → ℕ → List Text → Type 0
Within k n xs = (has k xs ≡ true) × (behind k xs ≤ n)

drop_one-Within :
    (k : Text) (n : ℕ) (xs : List Text) → suc n < length xs → Within k n xs → Within k n (drop 1 xs)
drop_one-Within k n xs l (h, b) = ground (arith, behind-drop_one k xs h)

add-Within : (k j : Text) (n : ℕ) (xs : List Text) → Within k n xs → Within k (suc n) (add j xs)
add-Within k j n xs (h, b) = ground (arith, behind-add k j xs h)

add_self : (k : Text) (xs : List Text) → has k xs ≡ false → Within k 0 (add k xs)
add_self k [] h = ground (arith, text_eq_iff k k)
add_self k (x ∷ xs) h = ground (arith, add_self k xs, has-add k k xs, text_eq_iff k k)

trimmed-Within :
    (k : Text) (n : ℕ) (xs : List Text)
    → n < max_nudged
    → Within k n xs
    → Within k n (if ltb max_nudged (length xs) then drop 1 xs else xs)
trimmed-Within k n xs small w = elim (Bool-cases (ltb max_nudged (length xs))) [
  | inl e ↦ rw e (drop_one-Within k n xs (ground arith) w)
  | inr e ↦ rw e w
]

stop_gate-Within :
    (env : Env) (s : Scan) (k j : Text) (n : ℕ) (xs : List Text)
    → suc n < max_nudged
    → Within k n xs
    → Within k (suc n) (stop_gate env s j xs).0
unfolding stop_gate remember
stop_gate-Within env s k j n xs small w = elim (Bool-cases (stop_gate env s j xs).1) [
  | inl e ↦ ground (arith, trimmed-Within k (suc n) (add j xs) small (add-Within k j n xs w))
  | inr e ↦ ground arith
]

gates-Within :
    (env : Env) (turns : List (Scan × Text)) (k : Text) (n : ℕ) (xs : List Text)
    → n + length turns < max_nudged
    → Within k n xs
    → has k (gates env turns xs) ≡ true
unfolding gates
gates-Within env [] k n xs small w = w.0
gates-Within env ((s, j) ∷ turns) k n xs small w =
    gates-Within env turns k (suc n) _ (omega arith)
      (stop_gate-Within env s k j n xs (omega arith) w)

nudge_remembers :
    (env : Env) (s : Scan) (k : Text) (nudged : List Text)
    → (stop_gate env s k nudged).1 ≡ true
    → Within k 0 (stop_gate env s k nudged).0
unfolding stop_gate remember
nudge_remembers env s k nudged h =
    ground (arith, trimmed-Within k 0 (add k nudged), add_self k nudged)

no_nudge_remembered :
    (env : Env) (s : Scan) (k : Text) (nudged : List Text)
    → has k nudged ≡ true
    → (stop_gate env s k nudged).1 ≡ false
unfolding stop_gate
no_nudge_remembered env s k nudged h = ground arith

-- A session that was nudged is not nudged again when fewer than 200 turns have ended in between,
-- in whatever sessions they ended.
pub nudged_once :
    (env : Env) (s later : Scan) (k : Text) (nudged : List Text) (turns : List (Scan × Text))
    → (stop_gate env s k nudged).1 ≡ true
    → length turns < max_nudged
    → (stop_gate env later k (gates env turns (stop_gate env s k nudged).0)).1 ≡ false
nudged_once env s later k nudged turns h few =
    no_nudge_remembered env later k _
      (gates-Within env turns k 0 _ (omega arith) (nudge_remembers env s k nudged h))
