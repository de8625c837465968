-- ===== src/Sidebar/Members.antt =====
-- How a group of src/frontend/src/components/sidebar/sidebar-utils.ts splits its members into a
-- supervisor and the agents in order.
use soren.Base.{
  ℕ, suc, ◌+◌, ◌≤◌, ◌<◌, Bool, true, false, Option, none, some, List, [], ◌∷◌, Text, ◌≡◌, refl, inl,
  inr, ap, sym, ◌==◌, text_Eq, nat_Eq, subst, Option-cases, nat_eq_iff, ltb, if◌then◌else◌, filter,
  length, sort, insert, In, In-sort, In-filter, Bool-cases, arith,
}
use soren.Stores.Agents.{Agent}
use soren.Sidebar.{
  Project, numbered, supervisor_of, first_of, without, is_supervisor, supervisor_priority,
  sort_agents, agent_after, group_of,
}

-- How many agents pass a test.
abbrev pub count : (Agent → Bool) → List Agent → ℕ
count q agents = length (filter q agents)

abbrev pub count_option : (Agent → Bool) → Option Agent → ℕ
count_option q none = 0
count_option q (some a) = if q a then 1 else 0

count-cons :
    (q : Agent → Bool) (a : Agent) (rest : List Agent)
    → count q (a ∷ rest) ≡ (if q a then 1 else 0) + count q rest
count-cons q a rest = ground arith

count-insert :
    (after : Agent → Agent → Bool) (q : Agent → Bool) (a : Agent) (rest : List Agent)
    → count q (insert after a rest) ≡ count q (a ∷ rest)
count-insert after q a [] = refl
count-insert after q a (b ∷ rest) = elim (Bool-cases (after a b)) [
  | inl e ↦ rw e (
      omega (
        arith,
        count-cons q b (insert after a rest),
        count-insert after q a rest,
        count-cons q a rest,
        count-cons q a (b ∷ rest),
        count-cons q b rest,
      ))
  | inr e ↦ rw e refl
]

count-sort :
    (after : Agent → Agent → Bool) (q : Agent → Bool) (agents : List Agent)
    → count q (sort after agents) ≡ count q agents
count-sort after q [] = refl
count-sort after q (a ∷ rest) = omega (
  arith,
  count-insert after q a (sort after rest),
  count-cons q a (sort after rest),
  count-sort after q rest,
  count-cons q a rest,
)

-- Leaving out an earlier position leaves out nothing.
without-earlier :
    (s : ℕ × Agent) (n : ℕ) (agents : List Agent)
    → s.0 < n
    → without (some s) (numbered n agents) ≡ agents
without-earlier s n [] h = refl
without-earlier s n (a ∷ rest) h =
    rw (other n s.0 h) (ap (◌∷◌ a) (without-earlier s (suc n) rest (omega arith)))
  where
    other : (n k : ℕ) → k < n → (n == k) ≡ false
    other n k h = ground arith

position_after : (s : ℕ × Agent) (n : ℕ) (agents : List Agent) → In s (numbered n agents) → n ≤ s.0
position_after s n [] h = elim h [ ]
position_after s n (a ∷ rest) (inl e) = omega (arith, ap (λ m. m.0) e)
position_after s n (a ∷ rest) (inr h) = omega (arith, position_after s (suc n) rest h)

count-without :
    (q : Agent → Bool) (s : ℕ × Agent) (n : ℕ) (agents : List Agent)
    → In s (numbered n agents)
    → count_option q (some s.1) + count q (without (some s) (numbered n agents)) ≡ count q agents
count-without q s n [] h = elim h [ ]
count-without q s n (a ∷ rest) (inl e) =
    subst
      (λ r.
        count_option q (some r.1) + count q (without (some r) (numbered n (a ∷ rest)))
        ≡ count q (a ∷ rest))
      e
      (rw ((nat_eq_iff n n).1 refl, without-earlier (n, a) (suc n) rest (omega arith))
        (sym (count-cons q a rest)))
count-without q s n (a ∷ rest) (inr h) = rw (earlier n s.0 (position_after s (suc n) rest h)) (
    omega (
      arith,
      count-without q s (suc n) rest h,
      count-cons q a rest,
      count-cons q a (without (some s) (numbered (suc n) rest)),
    ))
  where
    earlier : (n k : ℕ) → suc n ≤ k → (n == k) ≡ false
    earlier n k h = ground arith

all_numbered : (n : ℕ) (agents : List Agent) → without none (numbered n agents) ≡ agents
all_numbered n [] = refl
all_numbered n (a ∷ rest) = ap (◌∷◌ a) (all_numbered (suc n) rest)

first_of-In : (s : ℕ × Agent) (ms : List (ℕ × Agent)) → first_of ms ≡ some s → In s ms
first_of-In s [] h = cc
first_of-In s (m ∷ ms) h = inl (cc h)

supervisor_of-In :
    (s : ℕ × Agent) (members : List Agent)
    → supervisor_of members ≡ some s
    → In s (numbered 0 members) × (is_supervisor s.1 ≡ true)
unfolding supervisor_of
supervisor_of-In s members h =
    In-filter s (λ m. is_supervisor m.1) (numbered 0 members)
      (In-sort s (λ a b. ltb (supervisor_priority b.1) (supervisor_priority a.1)) _
        (first_of-In s _ h))

abbrev pub Supervises : Option Agent → Type 0
Supervises none = Unit
Supervises (some a) = is_supervisor a ≡ true

-- A group splits the members of its project: as many of them as pass any given test do so as its
-- supervisor or among its agents, so none is lost or listed twice; and its supervisor, if it has
-- one, is of the kind of supervisors.
pub group_of_lem :
    (after : Text → Text → Bool) (projects : List Project) (id : Text) (members : List Agent)
    (q : Agent → Bool)
    → (count_option q (group_of after projects id members).supervisor
          + count q (group_of after projects id members).agents
        ≡ count q members)
      × Supervises (group_of after projects id members).supervisor
unfolding group_of sort_agents
group_of_lem after projects id members q = elim (Option-cases (supervisor_of members)) [
  | inl e ↦ rw e (rw (count-sort (agent_after after) q, all_numbered 0 members) (omega arith), tt)
  | inr (s, e) ↦
      let (listed, supervises) = supervisor_of-In s members e in
      rw e (
        rw (count-sort (agent_after after) q (without (some s) (numbered 0 members)))
            (count-without q s 0 members listed),
        supervises,
      )
]
