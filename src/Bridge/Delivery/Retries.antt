-- ===== src/Bridge/Delivery/Retries.antt =====
-- How often `post` tries, and what it answers.
use soren.Base.{
  ℕ, zero, suc, ◌+◌, ◌≤◌, ◌<◌, true, List, [], ◌∷◌, ◌≡◌, refl, ◌↔◌, inl, inr, arith, if◌then◌else◌,
  Bool-cases,
}
use soren.Bridge.Delivery.{Reply, Trace, request, logged, wait, is_accepted, post_from, post}

-- The requests of a trace, in order.
abbrev pub requests : List Trace → List ℕ
requests [] = []
requests (request n ∷ ts) = n ∷ requests ts
requests (logged n ∷ ts) = requests ts
requests (wait n ∷ ts) = requests ts

-- The attempts made from one on: up to the first that is accepted, or all that are left.
abbrev pub attempts : (ℕ → Reply) → ℕ → ℕ → List ℕ
attempts reply zero attempt = []
attempts reply (suc left) attempt =
    let later = attempt ∷ attempts reply left (suc attempt) in
    if is_accepted (reply attempt) then attempt ∷ [] else later

post_from-requests :
    (reply : ℕ → Reply) (most left attempt : ℕ)
    → requests (post_from reply most left attempt).1 ≡ attempts reply left attempt
unfolding post_from
post_from-requests reply most zero attempt = refl
post_from-requests reply most (suc left) attempt =
    ground (arith, post_from-requests reply most left (suc attempt))

-- Some attempt among the `left` from `attempt` on is accepted.
abbrev pub Accepts : (ℕ → Reply) → ℕ → ℕ → Type 0
Accepts reply left attempt =
    (n : ℕ) × (attempt ≤ n) × (n < attempt + left) × (is_accepted (reply n) ≡ true)

post_from_sound :
    (reply : ℕ → Reply) (most left attempt : ℕ)
    → (post_from reply most left attempt).0 ≡ true
    → Accepts reply left attempt
unfolding post_from
post_from_sound reply most zero attempt h = cc
post_from_sound reply most (suc left) attempt h = elim (Bool-cases (is_accepted (reply attempt))) [
  | inl e ↦ (attempt, omega arith, omega arith, e)
  | inr e ↦
      let (n, low, high, a) =
        post_from_sound reply most left (suc attempt) (rw (e, post_from) at h) in
      (n, omega arith, omega arith, a)
]

post_from_complete :
    (reply : ℕ → Reply) (most left attempt n : ℕ)
    → attempt ≤ n
    → n < attempt + left
    → is_accepted (reply n) ≡ true
    → (post_from reply most left attempt).0 ≡ true
unfolding post_from
post_from_complete reply most zero attempt n low high a = absurd (omega arith)
post_from_complete reply most (suc left) attempt n low high a =
    ground (arith, post_from_complete reply most left (suc attempt) n)

-- Posting answers true exactly when one of the 1 + retries attempts is accepted, and it makes the
-- requests 1, 2, ... in order, up to the first accepted one and never more than 1 + retries.
pub post_lem :
    (reply : ℕ → Reply) (retries : ℕ)
    → (((post reply retries).0 ≡ true) ↔ Accepts reply (1 + retries) 1)
      × (requests (post reply retries).1 ≡ attempts reply (1 + retries) 1)
unfolding post
post_lem reply retries = (
  (
    post_from_sound reply (1 + retries) (1 + retries) 1,
    λ (n, low, high, a). post_from_complete reply (1 + retries) (1 + retries) 1 n low high a,
  ),
  post_from-requests reply (1 + retries) (1 + retries) 1,
)
