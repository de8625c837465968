-- ===== src/Bridge/Delivery.antt =====
-- `post` of .opencode/plugins/soren-bridge.ts: sending an event to the server, with retries. The
-- replies of the network are an argument, one for each attempt.
pub mod Retries
use soren.Base.{
  ℕ, zero, suc, ◌+◌, ◌*◌, Bool, true, false, List, [], ◌∷◌, ◌++◌, Text, codes, ltb, if◌then◌else◌,
  length, take,
}

-- `res.ok`, another status, or a rejected `fetch`
pub data Reply : Type 0 where
  accepted : Reply
  refused : ℕ → Reply
  failed : Reply

-- What an observer sees of one call: requests, lines logged, and waits in milliseconds.
pub data Trace : Type 0 where
  request logged : ℕ → Trace
  wait : ℕ → Trace

abbrev pub is_accepted : Reply → Bool
is_accepted accepted = true
is_accepted (refused n) = false
is_accepted failed = false

module _ (reply : ℕ → Reply) (max_attempts : ℕ) where
  -- The loop at `attempt`, with so many rounds left.
  unfoldable pub post_from : ℕ → ℕ → Bool × List Trace
  post_from zero attempt = (false, [])
  post_from (suc left) attempt =
      let rest = post_from left (suc attempt) in
      let pause = if ltb attempt max_attempts then wait (500 * attempt) ∷ [] else [] in
      if is_accepted (reply attempt)
      then (true, request attempt ∷ [])
      else (rest.0, (request attempt ∷ logged attempt ∷ []) ++ (pause ++ rest.1))

-- `post(url, body, { retries })`
unfoldable pub post : (ℕ → Reply) → ℕ → Bool × List Trace
unfolding post_from
post reply retries = post_from reply (1 + retries) (1 + retries) 1

-- `truncate(s, n)` on a text
unfoldable pub truncate : Text → ℕ → Text
truncate s n = if ltb n (length s) then take n s ++ codes "…" else s
