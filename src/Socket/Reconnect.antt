-- ===== src/Socket/Reconnect.antt =====
-- How the client of src/frontend/src/hooks/useWebSocket.ts comes back after a drop.
use soren.Base.{
  ℕ, zero, suc, ◌+◌, ◌*◌, ◌^◌, ◌≤◌, min, Bool, true, false, some, List, [], ◌∷◌, ◌++◌, ◌≡◌, refl,
  nat_Eq, nat_eq_iff, ltb, if◌then◌else◌, lookup, erase, lookup-put, arith, ◌∙◌,
}
use native.Mathlib.Nat.{pow-suc}
use native.Mathlib.Numerals.{add-one}
use soren.Socket.{
  Client, Event, connect_called, disconnect_called, socket_opened, socket_closed, timer_fired, run,
  get_reconnect_delay, connect, on_open, on_close, on_timeout, disconnect, missed_queries,
  clear_timeout, step, initial, phase_of, connecting,
}

-- The closes of a history that no opening and no disconnecting follows.
abbrev pub resets : List Event → Bool
resets [] = false
resets (connect_called ∷ es) = resets es
resets (disconnect_called ∷ es) = true
resets (socket_opened id ∷ es) = true
resets (socket_closed id ∷ es) = resets es
resets (timer_fired id ∷ es) = resets es

abbrev pub closes : List Event → ℕ
closes [] = 0
closes (connect_called ∷ es) = closes es
closes (disconnect_called ∷ es) = closes es
closes (socket_opened id ∷ es) = closes es
closes (socket_closed id ∷ es) = if resets es then closes es else suc (closes es)
closes (timer_fired id ∷ es) = closes es

connect-attempts : (c : Client) → (connect c).attempts ≡ c.attempts
unfolding connect
connect-attempts c = ground arith

on_timeout-attempts : (id : ℕ) (c : Client) → (on_timeout id c).attempts ≡ c.attempts
unfolding on_timeout
on_timeout-attempts id c = connect-attempts (record c { timers = erase id c.timers })

-- The back-off counter is the number of closes since the last opening or disconnecting, over any
-- history of calls, sockets and timers.
pub run-attempts :
    (c : Client) (es : List Event)
    → (run c es).attempts ≡ (if resets es then 0 else c.attempts) + closes es
unfolding run
run-attempts c [] = omega arith
run-attempts c (connect_called ∷ es) = run-attempts (connect c) es ∙ rw (connect-attempts c) refl
run-attempts c (disconnect_called ∷ es) =
    run-attempts (disconnect c) es ∙ unfold disconnect in (ground arith)
run-attempts c (socket_opened id ∷ es) =
    run-attempts (on_open id c) es ∙ unfold on_open in (ground arith)
run-attempts c (socket_closed id ∷ es) =
    run-attempts (on_close id c) es ∙ unfold on_close in (ground arith)
run-attempts c (timer_fired id ∷ es) =
    run-attempts (on_timeout id c) es ∙ rw (on_timeout-attempts id c) refl

pow_pos : (n : ℕ) → 1 ≤ 2 ^ n
pow_pos zero = omega arith
pow_pos (suc n) = rw (pow-suc 2 n) (omega (arith, pow_pos n))

two_le_pow : (n : ℕ) → 2 ≤ 2 ^ (n + 1)
two_le_pow n = rw (add-one n, pow-suc 2 n) (omega (arith, pow_pos n))

run-append : (c : Client) (es fs : List Event) → run c (es ++ fs) ≡ run (run c es) fs
unfolding run
run-append c [] fs = refl
run-append c (e ∷ es) fs = run-append (step c e) es fs

on_close-timer :
    (c : Client) (id : ℕ)
    → lookup c.next (on_close id c).timers ≡ some (get_reconnect_delay (c.attempts + 1))
unfolding on_close
on_close-timer c id =
    rw
      (
        lookup-put c.next c.next (get_reconnect_delay (c.attempts + 1)) c.timers,
        (nat_eq_iff c.next c.next).1 refl,
      )
      refl

on_close-fires :
    (c : Client) (id : ℕ)
    → phase_of
        (on_timeout c.next (on_close id c)).current
        (on_timeout c.next (on_close id c)).sockets
      ≡ some connecting
unfolding on_close on_timeout connect
on_close-fires c id =
    rw
      (
        lookup-put (suc c.next) (suc c.next) connecting (erase id c.sockets),
        (nat_eq_iff (suc c.next) (suc c.next)).1 refl,
      )
      refl

-- Whatever a client did from its start on, a close of a socket leaves a reconnection pending: the
-- timer that the client holds waits min (1000 * 2 ^ n) 30000 ms if n - 1 closes came before, since
-- the last opening or disconnecting, so never the 1000 ms that it is to start at, but 2000 ms at
-- least; and when it fires, a new socket connects.
pub close_schedules :
    (es : List Event) (id : ℕ)
    → (timer d : ℕ) × ((run initial (es ++ socket_closed id ∷ [])).timeout_ref ≡ some timer)
      × (lookup timer (run initial (es ++ socket_closed id ∷ [])).timers ≡ some d)
      × (d ≡ min (1000 * 2 ^ (closes es + 1)) 30000)
      × (2000 ≤ d)
      × (phase_of
            (run initial (es ++ socket_closed id ∷ timer_fired timer ∷ [])).current
            (run initial (es ++ socket_closed id ∷ timer_fired timer ∷ [])).sockets
          ≡ some connecting)
unfolding run
close_schedules es id =
    let c = run initial es in
    let counted : c.attempts ≡ closes es = run-attempts initial es ∙ ground arith in
    (
      c.next,
      get_reconnect_delay (closes es + 1),
      rw (run-append initial es (socket_closed id ∷ [])) (unfold on_close in refl),
      rw (run-append initial es (socket_closed id ∷ [])) (on_close-timer c id ∙ rw counted refl),
      unfold get_reconnect_delay in refl,
      unfold get_reconnect_delay in (omega (arith, two_le_pow (closes es))),
      rw (run-append initial es (socket_closed id ∷ timer_fired c.next ∷ [])) (on_close-fires c id),
    )

-- From a client with no failed attempt, an opening asks for everything that may have been missed
-- exactly if a socket was closed since the last opening or disconnecting, and else asks for
-- nothing.
pub open_refetches :
    (c : Client) (es : List Event) (id : ℕ)
    → c.attempts ≡ 0
    → (on_open id (run c es)).invalidated ≡ (
        if ltb 0 (closes es)
        then (run c es).invalidated ++ missed_queries
        else (run c es).invalidated)
unfolding on_open
open_refetches c es id h =
    let e : (run c es).attempts ≡ closes es = run-attempts c es ∙ ground arith in rw e refl

-- Disconnecting does not last: when the browser reports the close that disconnect asked for, a
-- timer is set again, whose firing opens a new socket.
pub disconnect_reconnects :
    (c : Client) (id : ℕ)
    → (lookup c.next (on_close id (disconnect c)).timers ≡ some 2000)
      × ((on_timeout c.next (on_close id (disconnect c))).current ≡ some (suc c.next))
unfolding on_close disconnect on_timeout connect
disconnect_reconnects c id = (
  rw
      (
        lookup-put c.next c.next 2000 (clear_timeout c.timeout_ref c.timers),
        (nat_eq_iff c.next c.next).1 refl,
      )
      refl,
  refl,
)
