-- ===== src/Socket.antt =====
-- src/frontend/src/hooks/useWebSocket.ts: the client's connection to the server, with its reconnect
-- timer and back-off. Opening and closing a socket and firing a timer are events of the browser.
pub mod Reconnect
pub mod Messages
mod Tests
use soren.Base.{
  ℕ, suc, ◌+◌, ◌*◌, ◌^◌, ◌≤◌, ◌<◌, min, Bool, true, false, not, ◌&&◌, Option, none, some, List, [],
  ◌∷◌, ◌++◌, Text, codes, nat_eq, ltb, if◌then◌else◌, lookup, put, erase, nat_Eq,
}

-- src/frontend/src/lib/constants.ts, in milliseconds
abbrev pub reconnect_delay_base : ℕ
reconnect_delay_base = 1000

abbrev pub reconnect_delay_max : ℕ
reconnect_delay_max = 30000

-- `readyState`
pub data Phase : Type 0 where
  connecting opened closing : Phase

pub record Client : Type 0 where
  -- the sockets that are not closed, by a number that stands for the object
  pub sockets : List (ℕ × Phase)
  -- `wsRef.current`
  pub current : Option ℕ
  -- `reconnectAttemptRef.current`
  pub attempts : ℕ
  -- pending timers with their delays, and `reconnectTimeoutRef.current`
  pub timers : List (ℕ × ℕ)
  pub timeout_ref : Option ℕ
  pub is_connected : Bool
  pub is_reconnecting : Bool
  -- the queries that were invalidated, oldest first
  pub invalidated : List Text
  -- the number of the next socket or timer
  pub next : ℕ

abbrev pub initial : Client
initial = record {
  sockets = [];
  current = none;
  attempts = 0;
  timers = [];
  timeout_ref = none;
  is_connected = false;
  is_reconnecting = false;
  invalidated = [];
  next = 0;
}

-- `getReconnectDelay`
unfoldable pub get_reconnect_delay : ℕ → ℕ
get_reconnect_delay attempts = min (reconnect_delay_base * 2 ^ attempts) reconnect_delay_max

abbrev pub is_open : Option Phase → Bool
is_open none = false
is_open (some connecting) = false
is_open (some opened) = true
is_open (some closing) = false

abbrev pub phase_of : Option ℕ → List (ℕ × Phase) → Option Phase
phase_of none sockets = none
phase_of (some id) sockets = lookup id sockets

-- `connect`
unfoldable pub connect : Client → Client
connect c = if is_open (phase_of c.current c.sockets) then c else record c {
  is_reconnecting = true;
  sockets = put c.next connecting c.sockets;
  current = some c.next;
  next = suc c.next;
}

abbrev pub missed_queries : List Text
missed_queries = codes "agent-events" ∷ codes "thoughts" ∷ codes "messages" ∷ []

-- `ws.onopen`
unfoldable pub on_open : ℕ → Client → Client
on_open id c = record c {
  sockets = put id opened c.sockets;
  is_connected = true;
  is_reconnecting = false;
  attempts = 0;
  invalidated = if ltb 0 c.attempts then c.invalidated ++ missed_queries else c.invalidated;
}

-- `ws.onclose`
unfoldable pub on_close : ℕ → Client → Client
unfolding get_reconnect_delay
on_close id c = record c {
  sockets = erase id c.sockets;
  is_connected = false;
  current = none;
  attempts = c.attempts + 1;
  timers = put c.next (get_reconnect_delay (c.attempts + 1)) c.timers;
  timeout_ref = some c.next;
  next = suc c.next;
}

-- The callback of `setTimeout`
unfoldable pub on_timeout : ℕ → Client → Client
unfolding connect
on_timeout id c = connect (record c { timers = erase id c.timers })

abbrev pub clear_timeout : Option ℕ → List (ℕ × ℕ) → List (ℕ × ℕ)
clear_timeout none timers = timers
clear_timeout (some id) timers = erase id timers

-- `ws.close()`: the browser reports the close later, by `onclose`.
abbrev pub start_close : Option ℕ → List (ℕ × Phase) → List (ℕ × Phase)
start_close none sockets = sockets
start_close (some id) sockets = put id closing sockets

-- `disconnect`
unfoldable pub disconnect : Client → Client
disconnect c = record c {
  timers = clear_timeout c.timeout_ref c.timers;
  attempts = 0;
  sockets = start_close c.current c.sockets;
}

pub data Event : Type 0 where
  connect_called disconnect_called : Event
  socket_opened socket_closed timer_fired : ℕ → Event

unfoldable pub step : Client → Event → Client
step c connect_called = connect c
step c disconnect_called = disconnect c
step c (socket_opened id) = on_open id c
step c (socket_closed id) = on_close id c
step c (timer_fired id) = on_timeout id c

unfoldable pub run : Client → List Event → Client
unfolding step
run c [] = c
run c (e ∷ es) = run (step c e) es
