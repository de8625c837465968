-- ===== src/WebTerminal/Invariant.antt =====
-- What holds of src/frontend/src/components/terminal/WebTerminal.tsx after any history.
use soren.Base.{
  ℕ, ◌≤◌, Bool, true, false, not, ◌&&◌, Option, none, some, List, [], ◌∷◌, nat_eq, has, has-add,
  lookup, put, nat_Eq, lookup-put, ◌≡◌, refl, sym, subst, arith,
}
use soren.Socket.{Phase}
use soren.WebTerminal.{
  initial, shell_mode, open_new, Mode, Status, connecting, connected, closed, Terminal, is_current,
  close_socket, open_socket, retire, clear_ping,
}

-- How a socket may stand: the current one connects or is open, as the status says; every other one
-- is being closed on purpose.
abbrev pub allowed : Status → Bool → Bool → Option Phase → Bool
allowed st cur marked none = not cur
allowed st cur marked (some Phase.closing) = not cur && marked
allowed connecting cur marked (some Phase.connecting) = cur && not marked
allowed connected cur marked (some Phase.connecting) = false
allowed closed cur marked (some Phase.connecting) = false
allowed connected cur marked (some Phase.opened) = cur && not marked
allowed connecting cur marked (some Phase.opened) = false
allowed closed cur marked (some Phase.opened) = false

abbrev pub is_connected : Status → Bool
is_connected connecting = false
is_connected connected = true
is_connected closed = false

-- No interval runs but the one that `pingRef` names, and it pings the current, connected socket.
abbrev pub pings_allowed : Option ℕ → Status → Option ℕ → List (ℕ × ℕ) → Bool
pings_allowed cur st none [] = true
pings_allowed cur st none (_ ∷ _) = false
pings_allowed cur st (some i) [] = false
pings_allowed cur st (some i) ((j, id) ∷ []) = nat_eq i j && is_current cur id && is_connected st
pings_allowed cur st (some i) (_ ∷ _ ∷ _) = false

pub record IsValid (t : Terminal) : Type 0 where
  pub each :
      (id : ℕ)
      → allowed t.status
          (is_current t.current id)
          (has id t.intentionally_closed)
          (lookup id t.sockets)
        ≡ true
  pub one_ping : pings_allowed t.current t.status t.ping_ref t.intervals ≡ true
  pub fresh :
      (id : ℕ)
      → t.next ≤ id
      → (lookup id t.sockets ≡ none) × (has id t.intentionally_closed ≡ false)

pub initial-IsValid : (mode : Mode) → IsValid (initial mode)
initial-IsValid mode = record { each = λ id. refl; one_ping = refl; fresh = λ id h. (refl, refl) }

-- Closing keeps the three parts of the invariant.
retire-each :
    (cur : Option ℕ) (t : Terminal) (id : ℕ)
    → t.current ≡ cur
    → IsValid t
    → allowed
        (retire cur (record (clear_ping t) { current = none })).status
        false
        (has id (retire cur (record (clear_ping t) { current = none })).intentionally_closed)
        (lookup id (retire cur (record (clear_ping t) { current = none })).sockets)
      ≡ true
retire-each none t id e v = ground (arith, v.each id)
retire-each (some c) t id e v = ground (
  arith,
  v.each id,
  v.each c,
  has-add c id t.intentionally_closed,
  lookup-put c id Phase.closing t.sockets,
)

pub clear_ping_lem : (t : Terminal) → IsValid t → (clear_ping t).intervals ≡ []
clear_ping_lem t v = ground (arith, v.one_ping)

retire-fields :
    (cur : Option ℕ) (t : Terminal)
    → ((retire cur t).current ≡ t.current)
      × ((retire cur t).status ≡ t.status)
      × ((retire cur t).ping_ref ≡ t.ping_ref)
      × ((retire cur t).intervals ≡ t.intervals)
      × ((retire cur t).next ≡ t.next)
retire-fields none t = ground arith
retire-fields (some c) t = ground arith

retire-fresh :
    (cur : Option ℕ) (t : Terminal) (id : ℕ)
    → t.current ≡ cur
    → IsValid t
    → t.next ≤ id
    → (lookup id (retire cur (record (clear_ping t) { current = none })).sockets ≡ none)
      × (has id (retire cur (record (clear_ping t) { current = none })).intentionally_closed
          ≡ false)
retire-fresh none t id e v h = v.fresh id h
retire-fresh (some c) t id e v h = ground (
  arith,
  v.fresh id h,
  v.fresh c,
  v.each c,
  has-add c id t.intentionally_closed,
  lookup-put c id Phase.closing t.sockets,
)

pub close_socket-IsValid : (t : Terminal) → IsValid t → IsValid (close_socket t)
unfolding close_socket
close_socket-IsValid t v =
    let f = retire-fields t.current (record (clear_ping t) { current = none }) in
    record {
      each = λ id. rw (f.0) (retire-each t.current t id refl v);
      one_ping = rw (f.0, f.2, f.3, clear_ping_lem t v) refl;
      fresh = λ id h. retire-fresh t.current t id refl v (rw (sym (f.4)) h);
    }

pub close_socket_lem :
    (t : Terminal) → ((close_socket t).current ≡ none) × ((close_socket t).ping_ref ≡ none)
unfolding close_socket
close_socket_lem t =
    let f = retire-fields t.current (record (clear_ping t) { current = none }) in (f.0, f.2)

open_new-each :
    (mode : Mode) (size : ℕ × ℕ) (t : Terminal) (id : ℕ)
    → t.current ≡ none
    → IsValid t
    → allowed connecting
        (nat_eq t.next id)
        (has id t.intentionally_closed)
        (lookup id (put t.next Phase.connecting t.sockets))
      ≡ true
open_new-each mode size t id e v =
    ground (arith, v.each id, v.fresh t.next, lookup-put t.next id Phase.connecting t.sockets)

open_new-IsValid :
    (size : Option (ℕ × ℕ)) (mode : Mode) (t : Terminal)
    → t.current ≡ none
    → t.ping_ref ≡ none
    → IsValid t
    → IsValid (open_new size mode t)
open_new-IsValid none mode t e p v = v
open_new-IsValid (some size) mode t e p v = record {
  each = λ id. open_new-each mode size t id e v;
  one_ping = ground (arith, v.one_ping);
  fresh = λ id h. ground (arith, v.fresh id, lookup-put t.next id Phase.connecting t.sockets);
}

pub open_socket-IsValid : (mode : Mode) (t : Terminal) → IsValid t → IsValid (open_socket mode t)
unfolding open_socket
open_socket-IsValid mode t v =
    let k = close_socket_lem t in
    open_new-IsValid (close_socket t).term mode (close_socket t) (k.0) (k.1)
      (close_socket-IsValid t v)

-- The connection without what the invariant does not read.
abbrev pub core : Terminal → Terminal
core t = record t {
  modes = [];
  terminal_mode = shell_mode;
  prev_mode = none;
  term = none;
  width = 0;
  height = 0;
  fit_frame = false;
  written = [];
  sent = [];
}

pub Same-IsValid : (t u : Terminal) → core u ≡ core t → IsValid t → IsValid u
Same-IsValid t u s v =
    let k : IsValid (core t) = record { each = v.each; one_ping = v.one_ping; fresh = v.fresh } in
    let w : IsValid (core u) = subst IsValid (sym s) k in
    record { each = w.each; one_ping = w.one_ping; fresh = w.fresh }

abbrev pub hollow : Option (ℕ × ℕ) → Option (ℕ × ℕ)
hollow none = none
hollow (some size) = some (0, 0)

-- The connection, the mode, and whether there is an emulator.
abbrev pub shape : Terminal → Terminal
shape t = record t {
  modes = [];
  prev_mode = none;
  term = hollow t.term;
  width = 0;
  height = 0;
  fit_frame = false;
  written = [];
  sent = [];
}
