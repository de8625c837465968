-- ===== src/WebTerminal.antt =====
-- src/frontend/src/components/terminal/WebTerminal.tsx: the connection of the web terminal. What the
-- browser calls back, what the user does and what React runs are events of a step function. The
-- emulator's screen is the list of the texts written to it since its last reset.
pub mod Handlers
pub mod Histories
pub mod Invariant
pub mod Refinement
pub mod Sending
mod Tests
use soren.Base.{
  ℕ, suc, ◌≤◌, Bool, true, false, ◌&&◌, ◌||◌, Option, none, some, List, [], ◌∷◌, ◌++◌, Text, codes,
  nat_eq, if◌then◌else◌, is_some, or_else, has, add, lookup, put, erase, nat_Eq, text_Eq, ◌==◌,
}
use soren.Socket.{Phase, is_open, clear_timeout}

-- src/frontend/src/stores/terminalStore.ts
pub data Mode : Type 0 where
  shell_mode soren_mode : Mode

abbrev pub mode_text : Mode → Text
mode_text shell_mode = codes "shell"
mode_text soren_mode = codes "soren"

abbrev pub mode_eq : Mode → Mode → Bool
mode_eq shell_mode shell_mode = true
mode_eq shell_mode soren_mode = false
mode_eq soren_mode shell_mode = false
mode_eq soren_mode soren_mode = true

-- `ConnectionStatus`
pub data Status : Type 0 where
  connecting connected closed : Status

-- What the server sends: the fields that are texts, where they are.
pub record Frame : Type 0 where
  pub frame_type : Option Text
  pub data_text : Option Text
  pub mode_name : Option Text

-- What the terminal sends.
pub data Report : Type 0 where
  resize : ℕ → ℕ → Report
  input : Text → Report
  ping : Report

-- The fit addon, which finds columns and rows for a box; JSON's parser, with `none` where the
-- handler's `catch` takes over; and the decimal form of a number.
pub record Library : Type 0 where
  pub fit : ℕ → ℕ → ℕ × ℕ
  pub parse : Text → Option Frame
  pub decimal : ℕ → Text

pub record Terminal : Type 0 where
  -- the sockets that are not closed, by a number that stands for the object, and their modes
  pub sockets : List (ℕ × Phase)
  pub modes : List (ℕ × Mode)
  -- `wsRef.current`
  pub current : Option ℕ
  -- running intervals with the sockets that they ping, and `pingRef.current`
  pub intervals : List (ℕ × ℕ)
  pub ping_ref : Option ℕ
  -- `intentionallyClosedRef.current`
  pub intentionally_closed : List ℕ
  pub status : Status
  pub close_code : Option ℕ
  -- `terminalMode` of the store, and `prevModeRef.current`
  pub terminal_mode : Mode
  pub prev_mode : Option Mode
  -- columns and rows of the emulator, while there is one, and the client size of its container
  pub term : Option (ℕ × ℕ)
  pub width : ℕ
  pub height : ℕ
  -- whether `fitRafRef.current` holds a pending frame
  pub fit_frame : Bool
  pub written : List Text
  -- what was sent, with the socket that took it, oldest first
  pub sent : List (ℕ × Report)
  -- the number of the next socket or interval
  pub next : ℕ

abbrev pub initial : Mode → Terminal
initial mode = record {
  sockets = [];
  modes = [];
  current = none;
  intervals = [];
  ping_ref = none;
  intentionally_closed = [];
  status = connecting;
  close_code = none;
  terminal_mode = mode;
  prev_mode = none;
  term = none;
  width = 0;
  height = 0;
  fit_frame = false;
  written = [];
  sent = [];
  next = 0;
}

abbrev pub is_current : Option ℕ → ℕ → Bool
is_current none id = false
is_current (some c) id = nat_eq c id

-- `ws.send` under the test of `readyState`
abbrev pub send_to : Option ℕ → Report → Terminal → Terminal
send_to none r t = t
send_to (some id) r t =
    if is_open (lookup id t.sockets) then record t { sent = t.sent ++ (id, r) ∷ [] } else t

-- `sendRaw`, and the listener of `term.onData`
unfoldable pub send_raw : Text → Terminal → Terminal
send_raw data_text t = send_to t.current (input data_text) t

abbrev pub clear_ping : Terminal → Terminal
clear_ping t = record t { intervals = clear_timeout t.ping_ref t.intervals; ping_ref = none }

-- A socket that is not closed yet is closed on purpose.
abbrev pub retire : Option ℕ → Terminal → Terminal
retire none t = t
retire (some id) t =
    if is_some (lookup id t.sockets)
    then record t {
      intentionally_closed = add id t.intentionally_closed;
      sockets = put id Phase.closing t.sockets;
    }
    else t

-- `closeSocket`
unfoldable pub close_socket : Terminal → Terminal
close_socket t = retire t.current (record (clear_ping t) { current = none })

abbrev pub open_new : Option (ℕ × ℕ) → Mode → Terminal → Terminal
open_new none mode t = t
open_new (some size) mode t = record t {
  status = connecting;
  close_code = none;
  sockets = put t.next Phase.connecting t.sockets;
  modes = put t.next mode t.modes;
  current = some t.next;
  next = suc t.next;
}

-- `openSocket`
unfoldable pub open_socket : Mode → Terminal → Terminal
open_socket mode t = open_new (close_socket t).term mode (close_socket t)

-- `scheduleFit`: a frame that is pending is replaced.
abbrev pub schedule_fit : Terminal → Terminal
schedule_fit t = record t { fit_frame = true }

abbrev pub write : Text → Terminal → Terminal
write s t = record t { written = t.written ++ s ∷ [] }

-- Escape codes of the emulator: dim, red and back to normal.
abbrev pub dim : Text
dim = 27 ∷ codes "[2m"

abbrev pub red : Text
red = 27 ∷ codes "[31m"

abbrev pub normal : Text
normal = 27 ∷ codes "[0m"

abbrev pub new_line : Text
new_line = 13 ∷ 10 ∷ []
