-- ===== src/WebTerminal/Handlers.antt =====
-- The handlers of src/frontend/src/components/terminal/WebTerminal.tsx, and the events that run them.
use soren.Base.{
  ℕ, suc, Bool, true, false, ◌&&◌, ◌||◌, Option, none, some, List, [], ◌∷◌, ◌++◌, Text, codes,
  nat_eq, if◌then◌else◌, is_some, or_else, has, lookup, put, erase, nat_Eq, text_Eq, ◌==◌,
}
use soren.Socket.{Phase, is_open}
use soren.WebTerminal.{
  Mode, mode_text, mode_eq, connected, closed, Frame, resize, ping, Library, Terminal, is_current,
  send_to, send_raw, clear_ping, close_socket, open_socket, schedule_fit, write, dim, red, normal,
  new_line,
}

-- What a `ready` frame is shown as: with its own mode, else that of the socket.
abbrev pub ready_text : Option Mode → Frame → Mode → Text
ready_text mode frame selected =
    dim
    ++ codes "["
    ++ or_else frame.mode_name (mode_text (or_else mode selected))
    ++ codes "] ready — tmux attach -t soren inside shell mode"
    ++ normal
    ++ new_line

-- `frame.type === "…"`
abbrev pub is_text : Option Text → Text → Bool
is_text none s = false
is_text (some r) s = r == s

abbrev pub is_connecting : Option Phase → Bool
is_connecting none = false
is_connecting (some Phase.connecting) = true
is_connecting (some Phase.opened) = false
is_connecting (some Phase.closing) = false

module _ (library : Library) where
  open library use {fit, parse, decimal}

  -- `closeMessage`
  unfoldable pub close_message : ℕ → Text
  close_message code =
      if nat_eq code 4401
      then codes "Session expired — log in again."
      else if nat_eq code 4429
      then codes "Too many terminals open — close one and retry."
      else codes "Disconnected (code " ++ decimal code ++ codes ")."

  abbrev pub report_size : Terminal → Option (ℕ × ℕ) → Terminal
  report_size t none = t
  report_size t (some size) = send_to t.current (resize size.0 size.1) t

  abbrev pub fit_term : Terminal → Option (ℕ × ℕ) → Terminal
  fit_term t none = t
  fit_term t (some size) =
      if nat_eq t.width 0 || nat_eq t.height 0
      then t
      else report_size (record t { term = some (fit t.width t.height) })
          (some (fit t.width t.height))

  -- `fitAndReport`
  unfoldable pub fit_and_report : Terminal → Terminal
  fit_and_report t = fit_term t t.term

  -- `ws.onopen`
  unfoldable pub on_open : ℕ → Terminal → Terminal
  on_open id t =
      if is_current t.current id
      then record (fit_and_report
          (record t { sockets = put id Phase.opened t.sockets; status = connected })) {
            ping_ref = some t.next;
            intervals = put t.next id t.intervals;
            next = suc t.next;
          }
      else record t { sockets = put id Phase.opened t.sockets }

  abbrev pub on_frame : Option Mode → Option Frame → Terminal → Terminal
  on_frame mode none t = t
  on_frame mode (some frame) t =
      if is_text frame.frame_type (codes "output") && is_some frame.data_text
      then write (or_else frame.data_text []) t
      else if is_text frame.frame_type (codes "ready")
      then fit_and_report (write (ready_text mode frame t.terminal_mode) t)
      else t

  -- `ws.onmessage`
  unfoldable pub on_message : ℕ → Text → Terminal → Terminal
  on_message id data_text t =
      if is_current t.current id then on_frame (lookup id t.modes) (parse data_text) t else t

  -- `ws.onclose`
  unfoldable pub on_close : ℕ → ℕ → Terminal → Terminal
  on_close id code t =
      let u = clear_ping (record t { sockets = erase id t.sockets }) in
      if has id t.intentionally_closed
      then u
      else write (new_line ++ red ++ close_message code ++ normal ++ new_line) (record u {
        current = if is_current t.current id then none else t.current;
        status = closed;
        close_code = some code;
      })

  abbrev pub send_ping : Option ℕ → Terminal → Terminal
  send_ping none t = t
  send_ping (some id) t =
      if is_open (lookup id t.sockets) then record t { sent = t.sent ++ (id, ping) ∷ [] } else t

  -- The callback of `setInterval`
  unfoldable pub on_ping : ℕ → Terminal → Terminal
  on_ping i t = send_ping (lookup i t.intervals) t

  -- The callback of `requestAnimationFrame`
  unfoldable pub on_frame_due : Terminal → Terminal
  on_frame_due t = if t.fit_frame then fit_and_report (record t { fit_frame = false }) else t

  abbrev pub is_switch : Option Mode → Mode → Bool
  is_switch none mode = false
  is_switch (some prev) mode = if mode_eq prev mode then false else true

  -- The effect that connects: on mount, and whenever the mode changes.
  unfoldable pub connect_effect : Terminal → Terminal
  connect_effect t = open_socket t.terminal_mode (record t {
    written = if is_switch t.prev_mode t.terminal_mode then [] else t.written;
    prev_mode = some t.terminal_mode;
  })

  -- The effects of a mount: a new emulator with its default size, then the connection. React's
  -- strict mode runs them again after those of an unmount, on the same refs and states; a component
  -- that is made anew starts from the initial state instead.
  unfoldable pub mount : Terminal → Terminal
  mount t = connect_effect (schedule_fit (record t { term = some (80, 24); written = [] }))

  -- The clean-up of both effects
  unfoldable pub unmount : Terminal → Terminal
  unmount t = close_socket (record t { fit_frame = false; term = none })

  -- `setTerminalMode`: the clean-up of the connection, then the effect, if the mode changes.
  unfoldable pub set_terminal_mode : Mode → Terminal → Terminal
  set_terminal_mode mode t =
      if mode_eq t.terminal_mode mode
      then t
      else connect_effect (close_socket (record t { terminal_mode = mode }))

-- What the browser calls back, and what the user and React do. A browser opens only a socket that is
-- connecting and closes only one that is not closed.
pub data Event : Type 0 where
  mounted unmounted reconnect_clicked shown refit frame_due : Event
  mode_selected : Mode → Event
  socket_opened ping_due : ℕ → Event
  message_received : ℕ → Text → Event
  socket_closed : ℕ → ℕ → Event
  typed : Text → Event
  resized : ℕ → ℕ → Event

module _ (library : Library) where
  unfoldable pub step : Terminal → Event → Terminal
  step t mounted = mount library t
  step t unmounted = unmount library t
  step t reconnect_clicked = open_socket t.terminal_mode t
  step t shown = schedule_fit t
  step t refit = if is_some t.term then schedule_fit t else t
  step t frame_due = on_frame_due library t
  step t (mode_selected mode) = set_terminal_mode library mode t
  step t (socket_opened id) =
      if is_connecting (lookup id t.sockets) then on_open library id t else t
  step t (ping_due i) = on_ping library i t
  step t (message_received id data_text) = on_message library id data_text t
  step t (socket_closed id code) =
      if is_some (lookup id t.sockets) then on_close library id code t else t
  step t (typed data_text) = send_raw data_text t
  step t (resized width height) =
      if is_some t.term then schedule_fit (record t { width = width; height = height }) else t

  unfoldable pub run : Terminal → List Event → Terminal
  run t [] = t
  run t (e ∷ es) = run (step t e) es
