-- ===== src/WebTerminal/Histories.antt =====
-- The handlers of src/frontend/src/components/terminal/WebTerminal.tsx keep the invariant of the
-- connection, over any history.
use soren.Base.{
  is_some, ℕ, suc, true, false, Option, none, some, List, [], ◌∷◌, Text, if◌then◌else◌, has, lookup,
  put, nat_Eq, lookup-put, lookup-erase, ◌≡◌, refl, ap, arith, Bool-cases, inl, inr,
}
use soren.Socket.{Phase}
use soren.WebTerminal.{
  mode_eq, Frame, input, resize, write, Mode, connected, Terminal, is_current, close_socket,
  Library, send_raw, Report, send_to,
}
use soren.WebTerminal.Handlers.{
  ready_text, is_switch, is_connecting, fit_term, on_frame, send_ping, step, run, Event, mounted,
  unmounted, reconnect_clicked, shown, refit, frame_due, mode_selected, socket_opened, ping_due,
  message_received, socket_closed, typed, resized, fit_and_report, on_open, on_close, on_message,
  on_ping, on_frame_due, mount, unmount, set_terminal_mode, connect_effect,
}
use soren.WebTerminal.Invariant.{
  IsValid, allowed, core, shape, Same-IsValid, close_socket-IsValid, open_socket-IsValid,
  clear_ping_lem,
}

pub send_to-shape : (cur : Option ℕ) (r : Report) (t : Terminal) → shape (send_to cur r t) ≡ shape t
send_to-shape none r t = refl
send_to-shape (some id) r t = ground arith

pub send_raw-shape : (s : Text) (t : Terminal) → shape (send_raw s t) ≡ shape t
unfolding send_raw
send_raw-shape s t = send_to-shape t.current (input s) t

module _ (library : Library) where
  fit_term-shape :
      (t : Terminal) (size : Option (ℕ × ℕ))
      → t.term ≡ size
      → shape (fit_term library t size) ≡ shape t
  fit_term-shape t none e = refl
  fit_term-shape t (some size) e =
      let cols = library.fit t.width t.height in
      ground (
        arith,
        e,
        send_to-shape t.current (resize (cols.0) (cols.1)) (record t { term = some cols }),
      )

  pub fit_and_report-shape : (t : Terminal) → shape (fit_and_report library t) ≡ shape t
  unfolding fit_and_report
  fit_and_report-shape t = fit_term-shape t t.term refl

  on_frame-shape :
      (mode : Option Mode) (frame : Option Frame) (t : Terminal)
      → shape (on_frame library mode frame t) ≡ shape t
  on_frame-shape mode none t = refl
  on_frame-shape mode (some frame) t =
      ground (arith, fit_and_report-shape (write (ready_text mode frame t.terminal_mode) t))

  pub on_message-shape :
      (id : ℕ) (s : Text) (t : Terminal) → shape (on_message library id s t) ≡ shape t
  unfolding on_message
  on_message-shape id s t = ground (arith, on_frame-shape (lookup id t.modes) (library.parse s) t)

  send_ping-shape : (id : Option ℕ) (t : Terminal) → shape (send_ping library id t) ≡ shape t
  send_ping-shape none t = refl
  send_ping-shape (some id) t = ground arith

  pub on_ping-shape : (i : ℕ) (t : Terminal) → shape (on_ping library i t) ≡ shape t
  unfolding on_ping
  on_ping-shape i t = send_ping-shape (lookup i t.intervals) t

  pub on_frame_due-shape : (t : Terminal) → shape (on_frame_due library t) ≡ shape t
  unfolding on_frame_due
  on_frame_due-shape t = ground (arith, fit_and_report-shape (record t { fit_frame = false }))

  opened-each :
      (t : Terminal) (id : ℕ) (k : ℕ)
      → lookup id t.sockets ≡ some Phase.connecting
      → IsValid t
      → allowed connected
          (is_current t.current k)
          (has k t.intentionally_closed)
          (lookup k (put id Phase.opened t.sockets))
        ≡ true
  opened-each t id k h v =
      ground (arith, v.each k, v.each id, lookup-put id k Phase.opened t.sockets)

  opened-pings :
      (t : Terminal) (id : ℕ)
      → lookup id t.sockets ≡ some Phase.connecting
      → IsValid t
      → (t.intervals ≡ []) × (t.current ≡ some id)
  opened-pings t id h v = ground (arith, v.one_ping, v.each id)

  -- What opening makes of the connection
  abbrev pub opened_socket : ℕ → Terminal → Terminal
  opened_socket id t = record t {
    sockets = put id Phase.opened t.sockets;
    status = connected;
    ping_ref = some t.next;
    intervals = put t.next id t.intervals;
    next = suc t.next;
  }

  opened-IsValid :
      (t : Terminal) (id : ℕ)
      → lookup id t.sockets ≡ some Phase.connecting
      → IsValid t
      → IsValid (opened_socket id t)
  opened-IsValid t id h v = record {
    each = λ k. opened-each t id k h v;
    one_ping = rw ((opened-pings t id h v).0, (opened-pings t id h v).1) (ground arith);
    fresh = λ k l. ground (arith, v.fresh k, v.fresh id, lookup-put id k Phase.opened t.sockets);
  }

  pub on_open-shape :
      (t : Terminal) (id : ℕ)
      → is_current t.current id ≡ true
      → shape (on_open library id t) ≡ shape (opened_socket id t)
  unfolding on_open
  on_open-shape t id c =
      let start_ping : Terminal → Terminal = λ u. record u {
        ping_ref = some t.next;
        intervals = put t.next id t.intervals;
        next = suc t.next;
      } in
      rw c (
        ap start_ping (
          fit_and_report-shape
            (record t { sockets = put id Phase.opened t.sockets; status = connected })))

  on_open-IsValid :
      (t : Terminal) (id : ℕ)
      → lookup id t.sockets ≡ some Phase.connecting
      → IsValid t
      → IsValid (on_open library id t)
  on_open-IsValid t id h v =
      Same-IsValid (opened_socket id t) (on_open library id t)
        (ap core (on_open-shape t id (ground (arith, v.each id)))) (opened-IsValid t id h v)

  -- The close of a socket that was closed on purpose
  on_close-marked :
      (t : Terminal) (id code : ℕ)
      → has id t.intentionally_closed ≡ true
      → IsValid t
      → IsValid (on_close library id code t)
  unfolding on_close
  on_close-marked t id code m v = rw m (record {
    each = λ k. ground (arith, v.each k, v.each id, lookup-erase id k t.sockets);
    one_ping = ground (arith, clear_ping_lem t v);
    fresh = λ k l. ground (arith, v.fresh k l, lookup-erase id k t.sockets);
  })

  -- A drop of the current socket
  on_close-dropped :
      (t : Terminal) (id code : ℕ)
      → has id t.intentionally_closed ≡ false
      → t.current ≡ some id
      → IsValid t
      → IsValid (on_close library id code t)
  unfolding on_close
  on_close-dropped t id code m c v =
      rw (m, c)
        (record {
          each = λ k. ground (arith, c, v.each k, lookup-erase id k t.sockets);
          one_ping = ground (arith, clear_ping_lem t v);
          fresh = λ k l. ground (arith, v.fresh k l, lookup-erase id k t.sockets);
        })

  closed_socket-IsValid :
      (t : Terminal) (id code : ℕ)
      → is_some (lookup id t.sockets) ≡ true
      → IsValid t
      → IsValid (on_close library id code t)
  closed_socket-IsValid t id code h v = elim (Bool-cases (has id t.intentionally_closed)) [
    | inl m ↦ on_close-marked t id code m v
    | inr m ↦ on_close-dropped t id code m (ground (arith, v.each id)) v
  ]

  connect_effect-IsValid : (t : Terminal) → IsValid t → IsValid (connect_effect library t)
  unfolding connect_effect
  connect_effect-IsValid t v =
      open_socket-IsValid t.terminal_mode
        (record t {
          written = if is_switch library t.prev_mode t.terminal_mode then [] else t.written;
          prev_mode = some t.terminal_mode;
        })
        (Same-IsValid t _ refl v)

  set_terminal_mode-IsValid :
      (mode : Mode) (t : Terminal) → IsValid t → IsValid (set_terminal_mode library mode t)
  unfolding set_terminal_mode
  set_terminal_mode-IsValid mode t v = elim (Bool-cases (mode_eq t.terminal_mode mode)) [
    | inl e ↦ rw e v
    | inr e ↦ rw e (
        connect_effect-IsValid (close_socket (record t { terminal_mode = mode }))
          (close_socket-IsValid (record t { terminal_mode = mode }) (Same-IsValid t _ refl v)))
  ]

  mount-IsValid : (t : Terminal) → IsValid t → IsValid (mount library t)
  unfolding mount
  mount-IsValid t v = connect_effect-IsValid _ (Same-IsValid t _ refl v)

  unmount-IsValid : (t : Terminal) → IsValid t → IsValid (unmount library t)
  unfolding unmount
  unmount-IsValid t v = close_socket-IsValid _ (Same-IsValid t _ refl v)

  pub step-IsValid : (t : Terminal) (e : Event) → IsValid t → IsValid (step library t e)
  unfolding step
  step-IsValid t mounted v = mount-IsValid t v
  step-IsValid t unmounted v = unmount-IsValid t v
  step-IsValid t reconnect_clicked v = open_socket-IsValid t.terminal_mode t v
  step-IsValid t shown v = Same-IsValid t _ refl v
  step-IsValid t refit v = Same-IsValid t _ (ground arith) v
  step-IsValid t frame_due v = Same-IsValid t _ (ap core (on_frame_due-shape t)) v
  step-IsValid t (mode_selected mode) v = set_terminal_mode-IsValid mode t v
  step-IsValid t (socket_opened id) v = elim (Bool-cases (is_connecting (lookup id t.sockets))) [
    | inl h ↦ rw h (on_open-IsValid t id (ground arith) v)
    | inr h ↦ rw h v
  ]
  step-IsValid t (ping_due i) v = Same-IsValid t _ (ap core (on_ping-shape i t)) v
  step-IsValid t (message_received id s) v = Same-IsValid t _ (ap core (on_message-shape id s t)) v
  step-IsValid t (socket_closed id code) v = elim (Bool-cases (is_some (lookup id t.sockets))) [
    | inl h ↦ rw h (closed_socket-IsValid t id code h v)
    | inr h ↦ rw h v
  ]
  step-IsValid t (typed s) v = Same-IsValid t _ (ap core (send_raw-shape s t)) v
  step-IsValid t (resized w h) v = Same-IsValid t _ (ground arith) v

  -- Any history keeps a terminal valid: the current socket connects or is open, as the status
  -- says, every other socket is being closed on purpose, and no interval runs but the one that
  -- pings the current, connected socket.
  pub run-IsValid : (t : Terminal) (es : List Event) → IsValid t → IsValid (run library t es)
  unfolding run
  run-IsValid t [] v = v
  run-IsValid t (e ∷ es) v = run-IsValid (step library t e) es (step-IsValid t e v)
