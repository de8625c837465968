-- ===== src/WebTerminal/Refinement.antt =====
-- What src/frontend/src/components/terminal/WebTerminal.tsx promises: a line that is idle, being
-- dialled, up, or lost with a code. The tables of sockets, marks and pings implement it.
use soren.Base.{
  ℕ, Bool, true, false, Option, none, some, List, nat_eq, if◌then◌else◌, is_some, or_else, lookup,
  nat_Eq, ◌≡◌, refl, ap, ap₂, sym, ◌∙◌, arith, Bool-cases, inl, inr,
}
use soren.Socket.{Phase}
use soren.WebTerminal.{
  send_raw, initial, Mode, mode_eq, Status, connecting, connected, closed, Terminal, Library,
  close_socket, open_socket, retire, clear_ping, open_new,
}
use soren.WebTerminal.Handlers.{
  on_frame_due, on_ping, on_message, Event, mounted, unmounted, reconnect_clicked, shown, refit,
  frame_due, mode_selected, socket_opened, ping_due, message_received, socket_closed, typed,
  resized, step, run, is_connecting, on_open, on_close, mount, unmount, connect_effect,
  set_terminal_mode,
}
use soren.WebTerminal.Invariant.{
  initial-IsValid, IsValid, Same-IsValid, close_socket-IsValid, shape, hollow,
}
use soren.WebTerminal.Histories.{
  send_raw-shape, on_ping-shape, on_frame_due-shape, on_open-shape, on_message-shape, run-IsValid,
  opened_socket,
}

pub data Line : Type 0 where
  idle : Line
  dialling up : ℕ → Line
  lost : ℕ → Line

pub record Promise : Type 0 where
  pub is_mounted : Bool
  pub mode : Mode
  pub line : Line

-- Hanging up leaves a lost line as it is.
abbrev pub hang_up : Line → Line
hang_up idle = idle
hang_up (dialling id) = idle
hang_up (up id) = idle
hang_up (lost code) = lost code

abbrev pub dial : ℕ → Promise → Promise
dial n p = record p { line = if p.is_mounted then dialling n else hang_up p.line }

abbrev pub answer : ℕ → Line → Line
answer id idle = idle
answer id (dialling n) = if nat_eq n id then up id else dialling n
answer id (up n) = up n
answer id (lost code) = lost code

abbrev pub drop_line : ℕ → ℕ → Line → Line
drop_line id code idle = idle
drop_line id code (dialling n) = if nat_eq n id then lost code else dialling n
drop_line id code (up n) = if nat_eq n id then lost code else up n
drop_line id code (lost c) = lost c

-- The promise, where a new socket would be the `n`-th object. Only the socket of the line can
-- change it.
abbrev pub promised : ℕ → Promise → Event → Promise
promised n p mounted = dial n (record p { is_mounted = true })
promised n p unmounted = record p { is_mounted = false; line = hang_up p.line }
promised n p reconnect_clicked = dial n p
promised n p shown = p
promised n p refit = p
promised n p frame_due = p
promised n p (mode_selected m) = if mode_eq p.mode m then p else dial n (record p { mode = m })
promised n p (socket_opened id) = record p { line = answer id p.line }
promised n p (ping_due i) = p
promised n p (message_received id s) = p
promised n p (socket_closed id code) = record p { line = drop_line id code p.line }
promised n p (typed s) = p
promised n p (resized w h) = p

abbrev pub line_of : Option ℕ → Status → Option ℕ → Line
line_of none connecting code = idle
line_of none connected code = idle
line_of none closed code = lost (or_else code 0)
line_of (some id) connecting code = dialling id
line_of (some id) connected code = up id
line_of (some id) closed code = idle

abbrev pub promise_of : Terminal → Promise
promise_of t = record {
  is_mounted = is_some t.term;
  mode = t.terminal_mode;
  line = line_of t.current t.status t.close_code;
}

is_some-hollow : (size : Option (ℕ × ℕ)) → is_some (hollow size) ≡ is_some size
is_some-hollow none = refl
is_some-hollow (some size) = refl

promise-shape : (t : Terminal) → promise_of (shape t) ≡ promise_of t
promise-shape t = rw (is_some-hollow t.term) refl

shape-promise : (t u : Terminal) → shape u ≡ shape t → promise_of u ≡ promise_of t
shape-promise t u s = sym (promise-shape u) ∙ ap promise_of s ∙ promise-shape t

retire-promise : (cur : Option ℕ) (t : Terminal) → promise_of (retire cur t) ≡ promise_of t
retire-promise none t = refl
retire-promise (some id) t = ground arith

-- The current socket of a valid terminal does not stand closed.
hang_up-line :
    (cur : Option ℕ) (t : Terminal)
    → t.current ≡ cur
    → IsValid t
    → line_of none t.status t.close_code ≡ hang_up (line_of cur t.status t.close_code)
hang_up-line none t e v = ground arith
hang_up-line (some c) t e v = ground (arith, v.each c)

close_socket-promise :
    (t : Terminal)
    → IsValid t
    → promise_of (close_socket t) ≡ record (promise_of t) { line = hang_up (promise_of t).line }
unfolding close_socket
close_socket-promise t v =
    retire-promise t.current (record (clear_ping t) { current = none })
    ∙ rw (hang_up-line t.current t refl v) refl

open_new-promise :
    (size : Option (ℕ × ℕ)) (mode : Mode) (t : Terminal)
    → t.term ≡ size
    → (promise_of t).line ≡ hang_up (promise_of t).line
    → promise_of (open_new size mode t) ≡ dial t.next (promise_of t)
open_new-promise none mode t e h = ground (arith, e)
open_new-promise (some size) mode t e h = ground (arith, e)

retire-next : (cur : Option ℕ) (t : Terminal) → (retire cur t).next ≡ t.next
retire-next none t = refl
retire-next (some id) t = ground arith

close_socket-next : (t : Terminal) → (close_socket t).next ≡ t.next
unfolding close_socket
close_socket-next t = retire-next t.current (record (clear_ping t) { current = none })

hang_up_idem : (l : Line) → hang_up (hang_up l) ≡ hang_up l
hang_up_idem idle = refl
hang_up_idem (dialling id) = refl
hang_up_idem (up id) = refl
hang_up_idem (lost code) = refl

dial-hang_up : (n : ℕ) (p : Promise) → dial n (record p { line = hang_up p.line }) ≡ dial n p
dial-hang_up n p = rw (hang_up_idem p.line) refl

open_socket-promise :
    (mode : Mode) (t : Terminal)
    → IsValid t
    → promise_of (open_socket mode t) ≡ dial t.next (promise_of t)
unfolding open_socket
open_socket-promise mode t v =
    let q = close_socket-promise t v in
    let line_get : Promise → Line = λ p. p.line in
    open_new-promise (close_socket t).term mode (close_socket t) refl
      (ap line_get q ∙ sym (hang_up_idem (promise_of t).line) ∙ sym (ap hang_up (ap line_get q)))
    ∙ ap₂ dial (close_socket-next t) q
    ∙ dial-hang_up t.next (promise_of t)

module _ (library : Library) where
  connect_effect-promise :
      (t : Terminal)
      → IsValid t
      → promise_of (connect_effect library t) ≡ dial t.next (promise_of t)
  unfolding connect_effect
  connect_effect-promise t v = open_socket-promise t.terminal_mode _ (Same-IsValid t _ refl v)

  set_terminal_mode-promise :
      (mode : Mode) (t : Terminal)
      → IsValid t
      → promise_of (set_terminal_mode library mode t)
        ≡ promised t.next (promise_of t) (mode_selected mode)
  unfolding set_terminal_mode
  set_terminal_mode-promise mode t v = elim (Bool-cases (mode_eq t.terminal_mode mode)) [
    | inl e ↦ rw e refl
    | inr e ↦ rw e (
        let u : Terminal = record t { terminal_mode = mode } in
        let w : IsValid u = Same-IsValid t u refl v in
        connect_effect-promise (close_socket u) (close_socket-IsValid u w)
        ∙ ap₂ dial (close_socket-next u) (close_socket-promise u w)
        ∙ dial-hang_up t.next (promise_of u))
  ]

  on_open-promise :
      (t : Terminal) (id : ℕ)
      → lookup id t.sockets ≡ some Phase.connecting
      → IsValid t
      → promise_of (on_open library id t) ≡ promised t.next (promise_of t) (socket_opened id)
  on_open-promise t id h v =
      shape-promise (opened_socket library id t) (on_open library id t)
        (on_open-shape library t id (ground (arith, v.each id)))
      ∙ ground (arith, v.each id)

  on_close-promise :
      (t : Terminal) (id code : ℕ)
      → is_some (lookup id t.sockets) ≡ true
      → IsValid t
      → promise_of (on_close library id code t)
        ≡ promised t.next (promise_of t) (socket_closed id code)
  unfolding on_close
  on_close-promise t id code h v = ground (arith, v.each id)

  unanswered :
      (t : Terminal) (id : ℕ)
      → is_connecting (lookup id t.sockets) ≡ false
      → IsValid t
      → answer id (promise_of t).line ≡ (promise_of t).line
  unanswered t id h v = ground (arith, v.each id)

  undropped :
      (t : Terminal) (id code : ℕ)
      → is_some (lookup id t.sockets) ≡ false
      → IsValid t
      → drop_line id code (promise_of t).line ≡ (promise_of t).line
  undropped t id code h v = ground (arith, v.each id)

  mount-promise :
      (t : Terminal)
      → IsValid t
      → promise_of (mount library t) ≡ promised t.next (promise_of t) mounted
  unfolding mount
  mount-promise t v = connect_effect-promise _ (Same-IsValid t _ refl v)

  unmount-promise :
      (t : Terminal)
      → IsValid t
      → promise_of (unmount library t) ≡ promised t.next (promise_of t) unmounted
  unfolding unmount
  unmount-promise t v = close_socket-promise _ (Same-IsValid t _ refl v)

  step-promise :
      (t : Terminal) (e : Event)
      → IsValid t
      → promise_of (step library t e) ≡ promised t.next (promise_of t) e
  unfolding step
  step-promise t mounted v = mount-promise t v
  step-promise t unmounted v = unmount-promise t v
  step-promise t reconnect_clicked v = open_socket-promise t.terminal_mode t v
  step-promise t shown v = refl
  step-promise t refit v = ground arith
  step-promise t frame_due v =
      shape-promise t (on_frame_due library t) (on_frame_due-shape library t)
  step-promise t (mode_selected mode) v = set_terminal_mode-promise mode t v
  step-promise t (socket_opened id) v = elim (Bool-cases (is_connecting (lookup id t.sockets))) [
    | inl h ↦ rw h (on_open-promise t id (ground arith) v)
    | inr h ↦ rw (h, unanswered t id h v) refl
  ]
  step-promise t (ping_due i) v = shape-promise t (on_ping library i t) (on_ping-shape library i t)
  step-promise t (message_received id s) v =
      shape-promise t (on_message library id s t) (on_message-shape library id s t)
  step-promise t (socket_closed id code) v = elim (Bool-cases (is_some (lookup id t.sockets))) [
    | inl h ↦ rw h (on_close-promise t id code h v)
    | inr h ↦ rw (h, undropped t id code h v) refl
  ]
  step-promise t (typed s) v = shape-promise t (send_raw s t) (send_raw-shape s t)
  step-promise t (resized w h) v = ground arith

  -- After any history of a terminal, each event changes what it shows as the four-state line
  -- prescribes: only the socket of the line can answer or drop it, whatever sockets are still
  -- closing.
  pub terminal_keeps_promise :
      (mode : Mode) (es : List Event) (e : Event)
      → promise_of (step library (run library (initial mode) es) e)
        ≡ promised
            (run library (initial mode) es).next
            (promise_of (run library (initial mode) es))
            e
  terminal_keeps_promise mode es e =
      step-promise (run library (initial mode) es) e
        (run-IsValid library (initial mode) es (initial-IsValid mode))
