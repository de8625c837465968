-- ===== src/WebTerminal/Sending.antt =====
-- What src/frontend/src/components/terminal/WebTerminal.tsx sends, and what keeps its line alive.
use soren.Base.{
  ℕ, true, Option, none, some, List, [], ◌∷◌, ◌++◌, Text, append-nil, append_assoc, lookup-erase,
  has, lookup, nat_Eq, ◌≡◌, refl, ap, ◌∙◌, arith,
}
use soren.Socket.{Phase}
use soren.WebTerminal.{
  Report, Status, connecting, connected, closed, Terminal, Library, send_to, send_raw, input,
}
use soren.WebTerminal.Handlers.{on_close, step, run, Event, typed, socket_closed}
use soren.WebTerminal.Invariant.{IsValid, Same-IsValid, clear_ping_lem}

-- What is typed, one key after the other, goes to the open line in order, and nowhere else.
abbrev pub typings : List Text → List Event
typings [] = []
typings (s ∷ ss) = typed s ∷ typings ss

abbrev pub inputs : ℕ → List Text → List (ℕ × Report)
inputs id [] = []
inputs id (s ∷ ss) = (id, input s) ∷ inputs id ss

abbrev pub delivered : Option ℕ → Status → List Text → List (ℕ × Report)
delivered none st ss = []
delivered (some id) connecting ss = []
delivered (some id) connected ss = inputs id ss
delivered (some id) closed ss = []

-- One text, with the case of the line
send_raw_lem :
    (cur : Option ℕ) (s : Text) (t : Terminal)
    → t.current ≡ cur
    → IsValid t
    → send_to cur (input s) t ≡ record t { sent = t.sent ++ delivered cur t.status (s ∷ []) }
send_raw_lem none s t e v = rw (append-nil t.sent) refl
send_raw_lem (some id) s t e v = ground (arith, v.each id, append-nil t.sent)

sent-Same : (t : Terminal) (r : List (ℕ × Report)) → IsValid t → IsValid (record t { sent = r })
sent-Same t r v = Same-IsValid t _ refl v

delivered_nil : (cur : Option ℕ) (st : Status) → delivered cur st [] ≡ []
delivered_nil none st = refl
delivered_nil (some id) connecting = refl
delivered_nil (some id) connected = refl
delivered_nil (some id) closed = refl

delivered_cons :
    (cur : Option ℕ) (st : Status) (s : Text) (ss : List Text)
    → delivered cur st (s ∷ ss) ≡ delivered cur st (s ∷ []) ++ delivered cur st ss
delivered_cons none st s ss = refl
delivered_cons (some id) connecting s ss = refl
delivered_cons (some id) connected s ss = refl
delivered_cons (some id) closed s ss = refl

module _ (library : Library) where
  -- From a valid terminal, what is typed is sent to the current socket, in order and nothing else,
  -- if it is connected, and is dropped otherwise.
  pub typed_lem :
      (t : Terminal) (ss : List Text)
      → IsValid t
      → (run library t (typings ss)).sent ≡ t.sent ++ delivered t.current t.status ss
  unfolding run step send_raw
  typed_lem t [] v = rw (delivered_nil t.current t.status, append-nil t.sent) refl
  typed_lem t (s ∷ ss) v =
      ap (λ u. (run library u (typings ss)).sent) (send_raw_lem t.current s t refl v)
      ∙ typed_lem (record t { sent = t.sent ++ delivered t.current t.status (s ∷ []) }) ss
          (sent-Same t _ v)
      ∙ rw (delivered_cons t.current t.status s ss) (append_assoc t.sent _ _)

  -- When a socket that was replaced reports its close while the terminal is connected by another
  -- one, the terminal stays connected and its socket open, but no interval pings it any more.
  pub late_close_stops_ping :
      (t : Terminal) (id c code : ℕ)
      → IsValid t
      → t.current ≡ some c
      → t.status ≡ connected
      → lookup id t.sockets ≡ some Phase.closing
      → ((step library t (socket_closed id code)).status ≡ connected)
        × ((step library t (socket_closed id code)).current ≡ some c)
        × (lookup c (step library t (socket_closed id code)).sockets ≡ some Phase.opened)
        × ((step library t (socket_closed id code)).intervals ≡ [])
  unfolding step on_close
  late_close_stops_ping t id c code v e s h =
      let m : has id t.intentionally_closed ≡ true = ground (arith, v.each id) in
      rw (h, m)
        (s, e, ground (arith, v.each c, v.each id, lookup-erase id c t.sockets), clear_ping_lem t v)
