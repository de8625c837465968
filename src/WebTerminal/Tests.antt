-- ===== src/WebTerminal/Tests.antt =====
-- The theorems on src/frontend/src/components/terminal/WebTerminal.tsx at concrete histories.
use soren.Base.{◌/◌, none, some, [], ◌∷◌, ◌≡◌, refl, codes, lookup, nat_Eq}
use soren.Socket.{Phase}
use soren.WebTerminal.{
  Library, Terminal, connected, initial, shell_mode, soren_mode, close_socket, open_socket,
}
use soren.WebTerminal.Handlers.{
  mounted, mode_selected, socket_opened, socket_closed, typed, step, run, mount, on_open,
  connect_effect, set_terminal_mode, fit_and_report,
}
use soren.WebTerminal.Invariant.{IsValid, initial-IsValid}
use soren.WebTerminal.Histories.{run-IsValid}
use soren.WebTerminal.Refinement.{promise_of, promised, terminal_keeps_promise}
use soren.WebTerminal.Sending.{typed_lem, late_close_stops_ping, typings, inputs}

abbrev library : Library
library = record { fit = λ w h. (w / 10, h / 20); parse = λ s. none; decimal = λ n. codes "1006" }

-- A terminal that is up in the second mode, while the first mode's socket is still closing.
abbrev switched : Terminal
unfolding run step mount set_terminal_mode connect_effect open_socket close_socket on_open
    fit_and_report
switched =
    run library (initial shell_mode)
      (mounted ∷ socket_opened 0 ∷ mode_selected soren_mode ∷ socket_opened 2 ∷ [])

switched-IsValid : IsValid switched
unfolding switched
switched-IsValid =
    run-IsValid library (initial shell_mode)
      (mounted ∷ socket_opened 0 ∷ mode_selected soren_mode ∷ socket_opened 2 ∷ [])
      (initial-IsValid shell_mode)

run-IsValid_example :
    IsValid (run library switched (socket_closed 0 1000 ∷ typed (codes "ls") ∷ []))
run-IsValid_example =
    run-IsValid library switched (socket_closed 0 1000 ∷ typed (codes "ls") ∷ []) switched-IsValid

terminal_keeps_promise_example :
    promise_of (step library (run library (initial shell_mode) (mounted ∷ [])) (socket_opened 0))
    ≡ promised
        (run library (initial shell_mode) (mounted ∷ [])).next
        (promise_of (run library (initial shell_mode) (mounted ∷ [])))
        (socket_opened 0)
terminal_keeps_promise_example =
    terminal_keeps_promise library shell_mode (mounted ∷ []) (socket_opened 0)

typed_lem_example :
    (run library switched (typings (codes "l" ∷ codes "s" ∷ []))).sent
    ≡ inputs 2 (codes "l" ∷ codes "s" ∷ [])
unfolding switched
typed_lem_example = typed_lem library switched (codes "l" ∷ codes "s" ∷ []) switched-IsValid

late_close_stops_ping_example :
    ((step library switched (socket_closed 0 1000)).status ≡ connected)
    × ((step library switched (socket_closed 0 1000)).current ≡ some 2)
    × (lookup 2 (step library switched (socket_closed 0 1000)).sockets ≡ some Phase.opened)
    × ((step library switched (socket_closed 0 1000)).intervals ≡ [])
unfolding switched
late_close_stops_ping_example =
    late_close_stops_ping library switched 0 2 1000 switched-IsValid refl refl refl
