-- ===== src/Server/Listen/Examples.antt =====
-- Tests of `start`, and its theorem at a second start that fails.
use nxdb.Common.{◌≡◌, refl, arith, inr, true, false, [], ◌∷◌, none, some, ◌==◌}
use nxdb.Server.Listen.{Answers, Listener, close_socket, close_old, set_up, start}
use nxdb.Server.Listen.Sockets.{IsAlone, start_lem}

abbrev succeeding : Answers
succeeding = record {
  socket = some 4;
  reuse_address = true;
  no_delay = true;
  bind = true;
  listen = true;
}

abbrev taken_port : Answers
taken_port = record succeeding { socket = some 5; bind = false }

abbrev before : Listener
before = record { fd = none; sockets = 1 ∷ []; listening = [] }

abbrev first_start : Listener
first_start = record { fd = some 4; sockets = 4 ∷ 1 ∷ []; listening = 4 ∷ [] }

started : start succeeding before ≡ (first_start, 0)
unfolding start close_old set_up
started = refl

no_socket_left : (start (record succeeding { socket = none }) first_start).0 ≡ before
unfolding start close_old close_socket
no_socket_left = refl

start_lem_example :
    IsAlone (1 ∷ []) (some 5) (start taken_port first_start).0
    × (((start taken_port first_start).1 == 0) ≡ false)
    × ((start taken_port first_start).0.listening ≡ [])
start_lem_example =
    start_lem taken_port first_start (1 ∷ []) (some 4) (refl, refl, (omega arith, tt), inr refl)
      (omega arith, tt)
