-- ===== src/Server/Listen.antt =====
-- `Server::start` and the fields that it needs, and what `runImguiLoop` does with the result. The
-- calls' answers are a parameter, the descriptor of `socket` among them.
pub mod Sockets
mod Examples
use nxdb.Common.{
  ℕ, zero, suc, Bool, true, false, not, List, [], ◌∷◌, ◌++◌, Option, none, some, ◌==◌,
  if◌then◌else◌,
}

-- The answers of one call of `start`; `socket` is `none` for a negative result. The others are true
-- where the call succeeds.
pub record Answers : Type 0 where
  pub socket : Option ℕ
  pub reuse_address : Bool
  pub no_delay : Bool
  pub bind : Bool
  pub listen : Bool

-- `mFd`, none being negative, and the sockets of the process that are open.
pub record Listener : Type 0 where
  pub fd : Option ℕ
  pub sockets : List ℕ
  pub listening : List ℕ

unfoldable pub close_socket : ℕ → List ℕ → List ℕ
close_socket fd [] = []
close_socket fd (s ∷ ss) = (if s == fd then [] else s ∷ []) ++ close_socket fd ss

unfoldable pub close_old : Listener → Listener
unfolding close_socket
close_old l = elim l.fd [
  | none ↦ l
  | some fd ↦ record l {
    sockets = close_socket fd l.sockets;
    listening = close_socket fd l.listening;
  }
]

-- `start` behind the call of `socket`.
unfoldable pub set_up : Answers → ℕ → Listener → Listener × ℕ
set_up a fd l =
    let l' = record l { fd = some fd; sockets = fd ∷ l.sockets } in
    if not a.reuse_address
    then (l', 3)
    else if not a.no_delay
    then (l', 3)
    else if not a.bind
    then (l', 2)
    else if not a.listen
    then (l', 4)
    else (record l' { listening = fd ∷ l.listening }, 0)

unfoldable pub start : Answers → Listener → Listener × ℕ
unfolding close_old set_up
start a l = elim a.socket [
  | none ↦ (record (close_old l) { fd = none }, 1)
  | some fd ↦ set_up a fd (close_old l)
]
