-- ===== src/Viewer/Link.antt =====
-- client/Source/pe/Client.cpp: `Client::sendPacketImpl` of the viewer. The socket is a parameter: its
-- state, and what a write does to it. A write answers whether it was accepted; that it accepts a part
-- only is not looked at by the code.
pub mod Pieces
pub mod Session
mod Examples
use nxdb.Common.{
  ℕ, zero, suc, ◌+◌, ◌-◌, Bool, List, [], ◌∷◌, Option, none, some, ltb, ◌==◌, if◌then◌else◌, length,
  take, drop,
}
use nxdb.Wire.{Packet, header}

-- `Client::State`.
pub data LinkState : Type 0 where
  no_socket connecting connected : LinkState

pub record Link {ℓ} (K : Type ℓ) : Type ℓ where
  pub socket : K
  pub state : LinkState

-- The bytes of one call: at most 0x3000 of those that are left.
unfoldable pub send_size : ℕ → ℕ
send_size left = if ltb left 0x3000 then left else 0x3000

module _ {ℓ} {K : Type ℓ} (write : List ℕ → K → Bool × K) where
  -- A `write` or `send`, and the test of its result.
  unfoldable pub write_once : List ℕ → Link K → Link K
  write_once bs l =
      let (accepted, socket) = write bs l.socket in
      record { socket = socket; state = if accepted then l.state else no_socket }

  -- The loop, with `left` bytes of the body to send. `none` is the end of the fuel.
  unfoldable pub send_rest : ℕ → List ℕ → ℕ → Link K → Option (Link K)
  send_rest zero body left l = if left == 0 then some l else none
  send_rest (suc fuel) body left l =
      let piece = take (send_size left) (drop (length body - left) body) in
      let rest = send_rest fuel body (left - send_size left) (write_once piece l) in
      if left == 0 then some l else rest

  -- `sendPacketImpl`. A round of the loop takes a byte at least, so the size is fuel enough.
  unfoldable pub send_packet : Packet → Link K → Option (Link K)
  send_packet p l =
      send_rest (length p.body) p.body (length p.body)
        (write_once (header p.type (length p.body)) l)

  unfoldable pub send_packets : List Packet → Link K → Option (Link K)
  send_packets [] l = some l
  send_packets (p ∷ ps) l = elim (send_packet p l) [ none ↦ none | some m ↦ send_packets ps m ]
