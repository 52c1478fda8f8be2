-- ===== src/Viewer/Link/Session.antt =====
-- A session: the packets that the viewer sends through a socket that keeps what it accepts, and the
-- server that reads them.
use nxdb.Common.{
  ℕ, ◌+◌, ◌≤◌, ◌<◌, ◌≡◌, ◌≢◌, refl, sym, ap, ◌∙◌, Bool, true, Bool-cases, inl, inr, List, [], ◌∷◌,
  ◌++◌, append_assoc, append-nil, some, arith, All, length, concat, subst,
}
use nxdb.Wire.{Packet, header, encode}
use nxdb.Server.{State}
use nxdb.Server.Framing.{pending, IsValid}
use nxdb.Server.Arrival.{wire, serve}
use nxdb.Server.Delivery.{events, deliver_total}
use nxdb.Server.Effects.{IsServable}
use nxdb.Viewer.Link.{Link, no_socket, write_once, send_packet, send_packets}
use nxdb.Viewer.Link.Pieces.{write_all, send_packet_lem}

module _ {ℓ} {K : Type ℓ} (write : List ℕ → K → Bool × K) (content : K → List ℕ)
    (keeps : (bs : List ℕ) (k : K)
      → (write bs k).0 ≡ true
      → content (write bs k).1 ≡ content k ++ bs) where
  -- With a socket left in the end, all that was written has been accepted.
  abbrev Accepted : Link K → List ℕ → Link K → Type 0
  Accepted l bs m =
      m.state ≢ no_socket → (l.state ≢ no_socket) × (content m.socket ≡ content l.socket ++ bs)

  write_once-Accepted : (bs : List ℕ) (l : Link K) → Accepted l bs (write_once write bs l)
  unfolding write_once
  write_once-Accepted bs l up = elim (Bool-cases ((write bs l.socket).0)) [
    | inl good ↦ ((λ lost. up (rw good lost)), keeps bs l.socket good)
    | inr bad ↦ absurd (up (rw bad refl))
  ]

  write_all-Accepted :
      (pieces : List (List ℕ)) (l : Link K) → Accepted l (concat pieces) (write_all write pieces l)
  unfolding write_all
  write_all-Accepted [] l up = (up, sym (append-nil (content l.socket)))
  write_all-Accepted (b ∷ pieces) l up =
      let (still, later) = write_all-Accepted pieces (write_once write b l) up in
      let (before, now) = write_once-Accepted b l still in
      (
        before,
        later
            ∙ ap (λ c. c ++ concat pieces) now
            ∙ append_assoc (content l.socket) b (concat pieces),
      )

  -- A packet after which the viewer does not take its connection for lost stands in the socket in whole.
  send_packet_whole :
      (p : Packet) (l : Link K)
      → (m : Link K) × (send_packet write p l ≡ some m)
        × (m.state ≢ no_socket
            → (l.state ≢ no_socket) × (content m.socket ≡ content l.socket ++ encode p))
  unfolding encode
  send_packet_whole p l =
      let (pieces, cuts, same) = send_packet_lem write p l in
      let calls = header p.type (length p.body) ∷ pieces in
      (
        write_all write calls l,
        same,
        λ up.
            let (before, all) = write_all-Accepted calls l up in
            (
              before,
              all ∙ ap (λ b. content l.socket ++ (header p.type (length p.body) ++ b)) cuts.whole,
            ),
      )

  send_packets_whole :
      (ps : List Packet) (l : Link K)
      → (m : Link K) × (send_packets write ps l ≡ some m)
        × (m.state ≢ no_socket
            → (l.state ≢ no_socket) × (content m.socket ≡ content l.socket ++ wire ps))
  unfolding send_packets wire
  send_packets_whole [] l = (l, refl, λ up. (up, sym (append-nil (content l.socket))))
  send_packets_whole (p ∷ ps) l =
      let (m, sent, first) = send_packet_whole p l in
      let (n, all, rest) = send_packets_whole ps m in
      (
        n,
        rw (send_packets, sent) all,
        λ up.
            let (still, later) = rest up in
            let (before, now) = first still in
            (
              before,
              later
                  ∙ ap (λ c. c ++ wire ps) now
                  ∙ append_assoc (content l.socket) (encode p) (wire ps),
            ),
      )

  -- Packets that the viewer sends into an empty socket without losing it are all done by a server with
  -- an empty buffer, in order and once each, however the socket cuts the bytes, when bytes are there at
  -- every event and there are as many events as bytes and packets.
  pub session :
      (ps : List Packet) (l m : Link K) (ks : List (ℕ × ℕ)) (s : State)
      → send_packets write ps l ≡ some m
      → m.state ≢ no_socket
      → content l.socket ≡ []
      → IsValid s.conn
      → pending s.conn ≡ []
      → All IsServable ps
      → All (λ e. 0 < e.1) ks
      → length (content m.socket) + length ps ≤ length ks
      → (t : State) × (events ks (content m.socket) s ≡ some (t, []))
        × (t.world ≡ serve ps s.world)
        × (pending t.conn ≡ [])
  session ps l m ks s sent up clear valid idle ok live enough =
      let (n, same, whole) = send_packets_whole ps l in
      let one : n ≡ m = ground (arith, same, sent) in
      let (_, stream) = whole (subst (λ x. x.state ≢ no_socket) (sym one) up) in
      let bytes : content m.socket ≡ wire ps =
        sym (ap (λ x. content x.socket) one) ∙ stream ∙ ap (λ c. c ++ wire ps) clear in
      deliver_total ks s (content m.socket) ps
        (record { valid = valid; stream = ap (λ c. c ++ content m.socket) idle ∙ bytes }) ok live
        enough
