-- ===== src/Server/Event.antt =====
-- The two outcomes of the first half of `handleEvent`: a packet is handled, or none is there.
use nxdb.Common.{
  ℕ, ◌+◌, ◌≤◌, ◌≡◌, refl, sym, ap, ap₂, ◌∙◌, inl, inr, List, none, some, arith, length, take, drop,
  leb, get_u32, le→leb, leb→le, not_leb→lt, Bool-cases, length-take, length-drop,
}
use nxdb.Wire.{Packet, PacketType, alive}
use nxdb.Server.{Connection, State, handle_packet, read_header, whole_size, consume, handle_whole}
use nxdb.Server.Buffer.{take-drop_front}
use nxdb.Server.Framing.{
  pending, IsValid, next_packet, with_header, HasPacket, complete, incomplete, length-pending,
  read_header_short, read_header_long, pending-consume, consume-IsValid,
}
use nxdb.Server.Effects.{IsServable, effect, touched, handle_packet-effect}

touched_eq :
    (t : PacketType) (now : ℕ) (c : Connection)
    → (a : ℕ) × (touched t now c ≡ record c { last_alive = a })
unfolding touched
touched_eq alive now c = (now, refl)
touched_eq _ now c = (c.last_alive, refl)

module _ (now : ℕ) (s : State) (v : IsValid s.conn) where
  -- Reading the header changes neither the bytes that wait nor validity.
  pub read_header-IsValid :
      IsValid (read_header s.conn)
      × (pending (read_header s.conn) ≡ pending s.conn)
      × ((read_header s.conn).buffer_size ≡ s.conn.buffer_size)
  read_header-IsValid = elim (Bool-cases (leb 8 s.conn.buffer_size)) [
    | inl full ↦
        let long = leb→le 8 s.conn.buffer_size full in
        rw (read_header_long s.conn v long) (
          record { capacity = v.capacity; within = v.within; framed = inr (long, refl, refl) },
          refl,
          refl,
        )
    | inr short ↦
        rw (read_header_short s.conn v (not_leb→lt 8 s.conn.buffer_size short)) (v, refl, refl)
  ]

  abbrev pub header_read : State
  header_read = record s { conn = read_header s.conn }

  -- The state once `p` is handled and taken out.
  abbrev pub after_packet : Packet → State
  after_packet p = record {
    conn = consume (touched p.type now (with_header s.conn));
    world = effect p.type p.body s.world;
  }

  pub handle_whole-none :
      next_packet (pending s.conn) ≡ none → handle_whole now header_read ≡ some header_read
  unfolding handle_whole
  handle_whole-none e = ground (arith, read_header-IsValid, incomplete s.conn v e)

  module _ (p : Packet) (rest : List ℕ)
      (found : next_packet (pending s.conn) ≡ some (p, rest)) where
    has_packet : HasPacket s.conn p rest
    has_packet = complete s.conn v p rest found

    body_size : length p.body ≡ get_u32 (pending s.conn) 0
    body_size =
        let h = has_packet in
        omega (
          arith,
          ap length h.body,
          h.fits,
          length-take (get_u32 (pending s.conn) 0) (drop 8 (pending s.conn)),
          length-drop 8 (pending s.conn),
          length-pending s.conn v,
        )

    body_in_memory : take (length p.body) (drop 8 s.conn.buffer) ≡ p.body
    body_in_memory =
        let h = has_packet in
        rw body_size (
          take-drop_front s.conn.buffer s.conn.buffer_size (omega (arith, v.within, v.capacity)) 8
            (get_u32 (pending s.conn) 0) (omega (arith, h.fits))
          ∙ sym h.body)

    abbrev headed_state : State
    headed_state = record s { conn = with_header s.conn }

    abbrev touched_state : Connection
    touched_state = touched p.type now (with_header s.conn)

    touched_fits :
        IsValid touched_state
        × (pending touched_state ≡ pending s.conn)
        × (whole_size touched_state ≡ get_u32 (pending s.conn) 0 + 8)
        × (touched_state.buffer_size ≡ s.conn.buffer_size)
    unfolding whole_size
    touched_fits =
        let (a, e) = touched_eq p.type now (with_header s.conn) in
        let h = has_packet in
        rw e (
          record {
            capacity = v.capacity;
            within = v.within;
            framed = inr (omega (arith, h.fits), refl, refl);
          },
          refl,
          refl,
          refl,
        )

    pub handle_whole-some : IsServable p → handle_whole now header_read ≡ some (after_packet p)
    unfolding handle_whole whole_size
    handle_whole-some ok =
        let h = has_packet in
        let handled =
          ap (λ t. handle_packet t (drop 8 s.conn.buffer) now headed_state) (sym h.kind)
          ∙ handle_packet-effect p (drop 8 s.conn.buffer) now headed_state ok body_in_memory in
        rw (h.headed, le→leb (get_u32 (pending s.conn) 0 + 8) s.conn.buffer_size h.fits, handled)
          refl

    pub after_packet-IsValid :
        IsValid (after_packet p).conn × (pending (after_packet p).conn ≡ rest)
    after_packet-IsValid =
        let h = has_packet in
        let (valid, same, size, fill) = touched_fits in
        let fits : whole_size touched_state ≤ touched_state.buffer_size = rw (size, fill) h.fits in
        (
          consume-IsValid touched_state valid fits,
          pending-consume touched_state valid fits ∙ ap₂ drop size same ∙ sym h.remains,
        )
