-- ===== src/Viewer/Run/Packets.antt =====
-- The viewer's receive buffer as a stream of packets: whether the first of them is there in whole.
use nxdb.Common.{
  ℕ, ◌+◌, ◌-◌, ◌≤◌, ◌<◌, ◌≡◌, sym, ap, ◌∙◌, inl, inr, false, List, ◌++◌, none, some, arith, leb,
  Bool-cases, length, take, drop, get_u32, leb→le, not_leb→lt, length-take, length-drop,
  take-append-drop,
}
use nxdb.Wire.{Packet, of_code, is_no_packet}
use nxdb.Server.Buffer.{get_u32-take, take-move_down, take-drop_front}
use nxdb.Server.Framing.{next_packet}
use nxdb.Viewer.Run.{Inbox, read_inbox_header, inbox_whole, take_out}
use nxdb.Viewer.Run.Buffer.{waiting, IsOrderly, length-waiting}

-- The buffer once its header has been read.
abbrev pub with_header : Inbox → Inbox
with_header b = record b {
  next_packet_size = get_u32 (waiting b) 0;
  next_packet_type = of_code (get_u32 (waiting b) 4);
}

-- `p` is the first packet that waits in `b`, and `rest` follows it.
pub record HasPacket (b : Inbox) (p : Packet) (rest : List ℕ) : Type 0 where
  pub headed : read_inbox_header b ≡ with_header b
  pub fits : get_u32 (waiting b) 0 + 8 ≤ b.buffer_size
  pub kind : p.type ≡ of_code (get_u32 (waiting b) 4)
  pub body : p.body ≡ take (get_u32 (waiting b) 0) (drop 8 (waiting b))
  pub remains : rest ≡ drop (get_u32 (waiting b) 0 + 8) (waiting b)

module _ (b : Inbox) (v : IsOrderly b) where
  header_short : b.buffer_size < 8 → read_inbox_header b ≡ b
  unfolding read_inbox_header
  header_short h = ground arith

  header_long : 8 ≤ b.buffer_size → read_inbox_header b ≡ with_header b
  unfolding read_inbox_header is_no_packet
  header_long h =
      ground (arith, get_u32-take b.buffer b.buffer_size 0, get_u32-take b.buffer b.buffer_size 4)

  -- With no whole packet waiting nothing is handled.
  pub incomplete :
      next_packet (waiting b) ≡ none
      → leb (inbox_whole (read_inbox_header b)) (read_inbox_header b).buffer_size ≡ false
  unfolding next_packet inbox_whole
  incomplete e = elim (Bool-cases (leb 8 b.buffer_size)) [
    | inl full ↦ rw (header_long (leb→le 8 b.buffer_size full)) (ground (arith, length-waiting b v))
    | inr short ↦ rw (header_short (not_leb→lt 8 b.buffer_size short)) (ground arith)
  ]

  pub complete :
      (p : Packet) (rest : List ℕ) → next_packet (waiting b) ≡ some (p, rest) → HasPacket b p rest
  unfolding next_packet
  complete p rest e = elim (Bool-cases (leb 8 b.buffer_size)) [
    | inl full ↦ record {
      headed = header_long (leb→le 8 b.buffer_size full);
      fits = ground (arith, length-waiting b v);
      kind = ground (arith, length-waiting b v);
      body = ground (arith, length-waiting b v);
      remains = ground (arith, length-waiting b v);
    }
    | inr short ↦ absurd (ground (arith, length-waiting b v))
  ]

  module _ (p : Packet) (rest : List ℕ) (h : HasPacket b p rest) where
    -- The memory behind the header is the body, and what stands behind it.
    pub body_first : (behind : List ℕ) × (drop 8 b.buffer ≡ p.body ++ behind)
    body_first =
        let size = get_u32 (waiting b) 0 in
        let body_size : length p.body ≡ size = omega (
          arith,
          ap length h.body,
          h.fits,
          length-take size (drop 8 (waiting b)),
          length-drop 8 (waiting b),
          length-waiting b v,
        ) in
        let front : take size (drop 8 b.buffer) ≡ p.body =
          take-drop_front b.buffer b.buffer_size (omega (arith, v.within, v.capacity)) 8 size
            (omega (arith, h.fits))
          ∙ sym h.body in
        (
          drop size (drop 8 b.buffer),
          sym (take-append-drop size (drop 8 b.buffer))
              ∙ ap (λ m. m ++ drop size (drop 8 b.buffer)) front,
        )

    pub waiting-take_out : waiting (take_out (with_header b)) ≡ rest
    unfolding take_out inbox_whole
    waiting-take_out =
        take-move_down b.buffer b.buffer_size (omega (arith, v.within, v.capacity))
          (get_u32 (waiting b) 0 + 8) (b.buffer_size - (get_u32 (waiting b) 0 + 8))
          (omega (arith, h.fits))
        ∙ sym h.remains
