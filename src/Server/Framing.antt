-- ===== src/Server/Framing.antt =====
-- `Client::handleEvent` as a parser: the bytes that wait in the buffer, the reading of one packet
-- from a byte sequence, and that the handler does that reading.
use nxdb.Common.{
  ℕ, ◌+◌, ◌-◌, ◌≤◌, ◌<◌, ◌≡◌, refl, sym, ap, ◌∙◌, ◌⊎◌, inl, inr, false, ◌&&◌, List, ◌++◌, Option,
  none, some, arith, leb, if◌then◌else◌, Bool-cases, length, take, drop, get_u32, write_at, leb→le,
  not_leb→lt,
}
use nxdb.Wire.{Packet, no_packet, of_code, is_no_packet}
use nxdb.Server.{Connection, buffer_capacity, read_header, whole_size, consume}
use nxdb.Server.Buffer.{
  get_u32-append, take-write_at, length-write_at, get_u32-take, take-move_down, length-move_down,
  length-front,
}

-- The bytes that have come in and that no packet has used yet.
abbrev pub pending : Connection → List ℕ
pending c = take c.buffer_size c.buffer

-- Between two events the header fields are either blank or those of the bytes that wait.
pub record IsValid (c : Connection) : Type 0 where
  pub capacity : length c.buffer ≡ buffer_capacity
  pub within : c.buffer_size ≤ buffer_capacity
  pub framed :
      ((c.next_packet_type ≡ no_packet) × (c.next_packet_size ≡ 0))
      ⊎ ((8 ≤ c.buffer_size)
          × (c.next_packet_size ≡ get_u32 (pending c) 0)
          × (c.next_packet_type ≡ of_code (get_u32 (pending c) 4)))

-- The first packet of a byte sequence and what follows it, once it is there in whole.
unfoldable pub next_packet : List ℕ → Option (Packet × List ℕ)
next_packet bs =
    if leb 8 (length bs) && leb (get_u32 bs 0 + 8) (length bs)
    then some (
      record { type = of_code (get_u32 bs 4); body = take (get_u32 bs 0) (drop 8 bs) },
      drop (get_u32 bs 0 + 8) bs,
    )
    else none

-- The connection once its header has been read.
abbrev pub with_header : Connection → Connection
with_header c = record c {
  next_packet_size = get_u32 (pending c) 0;
  next_packet_type = of_code (get_u32 (pending c) 4);
}

-- `p` is the first packet that waits in `c`, and `rest` follows it.
pub record HasPacket (c : Connection) (p : Packet) (rest : List ℕ) : Type 0 where
  pub headed : read_header c ≡ with_header c
  pub fits : get_u32 (pending c) 0 + 8 ≤ c.buffer_size
  pub kind : p.type ≡ of_code (get_u32 (pending c) 4)
  pub body : p.body ≡ take (get_u32 (pending c) 0) (drop 8 (pending c))
  pub remains : rest ≡ drop (get_u32 (pending c) 0 + 8) (pending c)

module _ (c : Connection) (v : IsValid c) where
  pub length-pending : length (pending c) ≡ c.buffer_size
  length-pending = length-front c.buffer c.buffer_size (omega arith)

  pub read_header_short : c.buffer_size < 8 → read_header c ≡ c
  unfolding read_header
  read_header_short h = ground arith

  pub read_header_long : 8 ≤ c.buffer_size → read_header c ≡ with_header c
  unfolding read_header is_no_packet
  read_header_long h =
      ground (arith, get_u32-take c.buffer c.buffer_size 0, get_u32-take c.buffer c.buffer_size 4)

  -- With no whole packet waiting nothing is handled.
  pub incomplete :
      next_packet (pending c) ≡ none → leb (whole_size (read_header c)) c.buffer_size ≡ false
  unfolding next_packet whole_size
  incomplete e = elim (Bool-cases (leb 8 c.buffer_size)) [
    | inl full ↦
        rw (read_header_long (leb→le 8 c.buffer_size full)) (ground (arith, length-pending))
    | inr short ↦ rw (read_header_short (not_leb→lt 8 c.buffer_size short)) (ground arith)
  ]

  pub complete :
      (p : Packet) (rest : List ℕ) → next_packet (pending c) ≡ some (p, rest) → HasPacket c p rest
  unfolding next_packet
  complete p rest e = elim (Bool-cases (leb 8 c.buffer_size)) [
    | inl full ↦ record {
      headed = read_header_long (leb→le 8 c.buffer_size full);
      fits = ground (arith, length-pending);
      kind = ground (arith, length-pending);
      body = ground (arith, length-pending);
      remains = ground (arith, length-pending);
    }
    | inr short ↦ absurd (ground (arith, length-pending))
  ]

  -- Taking a packet out leaves what follows it, and a valid connection.
  pub pending-consume :
      whole_size c ≤ c.buffer_size → pending (consume c) ≡ drop (whole_size c) (pending c)
  unfolding consume
  pending-consume h =
      take-move_down c.buffer c.buffer_size (omega arith) (whole_size c)
        (c.buffer_size - whole_size c) (omega arith)

  pub consume-IsValid : whole_size c ≤ c.buffer_size → IsValid (consume c)
  unfolding consume
  consume-IsValid h = record {
    capacity =
        length-move_down c.buffer c.buffer_size (omega arith) (whole_size c)
          (c.buffer_size - whole_size c) (omega arith)
        ∙ v.capacity;
    within = omega arith;
    framed = inl (refl, refl);
  }

  -- What comes in goes behind what waits.
  module _ (bs : List ℕ) (fits : c.buffer_size + length bs ≤ buffer_capacity) where
    abbrev filled : Connection
    filled = record c {
      buffer = write_at c.buffer c.buffer_size bs;
      buffer_size = c.buffer_size + length bs;
    }

    pub pending-filled : pending filled ≡ pending c ++ bs
    pending-filled = take-write_at c.buffer c.buffer_size (omega arith) bs

    pub filled-IsValid : IsValid filled
    filled-IsValid = record {
      capacity = length-write_at c.buffer c.buffer_size (omega arith) bs (omega arith) ∙ v.capacity;
      within = fits;
      framed = elim v.framed [
        | inl blank ↦ inl blank
        | inr (full, size, kind) ↦
            let first = get_u32-append (pending c) bs 0 (omega (arith, length-pending)) in
            let second = get_u32-append (pending c) bs 4 (omega (arith, length-pending)) in
            inr (
              omega arith,
              size ∙ sym (ap (λ m. get_u32 m 0) pending-filled ∙ first),
              kind ∙ sym (ap (λ m. of_code (get_u32 m 4)) pending-filled ∙ ap of_code second),
            )
      ];
    }
