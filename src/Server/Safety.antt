-- ===== src/Server/Safety.antt =====
-- `handleEvent` on any input: its use of the buffer, and packets that do not fit it.
use nxdb.Common.{
  ◌⊎◌, none, c_string, ℕ, ◌+◌, ◌-◌, ◌≤◌, ◌<◌, ◌≡◌, refl, inl, inr, Bool, true, List, Option, some,
  arith, length, drop, leb, leb→le, get_u32, Bool-cases, Option-cases, lt→not_leb, subst, ◌++◌, [],
  ◌∷◌,
}
use nxdb.Wire.{PacketType, alive, set_clipboard_text, packet_header_size}
use nxdb.Server.{
  Connection, State, Recv, received, closed_by_peer, would_block, failed, handle_packet,
  read_header, whole_size, consume, handle_whole, receive, handle_event, buffer_capacity,
}
use nxdb.Server.Framing.{
  pending, IsValid, with_header, read_header_long, consume-IsValid, filled-IsValid,
}
use nxdb.Server.Event.{read_header-IsValid, header_read}
use nxdb.Server.Arrival.{socket}

-- Whatever the packet, the handler changes of the connection at most the time of the last sign of
-- life.
handle_packet-conn :
    (t : PacketType) (m : List ℕ) (now : ℕ) (s u : State)
    → handle_packet t m now s ≡ some u
    → (a : ℕ) × (u.conn ≡ record (s.conn) { last_alive = a })
unfolding handle_packet
handle_packet-conn alive m now s u e = (now, ground arith)
handle_packet-conn _ m now s u e = (s.conn.last_alive, ground arith)

-- `recv` writes no more than it was asked for.
abbrev pub IsBounded {ℓ} : {K : Type ℓ} → (ℕ → Recv × K) → Type 0
IsBounded recv = (n : ℕ) (bs : List ℕ) → (recv n).0 ≡ received bs → length bs ≤ n

receive-IsValid :
    (r : Recv) (t : State)
    → IsValid t.conn
    → ((bs : List ℕ) → r ≡ received bs → t.conn.buffer_size + length bs ≤ buffer_capacity)
    → IsValid (receive r t).0.conn
unfolding receive
receive-IsValid (received bs) t v h = filled-IsValid t.conn v bs (h bs refl)
receive-IsValid closed_by_peer t v h = record {
  capacity = v.capacity;
  within = v.within;
  framed = v.framed;
}
receive-IsValid would_block t v h = v
receive-IsValid failed t v h = v

consume_handled :
    (c d : Connection) (a : ℕ)
    → IsValid c
    → whole_size c ≤ c.buffer_size
    → d ≡ record c { last_alive = a }
    → IsValid (consume d)
unfolding whole_size
consume_handled c d a v h e = rw e (
    consume-IsValid (record c { last_alive = a })
      (record { capacity = v.capacity; within = v.within; framed = v.framed }) h)

handle_whole-IsValid :
    (now : ℕ) (s t : State) → IsValid s.conn → handle_whole now s ≡ some t → IsValid t.conn
unfolding handle_whole
handle_whole-IsValid now s t v e = elim (Bool-cases (leb (whole_size s.conn) s.conn.buffer_size)) [
  | inr more ↦ let same : s ≡ t = ground arith in subst (λ (u : State). IsValid u.conn) same v
  | inl there ↦ elim (Option-cases handled) [
    | inl fault ↦ absurd (ground arith)
    | inr (u, done) ↦
        let (a, kept) = handle_packet-conn _ _ now s u done in
        let same : record u { conn = consume u.conn } ≡ t = ground arith in
        subst (λ (u : State). IsValid u.conn) same
          (consume_handled s.conn u.conn a v (leb→le _ _ there) kept)
  ]
]
  where
    handled : Option State
    handled = handle_packet s.conn.next_packet_type (drop packet_header_size s.conn.buffer) now s

event-IsValid {ℓ} :
    {K : Type ℓ} (now : ℕ) (recv : ℕ → Recv × K) (s t : State) (gone : Bool) (k : K)
    → IsBounded recv
    → IsValid s.conn
    → handle_event now recv s ≡ some (t, gone, k)
    → IsValid t.conn
unfolding handle_event
event-IsValid {K} now recv s t gone k bounded v e = elim (Option-cases first) [
  | inl fault ↦ absurd (ground arith)
  | inr (u, done) ↦
      let valid =
        handle_whole-IsValid now (header_read now s v) u (read_header-IsValid now s v).0 done in
      let answer = recv (buffer_capacity - u.conn.buffer_size) in
      let room : (bs : List ℕ)
          → answer.0 ≡ received bs
          → u.conn.buffer_size + length bs ≤ buffer_capacity =
        λ bs q. omega (arith, bounded (buffer_capacity - u.conn.buffer_size) bs q, valid.within) in
      let same : (receive answer.0 u).0 ≡ t = ground arith in
      subst (λ (u : State). IsValid u.conn) same (receive-IsValid answer.0 u valid room)
]
  where
    first : Option State
    first = handle_whole now (record s { conn = read_header s.conn })

-- The only packet whose handler can read past its memory is a text without an end.
handle_packet-none :
    (t : PacketType) (m : List ℕ) (now : ℕ) (s : State)
    → handle_packet t m now s ≡ none
    → (t ≡ set_clipboard_text) × (c_string m ≡ none)
unfolding handle_packet
handle_packet-none set_clipboard_text m now s e = elim (Option-cases (c_string m)) [
  | inl endless ↦ (refl, endless)
  | inr (text, ends) ↦ absurd (ground (arith, ends))
]
handle_packet-none _ m now s e = cc

-- The packet at the front of the buffer has come in whole and is a text, and no zero follows in the
-- buffer.
pub record IsEndless (c : Connection) : Type 0 where
  pub whole : leb (whole_size c) c.buffer_size ≡ true
  pub kind : c.next_packet_type ≡ set_clipboard_text
  pub endless : c_string (drop packet_header_size c.buffer) ≡ none

handle_whole-none : (now : ℕ) (s : State) → handle_whole now s ≡ none → IsEndless s.conn
unfolding handle_whole
handle_whole-none now s e = elim (Bool-cases (leb (whole_size s.conn) s.conn.buffer_size)) [
  | inr more ↦ absurd (ground arith)
  | inl there ↦ elim (Option-cases handled) [
    | inl fault ↦
        let (kind, endless) = handle_packet-none s.conn.next_packet_type _ now s fault in
        record { whole = there; kind = kind; endless = endless }
    | inr (u, done) ↦ absurd (ground (arith, done))
  ]
]
  where
    handled : Option State
    handled = handle_packet s.conn.next_packet_type (drop packet_header_size s.conn.buffer) now s

handle_event-none {ℓ} :
    {K : Type ℓ} (now : ℕ) (recv : ℕ → Recv × K) (s : State)
    → handle_event now recv s ≡ none
    → IsEndless (read_header s.conn)
unfolding handle_event
handle_event-none now recv s e = elim (Option-cases first) [
  | inl fault ↦ handle_whole-none now (record s { conn = read_header s.conn }) fault
  | inr (u, done) ↦ absurd (ground (arith, done))
]
  where
    first : Option State
    first = handle_whole now (record s { conn = read_header s.conn })

-- Whatever bytes come in, `recv` writing no more than it was asked for, an event of a valid connection
-- has a result in which the connection is valid, its buffer of the same size and filled within it; or
-- the buffer has a whole `SetClipboardText` at its front and no zero behind its header, and the code
-- reads past the buffer.
pub handle_event-IsValid {ℓ} :
    {K : Type ℓ} (now : ℕ) (recv : ℕ → Recv × K) (s : State)
    → IsBounded recv
    → IsValid s.conn
    → ((t : State) × (gone : Bool) × (k : K) × (handle_event now recv s ≡ some (t, gone, k))
        × IsValid t.conn)
      ⊎ IsEndless (read_header s.conn)
handle_event-IsValid now recv s bounded v = elim (Option-cases (handle_event now recv s)) [
  | inl fault ↦ inr (handle_event-none now recv s fault)
  | inr ((t, gone, k), e) ↦ inl (t, gone, k, e, event-IsValid now recv s t gone k bounded v e)
]

oversize_unhandled :
    (now : ℕ) (s : State)
    → IsValid s.conn
    → 8 ≤ s.conn.buffer_size
    → s.conn.buffer_size < get_u32 (pending s.conn) 0 + packet_header_size
    → handle_whole now (record s { conn = read_header s.conn })
      ≡ some (record s { conn = with_header s.conn })
unfolding handle_whole whole_size
oversize_unhandled now s v there big =
    rw
      (
        read_header_long s.conn v there,
        lt→not_leb (get_u32 (pending s.conn) 0 + 8) s.conn.buffer_size (omega arith),
      )
      refl

-- A packet that announces more than 4088 bytes is never handled: when the buffer is full the event
-- reads no bytes, takes the answer for the end of the stream and closes the connection, although the
-- peer is there and bytes may still be coming.
pub oversize_closes :
    (now k : ℕ) (bs : List ℕ) (s : State)
    → IsValid s.conn
    → s.conn.buffer_size ≡ buffer_capacity
    → buffer_capacity < get_u32 (pending s.conn) 0 + packet_header_size
    → handle_event now (socket k bs) s
      ≡ some (
        record {
          conn = record (with_header s.conn) { fd = 0 };
          world = record (s.world) { closed = s.world.closed ++ s.conn.fd ∷ [] };
        },
        true,
        bs,
      )
unfolding handle_event receive socket
oversize_closes now k bs s v full big =
    let nothing : buffer_capacity - s.conn.buffer_size ≡ 0 = omega arith in
    rw (oversize_unhandled now s v (omega arith) (omega arith), handle_event, nothing) refl
