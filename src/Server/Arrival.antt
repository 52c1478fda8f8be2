-- ===== src/Server/Arrival.antt =====
-- From the bytes of the socket to the effects of the packets: one event.
use nxdb.Common.{
  ℕ, ◌+◌, ◌-◌, ◌≤◌, ◌<◌, ◌≡◌, refl, ap, ◌∙◌, inl, inr, List, [], ◌∷◌, ◌++◌, All, none, some, arith,
  length, take, drop, min, ◌==◌, if◌then◌else◌, length-append,
}
use nxdb.Wire.{Packet, encode}
use nxdb.Server.{
  State, World, Recv, received, closed_by_peer, would_block, handle_whole, buffer_capacity,
  read_header,
}
use nxdb.Server.Framing.{pending, IsValid, next_packet, length-pending}
use nxdb.Server.RoundTrip.{IsSendable, split_stream, length-encode}
use nxdb.Server.Effects.{IsServable, effect}
use nxdb.Server.Event.{
  read_header-IsValid, header_read, after_packet, handle_whole-none, handle_whole-some,
  after_packet-IsValid,
}

-- What the packets are to do, in order.
unfoldable pub serve : List Packet → World → World
serve [] w = w
serve (p ∷ ps) w = serve ps (effect p.type p.body w)

-- The bytes of a sequence of packets on the wire.
unfoldable pub wire : List Packet → List ℕ
wire [] = []
wire (p ∷ ps) = encode p ++ wire ps

-- A TCP socket in which the bytes `bs` are still to come and at most `k` of them are there: a read of
-- no bytes answers 0, as the end of the stream does.
unfoldable pub socket : ℕ → List ℕ → ℕ → Recv × List ℕ
socket k bs n =
    if n == 0
    then (closed_by_peer, bs)
    else if length (take k bs) == 0
    then (would_block, bs)
    else (received (take (min k n) bs), drop (min k n) bs)

-- `waiting` packets are all that stands in the buffer and is still to come.
pub record Waits (s : State) (bs : List ℕ) (waiting : List Packet) : Type 0 where
  pub valid : IsValid s.conn
  pub stream : pending s.conn ++ bs ≡ wire waiting

IsServable-IsSendable : (p : Packet) → IsServable p → IsSendable p
IsServable-IsSendable p v = record { named = v.named; fits = omega (arith, v.fits) }

-- After the first half of an event there is room in the buffer, and a packet that was there in whole
-- is done.
pub record Handled (now : ℕ) (s : State) (bs : List ℕ) (ps : List Packet) : Type 0 where
  pub next : State
  pub done : List Packet
  pub rest : List Packet
  pub returns : handle_whole now (record s { conn = read_header s.conn }) ≡ some next
  pub waits : Waits next bs rest
  pub splits : ps ≡ done ++ rest
  pub serves : next.world ≡ serve done s.world
  pub room : next.conn.buffer_size < buffer_capacity
  pub servable : All IsServable rest
  pub progress : length bs ≡ 0 → length rest ≤ length ps - 1
  pub fewer : length rest ≤ length ps

module _ (now : ℕ) (s : State) (bs : List ℕ) where
  nothing-Handled :
      (ps : List Packet)
      → Waits s bs ps
      → All IsServable ps
      → next_packet (pending s.conn) ≡ none
      → s.conn.buffer_size < buffer_capacity
      → (length bs ≡ 0 → length ps ≡ 0)
      → Handled now s bs ps
  unfolding serve
  nothing-Handled ps w ok e room idle =
      let (valid, same, size) = read_header-IsValid now s w.valid in
      record {
        next = header_read now s w.valid;
        done = [];
        rest = ps;
        returns = handle_whole-none now s w.valid e;
        waits = record { valid = valid; stream = ap (λ m. m ++ bs) same ∙ w.stream };
        splits = refl;
        serves = refl;
        room = omega arith;
        servable = ok;
        progress = λ h. omega (arith, idle h);
        fewer = omega arith;
      }

  no_bytes : (xs : List ℕ) → length xs ≡ 0 → next_packet xs ≡ none
  unfolding next_packet
  no_bytes xs h = ground arith

  lengths :
      (xs ys : List ℕ) (p : Packet) (zs : List ℕ)
      → xs ++ ys ≡ encode p ++ zs
      → length xs + length ys ≡ length p.body + 8 + length zs
  lengths xs ys p zs e =
      omega (arith, ap length e, length-append xs ys, length-append (encode p) zs, length-encode p)

  pub handle_first : (ps : List Packet) → Waits s bs ps → All IsServable ps → Handled now s bs ps
  unfolding serve wire
  handle_first [] w ok =
      let empty : length (pending s.conn) ≡ 0 =
        omega (arith, ap length w.stream, length-append (pending s.conn) bs) in
      nothing-Handled [] w ok (no_bytes (pending s.conn) empty)
        (omega (arith, length-pending s.conn w.valid)) (λ h. refl)
  handle_first (p ∷ ps) w ok =
      let fill = length-pending s.conn w.valid in
      let total = lengths (pending s.conn) bs p (wire ps) w.stream in
      elim (split_stream p (pending s.conn) bs (wire ps) (IsServable-IsSendable p ok.0) w.stream) [
        | inl (short, e) ↦
            nothing-Handled (p ∷ ps) w ok e (omega (arith, length-encode p, ok.0.fits))
              (λ h. absurd (omega (arith, length-encode p)))
        | inr (rest, found, joined) ↦
            let (valid, left) = after_packet-IsValid now s w.valid p rest found in
            let next = after_packet now s w.valid p in
            record {
              next = next;
              done = p ∷ [];
              rest = ps;
              returns = handle_whole-some now s w.valid p rest found ok.0;
              waits = record { valid = valid; stream = ap (λ m. m ++ bs) left ∙ joined };
              splits = refl;
              serves = refl;
              room = omega (
                arith,
                ap length left,
                length-pending next.conn valid,
                ap length joined,
                length-append rest bs,
                w.valid.within,
              );
              servable = ok.1;
              progress = λ h. omega arith;
              fewer = omega arith;
            }
      ]
