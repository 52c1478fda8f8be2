-- ===== src/Viewer/Link/Examples.antt =====
-- A packet of two pieces, and a session of a greeting and a typed letter.
use nxdb.Common.{
  ℕ, ◌≡◌, refl, inl, Bool, true, false, List, [], ◌∷◌, ◌++◌, some, arith, length, replicate,
  length-replicate, put_u32,
}
use nxdb.Wire.{Packet, hello, update_char, set_clipboard_text, no_packet, header, to_code}
use nxdb.Server.{State, World, buffer_capacity}
use nxdb.Server.Framing.{pending}
use nxdb.Server.Arrival.{serve}
use nxdb.Server.Delivery.{events}
use nxdb.Viewer.Link.{
  Link, no_socket, connecting, send_size, write_once, send_rest, send_packet, send_packets,
}
use nxdb.Viewer.Link.Pieces.{Cuts, write_all, send_packet_lem}
use nxdb.Viewer.Link.Session.{session}

-- A socket that accepts everything, and one that is broken.
abbrev write : List ℕ → List ℕ → Bool × List ℕ
write bs k = (true, k ++ bs)

abbrev broken : List ℕ → List ℕ → Bool × List ℕ
broken bs k = (false, k)

abbrev fresh : Link (List ℕ)
fresh = record { socket = []; state = connecting }

abbrev greeting : Packet
greeting = record { type = hello; body = 0 ∷ 0 ∷ 0 ∷ 0 ∷ [] }

abbrev letter : Packet
letter = record { type = update_char; body = 65 ∷ 0 ∷ 0 ∷ 0 ∷ [] }

abbrev sent : List Packet
sent = greeting ∷ letter ∷ []

abbrev filled : Link (List ℕ)
filled = record {
  socket =
      4 ∷ 0 ∷ 0 ∷ 0 ∷ 1 ∷ 0 ∷ 0 ∷ 0 ∷ 0 ∷ 0 ∷ 0 ∷ 0 ∷ 4 ∷ 0 ∷ 0 ∷ 0 ∷ 8 ∷ 0 ∷ 0 ∷ 0 ∷ 65 ∷ 0 ∷ 0 ∷ 0
      ∷ [];
  state = connecting;
}

greeting_and_letter : send_packets write sent fresh ≡ some filled
unfolding send_packets send_packet send_rest write_once header to_code put_u32 send_size
greeting_and_letter = refl

failed_send : send_packet broken letter fresh ≡ some (record { socket = []; state = no_socket })
unfolding send_packet send_rest write_once send_size
failed_send = refl

abbrev screen : World
screen = record {
  display_width = 0;
  display_height = 0;
  inputs = [];
  rerender = false;
  clipboard = [];
  closed = [];
}

abbrev zero_byte : ℕ
zero_byte = 0

memory : List ℕ
memory = replicate 4096 0

length-memory : length memory ≡ buffer_capacity
unfolding memory
length-memory = length-replicate 4096 zero_byte

abbrev start : State
start = record {
  conn = record {
    fd = 7;
    buffer = memory;
    buffer_size = 0;
    next_packet_size = 0;
    next_packet_type = no_packet;
    last_alive = 0;
    has_sent_font_texture = false;
  };
  world = screen;
}

abbrev schedule : List (ℕ × ℕ)
schedule = replicate 26 (1, 5)

abbrev long_text : Packet
long_text = record { type = set_clipboard_text; body = replicate 0x3001 65 }

send_packet_lem_example :
    (pieces : List (List ℕ)) × Cuts pieces long_text.body
    × (send_packet write long_text fresh
        ≡ some (write_all write (header set_clipboard_text (length long_text.body) ∷ pieces) fresh))
send_packet_lem_example = send_packet_lem write long_text fresh

session_example :
    (t : State) × (events schedule filled.socket start ≡ some (t, []))
    × (t.world ≡ serve sent screen)
    × (pending t.conn ≡ [])
session_example =
    session write (λ k. k) (λ bs k e. refl) sent fresh filled schedule start greeting_and_letter
      (λ e. ground arith) refl
      (record { capacity = length-memory; within = omega arith; framed = inl (refl, refl) }) refl
      (
        record { named = tt; fits = omega arith; has_body = tt },
        (record { named = tt; fits = omega arith; has_body = omega arith }, tt),
      )
      (omega arith) (omega arith)
