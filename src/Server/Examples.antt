-- ===== src/Server/Examples.antt =====
-- Tests of the server's handlers, and the theorems at concrete inputs.
use nxdb.Common.{
  ◌⊎◌, Bool, ℕ, ◌<◌, ◌≡◌, refl, sym, ◌==◌, if◌then◌else◌, length-drop, inl, true, false, List, [],
  ◌∷◌, none, some, arith, length, All, replicate, length-replicate, get_u32, put_u32, drop,
}
use nxdb.Wire.{Packet, hello, update_char, no_packet, header, encode, is_no_packet}
use nxdb.Server.{
  State, World, Connection, key, modifier, character, ctrl, shift, alt, super, Recv, would_block,
  buffer_capacity, handle_event, handle_whole, read_header, whole_size, receive, received,
  key_inputs,
}
use nxdb.Server.Framing.{IsValid, pending, with_header}
use nxdb.Server.Effects.{IsServable, effect}
use nxdb.Server.Buffer.{get_u32-take}
use nxdb.Server.Arrival.{serve, wire, socket, Waits}
use nxdb.Server.Delivery.{events, Delivered, deliver, deliver_total}
use nxdb.Server.Safety.{IsBounded, IsEndless, handle_event-IsValid, oversize_closes}
use nxdb.Server.Loop.{Visit, visit, sweep}
use nxdb.Server.Sweep.{none_left, served, sweep_all, sweep_drop_inner}

abbrev zero_byte : ℕ
zero_byte = 0

memory : List ℕ
memory = replicate 4096 0

length-memory : length memory ≡ buffer_capacity
unfolding memory
length-memory = length-replicate 4096 zero_byte

abbrev screen : World
screen = record {
  display_width = 0;
  display_height = 0;
  inputs = [];
  rerender = false;
  clipboard = [];
  closed = [];
}

abbrev viewer : Connection
viewer = record {
  fd = 7;
  buffer = memory;
  buffer_size = 0;
  next_packet_size = 0;
  next_packet_type = no_packet;
  last_alive = 0;
  has_sent_font_texture = false;
}

abbrev start : State
start = record { conn = viewer; world = screen }

viewer-IsValid : IsValid viewer
viewer-IsValid = record {
  capacity = length-memory;
  within = omega arith;
  framed = inl (refl, refl);
}

abbrev greeting : Packet
greeting = record { type = hello; body = 0 ∷ 0 ∷ 0 ∷ 0 ∷ [] }

abbrev letter : Packet
letter = record { type = update_char; body = 65 ∷ 0 ∷ 0 ∷ 0 ∷ [] }

greeting-IsServable : IsServable greeting
greeting-IsServable = record { named = tt; fits = omega arith; has_body = tt }

letter-IsServable : IsServable letter
letter-IsServable = record { named = tt; fits = omega arith; has_body = omega arith }

abbrev sent : List Packet
sent = greeting ∷ letter ∷ []

start-Waits : Waits start (wire sent) sent
start-Waits = record { valid = viewer-IsValid; stream = refl }

-- Twenty-six events, five bytes at most at a time.
abbrev schedule : List (ℕ × ℕ)
schedule = replicate 26 (1, 5)

schedule_live : All (λ (e : ℕ × ℕ). 0 < e.1) schedule
schedule_live = omega arith

deliver_example : Delivered schedule start (wire sent) sent
deliver_example =
    deliver schedule start (wire sent) sent start-Waits
      (greeting-IsServable, (letter-IsServable, tt))

deliver_total_example :
    (t : State) × (events schedule (wire sent) start ≡ some (t, []))
    × (t.world ≡ serve sent screen)
    × (pending t.conn ≡ [])
deliver_total_example =
    deliver_total schedule start (wire sent) sent start-Waits
      (greeting-IsServable, (letter-IsServable, tt)) schedule_live
      (unfold wire encode header put_u32 in omega arith)

serve-sent : serve sent screen ≡ record screen { rerender = true; inputs = character 65 ∷ [] }
unfolding serve effect get_u32
serve-sent = refl

-- Control and A: what `sendKeyEvent` sends for it.
key_event :
    key_inputs (1 ∷ 0 ∷ 0 ∷ 0 ∷ 34 ∷ 2 ∷ 0 ∷ 0 ∷ 1 ∷ 0 ∷ 0 ∷ 0 ∷ [])
    ≡ key 546 true
      ∷ modifier ctrl true
      ∷ modifier shift false
      ∷ modifier alt false
      ∷ modifier super false
      ∷ []
unfolding key_inputs get_u32
key_event = refl

-- A socket with one byte.
abbrev receives : ℕ → Recv
receives n = if n == 0 then would_block else received (3 ∷ [])

receives-IsBounded : IsBounded {0} {K = Unit {0}} (λ n. (receives n, tt))
receives-IsBounded n bs e = ground arith

-- A client that is alive, and one whose last sign of life is 16 s old.
abbrev no_data : ℕ → Visit
no_data i = record { started = 17_000_000_000; handled = 17_000_000_000; recv = λ n. would_block }

abbrev lively : Connection
lively = record viewer { fd = 8; last_alive = 16_000_000_000 }

viewer_dropped : visit (no_data 1) viewer screen ≡ some (viewer, screen, true)
unfolding visit handle_event handle_whole read_header whole_size receive is_no_packet
viewer_dropped = refl

lively_stays : visit (no_data 0) lively screen ≡ some (lively, screen, false)
unfolding visit handle_event handle_whole read_header whole_size receive is_no_packet
lively_stays = refl

sweep_all_example :
    sweep 1 0 no_data (record { clients = lively ∷ []; world = screen })
    ≡ some (record { clients = lively ∷ []; world = screen })
sweep_all_example =
    sweep_all no_data (lively ∷ []) (lively ∷ []) screen screen (served lively_stays none_left)

sweep_drop_inner_example :
    sweep 3 0 no_data (record { clients = lively ∷ viewer ∷ lively ∷ []; world = screen }) ≡ none
sweep_drop_inner_example =
    sweep_drop_inner no_data (lively ∷ []) (lively ∷ []) viewer viewer screen screen screen
      (served lively_stays none_left) viewer_dropped lively []

-- A full buffer whose header announces 65536 bytes.
abbrev flooded_memory : List ℕ
flooded_memory = 0 ∷ 0 ∷ 1 ∷ 0 ∷ 4 ∷ 0 ∷ 0 ∷ 0 ∷ drop 8 memory

length-flooded : length flooded_memory ≡ buffer_capacity
length-flooded = omega (arith, length-drop 8 memory, length-memory)

abbrev flooded : Connection
flooded = record viewer { buffer = flooded_memory; buffer_size = buffer_capacity }

flooded-IsValid : IsValid flooded
flooded-IsValid = record {
  capacity = length-flooded;
  within = omega arith;
  framed = inl (refl, refl);
}

flooded_size : get_u32 (pending flooded) 0 ≡ 65536
unfolding get_u32
flooded_size =
    sym
      (get_u32-take flooded_memory buffer_capacity 0 (omega (arith, length-flooded)) (omega arith))

oversize_closes_example :
    handle_event 5 (socket 9 (1 ∷ 2 ∷ [])) (record start { conn = flooded })
    ≡ some (
      record {
        conn = record (with_header flooded) { fd = 0 };
        world = record screen { closed = 7 ∷ [] };
      },
      true,
      1 ∷ 2 ∷ [],
    )
oversize_closes_example =
    oversize_closes 5 9 (1 ∷ 2 ∷ []) (record start { conn = flooded }) flooded-IsValid refl
      (omega (arith, flooded_size))

handle_event-IsValid_example :
    ((t : State) × (gone : Bool) × (k : Unit {0}) × (handle_event 5 (λ n. (receives n, tt)) start
        ≡ some (t, gone, k))
      × IsValid t.conn)
    ⊎ IsEndless (read_header viewer)
handle_event-IsValid_example =
    handle_event-IsValid {0} {K = Unit {0}} 5 (λ n. (receives n, tt)) start receives-IsBounded
      viewer-IsValid
