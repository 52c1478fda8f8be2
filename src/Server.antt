-- ===== src/Server.antt =====
-- sysmodule/include/Server.h and sysmodule/source/net/Server.cpp: one connected viewer
-- (`nxdb::Client`), the packets that it sends, and what they do to the user interface.
-- Logging is left out. `mUuid` is never set and only logged.
pub mod Buffer
pub mod Framing
pub mod RoundTrip
pub mod Effects
pub mod Event
pub mod Arrival
pub mod Delivery
pub mod Safety
pub mod Loop
pub mod Sweep
pub mod Listen
mod Examples
use nxdb.Common.{
  ℕ, ◌+◌, ◌-◌, ◌/◌, ◌%◌, ◌^◌, Bool, true, false, not, ◌&&◌, ◌||◌, List, [], ◌∷◌, ◌++◌, Option, none,
  some, leb, ◌==◌, if◌then◌else◌, byte_at, get_u32, put_u32, write_at, move_down, c_string, take,
  drop, length,
}
use nxdb.Wire.{
  PacketType, no_packet, hello, alive, font_texture, update_display_size, update_mouse, update_key,
  update_char, set_clipboard_text, of_code, is_no_packet, packet_header_size, header,
}

pub data Modifier : Type 0 where
  ctrl shift alt super : Modifier

-- The calls that the handlers make of `ImGuiIO`. Floats stand as their bit patterns.
pub data Input : Type 0 where
  mouse_pos : ℕ → ℕ → Input
  mouse_wheel : ℕ → ℕ → Input
  mouse_button : ℕ → Bool → Input
  key : ℕ → Bool → Input
  modifier : Modifier → Bool → Input
  character : ℕ → Input

-- What the handlers change outside the connection: ImGui's display size, the input calls so far,
-- `sRerender`, `sCurClipboardString`, and the descriptors closed so far.
pub record World : Type 0 where
  pub display_width : ℕ
  pub display_height : ℕ
  pub inputs : List Input
  pub rerender : Bool
  pub clipboard : List ℕ
  pub closed : List ℕ

-- `struct Client`. `buffer` is all of `mBuffer`; its first `buffer_size` bytes are received data.
pub record Connection : Type 0 where
  pub fd : ℕ
  pub buffer : List ℕ
  pub buffer_size : ℕ
  pub next_packet_size : ℕ
  pub next_packet_type : PacketType
  pub last_alive : ℕ
  pub has_sent_font_texture : Bool

pub record State : Type 0 where
  pub conn : Connection
  pub world : World

-- `sizeof(mBuffer)`.
abbrev pub buffer_capacity : ℕ
buffer_capacity = 4096

abbrev pub nonzero : ℕ → Bool
nonzero b = not (b == 0)

-- A float in a condition: both zeros are false, all else is true.
abbrev pub float_nonzero : ℕ → Bool
float_nonzero bits = not (bits % 2 ^ 31 == 0)

unfoldable pub queue_rerender : World → World
queue_rerender w = record w { rerender = true }

add_inputs : World → List Input → World
add_inputs w is = record w { inputs = w.inputs ++ is }

-- `struct MouseEvent`: pos at 0, button at 8, pressed at 12, wheelX at 16, wheelY at 20.
unfoldable pub mouse_inputs : List ℕ → List Input
mouse_inputs m =
    mouse_pos (get_u32 m 0) (get_u32 m 4)
      ∷ (if float_nonzero (get_u32 m 16) || float_nonzero (get_u32 m 20)
          then mouse_wheel (get_u32 m 16) (get_u32 m 20) ∷ []
          else [])
    ++ (if get_u32 m 8 == 2 ^ 32 - 1
        then []
        else mouse_button (get_u32 m 8) (nonzero (byte_at m 12)) ∷ [])

-- `struct KeyEvent`: the modifier bits at 0, key at 4, pressed at 8.
unfoldable pub key_inputs : List ℕ → List Input
key_inputs m =
    key (get_u32 m 4) (nonzero (byte_at m 8))
    ∷ modifier ctrl (bit 1)
    ∷ modifier shift (bit 2)
    ∷ modifier alt (bit 4)
    ∷ modifier super (bit 8)
    ∷ []
  where
    bit : ℕ → Bool
    bit k = nonzero ((byte_at m 0) / k % 2)

-- `Client::handlePacket`, on the memory from `data` on, at the time `now`. The result is `none`
-- where the clipboard text has no terminator within the memory.
unfoldable pub handle_packet : PacketType → List ℕ → ℕ → State → Option State
unfolding queue_rerender add_inputs mouse_inputs key_inputs
handle_packet hello m now s = some (record s { world = queue_rerender s.world })
handle_packet alive m now s = some (record s { conn = record (s.conn) { last_alive = now } })
handle_packet update_display_size m now s = some (record s {
  world =
      queue_rerender
        (record (s.world) { display_width = get_u32 m 0; display_height = get_u32 m 4 });
})
handle_packet update_mouse m now s =
    some (record s { world = queue_rerender (add_inputs s.world (mouse_inputs m)) })
handle_packet update_key m now s = some (record s { world = add_inputs s.world (key_inputs m) })
handle_packet update_char m now s =
    some (record s { world = add_inputs s.world (character (get_u32 m 0) ∷ []) })
handle_packet set_clipboard_text m now s = elim (c_string m) [
  | none ↦ none
  | some text ↦ some (record s { world = record (s.world) { clipboard = text } })
]
handle_packet _ m now s = some s

-- The answers of `recv`: data, the end of the stream, no data yet, another error.
pub data Recv : Type 0 where
  received : List ℕ → Recv
  closed_by_peer would_block failed : Recv

-- The start of `handleEvent`: a header that has come in whole is read.
unfoldable pub read_header : Connection → Connection
read_header c =
    if is_no_packet c.next_packet_type
      && c.next_packet_size == 0
      && leb packet_header_size c.buffer_size
    then record c {
      next_packet_size = get_u32 c.buffer 0;
      next_packet_type = of_code (get_u32 c.buffer 4);
    }
    else c

unfoldable pub whole_size : Connection → ℕ
whole_size c = c.next_packet_size + packet_header_size

-- What stands after the packet moves to the front of the buffer.
unfoldable pub consume : Connection → Connection
unfolding whole_size
consume c = record c {
  buffer = move_down c.buffer (whole_size c) (c.buffer_size - whole_size c);
  buffer_size = c.buffer_size - whole_size c;
  next_packet_size = 0;
  next_packet_type = no_packet;
}

-- A packet that has come in whole is handled and taken out.
unfoldable pub handle_whole : ℕ → State → Option State
unfolding whole_size
handle_whole now s =
    if leb (whole_size s.conn) s.conn.buffer_size
    then elim (handle_packet s.conn.next_packet_type (drop packet_header_size s.conn.buffer) now
        s) [ none ↦ none | some t ↦ some (record t { conn = consume t.conn }) ]
    else some s

-- The end of `handleEvent`; the flag is its result, "disconnected".
unfoldable pub receive : Recv → State → State × Bool
receive (received bs) s = (
  record s {
    conn = record (s.conn) {
      buffer = write_at s.conn.buffer s.conn.buffer_size bs;
      buffer_size = s.conn.buffer_size + length bs;
    };
  },
  false,
)
receive closed_by_peer s = (
  record {
    conn = record (s.conn) { fd = 0 };
    world = record (s.world) { closed = s.world.closed ++ s.conn.fd ∷ [] };
  },
  true,
)
receive would_block s = (s, false)
receive failed s = (s, false)

-- `Client::handleEvent`. `recv n` is the answer of the socket to a read of at most `n` bytes, and
-- the socket after it.
unfoldable pub handle_event {ℓ} :
    {K : Type ℓ} → ℕ → (ℕ → Recv × K) → State → Option (State × Bool × K)
handle_event now recv s = elim (handle_whole now (record s { conn = read_header s.conn })) [
  | none ↦ none
  | some t ↦
      let (answer, socket) = recv (buffer_capacity - t.conn.buffer_size) in
      let (u, gone) = receive answer t in some (u, gone, socket)
]
