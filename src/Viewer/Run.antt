-- ===== src/Viewer/Run.antt =====
-- client/Source/pe/Client.cpp and client/Include/pe/Client.h: `start`, `handlePacket` and a round of the
-- loop of `run`. What the socket, the window and the clock answer in a round is `Env`. `Option` is for
-- what has no defined result.
pub mod Buffer
pub mod Sending
pub mod Rounds
pub mod Reconnect
pub mod Packets
pub mod Arrival
pub mod Advance
pub mod Delivery
pub mod Film
mod Examples
use nxdb.Common.{
  ℕ, ◌+◌, ◌-◌, ◌*◌, ◌^◌, Bool, true, false, ◌||◌, ◌&&◌, List, [], ◌∷◌, ◌++◌, Option, none, some,
  ltb, leb, ◌==◌, if◌then◌else◌, length, take, drop, replicate, get_u32, put_u32, write_at,
  move_down, c_string,
}
use mathlib.Core.Option
use nxdb.Wire.{
  Packet, PacketType, no_packet, hello, alive, font_texture, draw_data, set_clipboard_text, of_code,
  is_no_packet, packet_header_size,
}
use nxdb.Server.{Recv, received, closed_by_peer, would_block, failed}
use nxdb.Draw.{Floats, Point, DrawList}
use nxdb.Draw.Unpack.{unpack}
use nxdb.Viewer.Input.{Vec2, Padding, Seen, update_network_input}
use nxdb.Viewer.Link.{Link, LinkState, no_socket, connecting, send_packet}

-- `sizeof(mBuffer)`.
abbrev pub inbox_capacity : ℕ
inbox_capacity = 2 ^ 20

-- `mBuffer`, `mBufferSize`, `mNextPacketSize` and `mNextPacketType`.
pub record Inbox : Type 0 where
  pub buffer : List ℕ
  pub buffer_size : ℕ
  pub next_packet_size : ℕ
  pub next_packet_type : PacketType

-- What the viewer does outside of itself: `loadFontTextureRGBA32` with the pixels from an address on,
-- a drawn frame, the mouse cursor, and the clipboard.
pub data Effect : Type 0 where
  load_font : ℕ → ℕ → List ℕ → Effect
  draw : List DrawList → Effect
  set_cursor : ℕ → Effect
  set_clipboard : List ℕ → Effect

-- `Client`, the statics of Client.cpp, NetworkInput.cpp and DrawData.cpp, and `io.DisplaySize`. Times are
-- in nanoseconds.
pub record Viewer {ℓ} (K : Type ℓ) : Type ℓ where
  pub link : Link K
  pub has_sent_hello : Bool
  pub inbox : Inbox
  pub last_alive : ℕ
  pub last_input : ℕ
  pub seen : Seen
  pub display : Point
  pub prev : Option (List DrawList)
  pub effects : List Effect
  pub dead : Bool

-- What `updateNetworkInput` finds: the window, the clipboard, and what the callbacks send while the
-- events are polled.
pub record Window : Type 0 where
  pub size : Vec2
  pub cursor : Vec2
  pub clipboard : Option (List ℕ)
  pub pad : Padding
  pub events : List Packet

-- A failure of `socket` or of `connect`, or a connection.
pub data Opened {ℓ} (K : Type ℓ) : Type ℓ where
  refused : K → Opened K
  opened : K → Opened K

-- What is found in a round. `polled` is what the callbacks send while `render` polls the events.
pub record Env {ℓ} (K : Type ℓ) : Type ℓ where
  pub now : ℕ
  pub open_socket : K → Opened K
  pub window : Option Window
  pub closing : Bool
  pub polled : List Packet
  pub iconified : Bool
  pub recv : ℕ → K → Recv × K

module _ {ℓ} {K : Type ℓ} where
  -- `start`, after the old descriptor has been closed.
  unfoldable pub start : Env K → Viewer K → Viewer K
  start env v = elim (env.open_socket v.link.socket) [
    | refused k ↦ record v { link = record (v.link) { socket = k } }
    | opened k ↦ record v {
      link = record { socket = k; state = connecting };
      has_sent_hello = false;
    }
  ]

-- The start of the packet handling: a header that has come in whole is read.
unfoldable pub read_inbox_header : Inbox → Inbox
read_inbox_header b =
    if is_no_packet b.next_packet_type
      && b.next_packet_size == 0
      && leb packet_header_size b.buffer_size
    then record b {
      next_packet_size = get_u32 b.buffer 0;
      next_packet_type = of_code (get_u32 b.buffer 4);
    }
    else b

-- `wholeSize`.
unfoldable pub inbox_whole : Inbox → ℕ
inbox_whole b = b.next_packet_size + packet_header_size

unfoldable pub take_out : Inbox → Inbox
unfolding inbox_whole
take_out b = record {
  buffer = move_down b.buffer (inbox_whole b) (b.buffer_size - inbox_whole b);
  buffer_size = b.buffer_size - inbox_whole b;
  next_packet_size = 0;
  next_packet_type = no_packet;
}

unfoldable pub empty_inbox : Inbox
empty_inbox = record {
  buffer = replicate inbox_capacity 0;
  buffer_size = 0;
  next_packet_size = 0;
  next_packet_type = no_packet;
}

abbrev pub has_no_socket : LinkState → Bool
has_no_socket no_socket = true
has_no_socket _ = false

module _ {ℓ} {K : Type ℓ} where
  -- The end of a handled packet: it is taken out, or, with more behind it than the buffer can hold,
  -- everything is reset. The flag is the `continue` of that branch.
  unfoldable pub finish_packet : Viewer K → Viewer K × Bool
  finish_packet v =
      if ltb inbox_capacity (v.inbox.buffer_size - inbox_whole v.inbox)
      then (record v { link = record (v.link) { state = no_socket }; inbox = empty_inbox }, true)
      else (record v { inbox = take_out v.inbox }, false)

  -- The end of the stream changes nothing.
  unfoldable pub receive : Recv → Viewer K → Viewer K
  receive (received bs) v = record v {
    inbox = record (v.inbox) {
      buffer = write_at v.inbox.buffer v.inbox.buffer_size bs;
      buffer_size = v.inbox.buffer_size + length bs;
    };
  }
  receive closed_by_peer v = v
  receive would_block v = v
  receive failed v = record v { link = record (v.link) { state = no_socket } }

  unfoldable pub read_socket : Env K → Viewer K → Viewer K
  read_socket env v =
      let (answer, k) = env.recv (inbox_capacity - v.inbox.buffer_size) v.link.socket in
      receive answer (record v { link = record (v.link) { socket = k } })

module _ {ℓ} {K : Type ℓ} (f : Floats) (float_eq : ℕ → ℕ → Bool) (hash : List ℕ → ℕ)
    (write : List ℕ → K → Bool × K) where
  unfoldable pub send : Packet → Viewer K → Option (Viewer K)
  send p v = Option.map (λ l. record v { link = l }) (send_packet write p v.link)

  unfoldable pub send_all : List Packet → Viewer K → Option (Viewer K)
  send_all [] v = some v
  send_all (p ∷ ps) v = elim (send p v) [ none ↦ none | some u ↦ send_all ps u ]

  -- `render`: the window may ask for the end, the events are polled, and an iconified one shows nothing.
  unfoldable pub render : Env K → List DrawList → Viewer K → Option (Viewer K)
  render env ls v = elim (send_all env.polled (record v { dead = v.dead || env.closing })) [
    | none ↦ none
    | some u ↦
        some (record u { effects = if env.iconified then u.effects else u.effects ++ draw ls ∷ [] })
  ]

  -- `handlePackedDrawData`, once the draw data is unpacked.
  unfoldable pub show : Env K → ℕ → List DrawList → Viewer K → Option (Viewer K)
  unfolding render
  show env cursor ls v = elim (render env ls (record v { prev = some ls })) [
    | none ↦ none
    | some u ↦ some (record u { effects = u.effects ++ set_cursor cursor ∷ [] })
  ]

  -- `handlePacket` and `handlePackedDrawData`, on the memory from `data` on.
  unfoldable pub handle_packet : Env K → PacketType → List ℕ → Viewer K → Option (Viewer K)
  handle_packet env font_texture m v =
      some
        (record v { effects = v.effects ++ load_font (get_u32 m 0) (get_u32 m 4) (drop 8 m) ∷ [] })
  handle_packet env draw_data m v = elim (unpack f v.display v.prev m) [
    | none ↦ none
    | some (cursor, ls) ↦ show env cursor ls v
  ]
  handle_packet env set_clipboard_text m v = elim (c_string m) [
    | none ↦ none
    | some text ↦ some (record v { effects = v.effects ++ set_clipboard text ∷ [] })
  ]
  handle_packet env _ m v = some v

  infixl 5 ◌>>=◌
  abbrev pub ◌>>=◌ : Option (Viewer K) → (Viewer K → Option (Viewer K)) → Option (Viewer K)
  none >>= g = none
  some v >>= g = g v

  -- The three things that a round sends: `Hello`, `Alive` after five seconds, and the input after fifteen
  -- milliseconds. `sendPacket` of an `int` 0 sends four bytes.
  unfoldable pub send_hello : Viewer K → Option (Viewer K)
  send_hello v =
      let sent = send (record { type = hello; body = put_u32 0 }) v in
      if v.has_sent_hello then some v else (sent >>= λ u. some (record u { has_sent_hello = true }))

  unfoldable pub send_alive : Env K → Viewer K → Option (Viewer K)
  send_alive env v =
      let sent = send (record { type = alive; body = put_u32 0 }) v in
      if ltb (5 * 10 ^ 9) (env.now - v.last_alive)
      then (sent >>= λ u. some (record u { last_alive = env.now }))
      else some v

  unfoldable pub update : Option Window → Viewer K → Option (Viewer K)
  update none v = some v
  update (some w) v = elim (send_all w.events v) [
    | none ↦ none
    | some u ↦
        elim (update_network_input f.less float_eq hash u.seen w.size w.cursor w.clipboard w.pad) [
          | none ↦ none
          | some (seen, ps) ↦
              send_all ps
                (record u { seen = seen; display = record { x = w.size.x; y = w.size.y } })
        ]
  ]

  unfoldable pub send_input : Env K → Viewer K → Option (Viewer K)
  send_input env v =
      let sent = update env.window v in
      if ltb (15 * 10 ^ 6) (env.now - v.last_input)
      then (sent >>= λ u. some (record u { last_input = env.now }))
      else some v

  unfoldable pub handle_inbox : Env K → Viewer K → Option (Viewer K × Bool)
  handle_inbox env v =
      let b = read_inbox_header v.inbox in
      if leb (inbox_whole b) b.buffer_size
      then Option.map finish_packet (
          handle_packet env b.next_packet_type (drop packet_header_size b.buffer)
            (record v { inbox = b }))
      else some (record v { inbox = b }, false)

  -- The part of the round behind what it sends.
  unfoldable pub take_in : Env K → Viewer K → Option (Viewer K)
  take_in env v = elim (handle_inbox env v) [
    | none ↦ none
    | some (u, skip) ↦ some (if skip then u else read_socket env u)
  ]

  unfoldable pub round : Env K → Viewer K → Option (Viewer K)
  round env v = elim (has_no_socket v.link.state) [
    | true ↦ some (start env (record v { has_sent_hello = false }))
    | false ↦ send_hello v >>= send_alive env >>= send_input env >>= take_in env
  ]

  -- The loop of `run`, behind the `memset` of the buffer, for as many rounds as there are answers.
  unfoldable pub run : List (Env K) → Viewer K → Option (Viewer K)
  run [] v = some v
  run (env ∷ envs) v = let rest = round env v >>= run envs in if v.dead then some v else rest
