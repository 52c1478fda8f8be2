-- ===== src/Wire.antt =====
-- common.h: the packet types that sysmodule and client share, and the eight-byte header that both
-- `Client::sendPacketImpl` put before the data.
use nxdb.Common.{
  ℕ, ◌^◌, ◌%◌, ◌<◌, ◌≡◌, refl, Bool, true, false, List, [], ◌∷◌, ◌++◌, arith, get_elem?, length,
  length-append, put_u32, length-put_u32,
}
use mathlib.Core.Option

-- `enum PacketType`. A received number that names no constant is kept as it is.
pub data PacketType : Type 0 where
  no_packet hello alive font_texture draw_data update_display_size : PacketType
  update_mouse update_key update_char set_clipboard_text : PacketType
  unnamed : ℕ → PacketType

abbrev named_types : List PacketType
named_types =
    no_packet ∷ hello ∷ alive ∷ font_texture ∷ draw_data ∷ update_display_size ∷ update_mouse
    ∷ update_key ∷ update_char ∷ set_clipboard_text ∷ []

-- The constant that a number stands for, and the number of a constant.
unfoldable pub of_code : ℕ → PacketType
of_code n = Option.get_or (get_elem? named_types n) (unnamed n)

unfoldable pub to_code : PacketType → ℕ
to_code no_packet = 0
to_code hello = 1
to_code alive = 2
to_code font_texture = 3
to_code draw_data = 4
to_code update_display_size = 5
to_code update_mouse = 6
to_code update_key = 7
to_code update_char = 8
to_code set_clipboard_text = 9
to_code (unnamed n) = n

-- `type == NoPacket`.
unfoldable pub is_no_packet : PacketType → Bool
is_no_packet no_packet = true
is_no_packet _ = false

-- A packet as the programs send it: `size` and `type` as two `uint32_t`, and the data.
pub record Packet : Type 0 where
  pub type : PacketType
  pub body : List ℕ

abbrev pub packet_header_size : ℕ
packet_header_size = 8

unfoldable pub header : PacketType → ℕ → List ℕ
header t size = put_u32 (size % 2 ^ 32) ++ put_u32 (to_code t)

unfoldable pub encode : Packet → List ℕ
encode p = header p.type (length p.body) ++ p.body

-- The types that a program sends: the named ones.
abbrev pub IsNamed : PacketType → Type 0
IsNamed (unnamed n) = ⊥
IsNamed t = Unit {0}

pub of_code-to_code : (t : PacketType) → IsNamed t → of_code (to_code t) ≡ t
unfolding of_code to_code
of_code-to_code no_packet h = refl
of_code-to_code hello h = refl
of_code-to_code alive h = refl
of_code-to_code font_texture h = refl
of_code-to_code draw_data h = refl
of_code-to_code update_display_size h = refl
of_code-to_code update_mouse h = refl
of_code-to_code update_key h = refl
of_code-to_code update_char h = refl
of_code-to_code set_clipboard_text h = refl
of_code-to_code (unnamed n) h = absurd h

pub to_code-lt : (t : PacketType) → IsNamed t → to_code t < 10
unfolding to_code
to_code-lt (unnamed n) h = absurd h
to_code-lt t h = omega arith

pub length-header : (t : PacketType) (size : ℕ) → length (header t size) ≡ 8
unfolding header
length-header t size = omega (
  arith,
  length-append (put_u32 (size % 2 ^ 32)) (put_u32 (to_code t)),
  length-put_u32 (size % 2 ^ 32),
  length-put_u32 (to_code t),
)
