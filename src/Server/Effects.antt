-- ===== src/Server/Effects.antt =====
-- What one packet does, stated on its own body, and that the handler does just this with the body in
-- the receive buffer, whatever bytes follow it there.
use nxdb.Common.{
  ℕ, ◌+◌, ◌≤◌, ◌≡◌, refl, sym, ap, ◌∙◌, true, List, [], ◌∷◌, ◌++◌, none, some, arith, length, take,
  drop, get_u32, c_string, take-append-drop, Option-cases, inl, inr,
}
use nxdb.Wire.{
  Packet, PacketType, no_packet, hello, alive, font_texture, draw_data, update_display_size,
  update_mouse, update_key, update_char, set_clipboard_text, unnamed, IsNamed,
}
use nxdb.Server.{
  Connection, State, World, character, handle_packet, mouse_inputs, key_inputs, buffer_capacity,
}
use nxdb.Server.Buffer.{get_u32-append, get_or-append}

-- How far the handlers read into the body, by type. The text must end in it.
abbrev pub HasBody : PacketType → List ℕ → Type 0
HasBody update_display_size b = 8 ≤ length b
HasBody update_mouse b = 24 ≤ length b
HasBody update_key b = 9 ≤ length b
HasBody update_char b = 4 ≤ length b
HasBody set_clipboard_text b = (text : List ℕ) × (c_string b ≡ some text)
HasBody _ b = Unit {0}

-- A packet that the server can take: named, within the receive buffer, its body complete.
pub record IsServable (p : Packet) : Type 0 where
  pub named : IsNamed p.type
  pub fits : length p.body + 8 ≤ buffer_capacity
  pub has_body : HasBody p.type p.body

-- What a packet with this body is to do to the interface.
unfoldable pub effect : PacketType → List ℕ → World → World
effect hello b w = record w { rerender = true }
effect update_display_size b w = record w {
  display_width = get_u32 b 0;
  display_height = get_u32 b 4;
  rerender = true;
}
effect update_mouse b w = record w { inputs = w.inputs ++ mouse_inputs b; rerender = true }
effect update_key b w = record w { inputs = w.inputs ++ key_inputs b }
effect update_char b w = record w { inputs = w.inputs ++ character (get_u32 b 0) ∷ [] }
effect set_clipboard_text b w = elim (c_string b) [
  | none ↦ w
  | some text ↦ record w { clipboard = text }
]
effect _ b w = w

-- An `Alive` sets the time of the last sign of life; no other packet touches the connection.
unfoldable pub touched : PacketType → ℕ → Connection → Connection
touched alive now c = record c { last_alive = now }
touched _ now c = c

abbrev Does : PacketType → List ℕ → List ℕ → ℕ → State → Type 0
Does t b m now s =
    handle_packet t m now s
    ≡ some (record { conn = touched t now s.conn; world = effect t b s.world })

pub c_string-append :
    (b rest text : List ℕ) → c_string b ≡ some text → c_string (b ++ rest) ≡ some text
unfolding c_string
c_string-append [] rest text e = cc
c_string-append (x ∷ b) rest text e = elim (Option-cases (c_string b)) [
  | inl open_end ↦ ground arith
  | inr (t, ends) ↦ ground (arith, c_string-append b rest t ends)
]

mouse_inputs-append : (b rest : List ℕ) → 24 ≤ length b → mouse_inputs (b ++ rest) ≡ mouse_inputs b
unfolding mouse_inputs
mouse_inputs-append b rest h =
    rw
      (
        get_u32-append b rest 0 (omega arith),
        get_u32-append b rest 4 (omega arith),
        get_u32-append b rest 8 (omega arith),
        get_or-append b rest 12 0 (omega arith),
        get_u32-append b rest 16 (omega arith),
        get_u32-append b rest 20 (omega arith),
      )
      refl

key_inputs-append : (b rest : List ℕ) → 9 ≤ length b → key_inputs (b ++ rest) ≡ key_inputs b
unfolding key_inputs
key_inputs-append b rest h =
    rw
      (
        get_or-append b rest 0 0 (omega arith),
        get_u32-append b rest 4 (omega arith),
        get_or-append b rest 8 0 (omega arith),
      )
      refl

handle_servable :
    (t : PacketType) (b rest : List ℕ) (now : ℕ) (s : State)
    → IsNamed t
    → HasBody t b
    → Does t b (b ++ rest) now s
unfolding handle_packet effect touched
handle_servable no_packet b rest now s n h = refl
handle_servable hello b rest now s n h = refl
handle_servable alive b rest now s n h = refl
handle_servable font_texture b rest now s n h = refl
handle_servable draw_data b rest now s n h = refl
handle_servable update_display_size b rest now s n h =
    ground (arith, get_u32-append b rest 0, get_u32-append b rest 4)
handle_servable update_mouse b rest now s n h = ground (arith, mouse_inputs-append b rest h)
handle_servable update_key b rest now s n h = ground (arith, key_inputs-append b rest h)
handle_servable update_char b rest now s n h = ground (arith, get_u32-append b rest 0)
handle_servable set_clipboard_text b rest now s n h = ground (arith, c_string-append b rest h.0 h.1)
handle_servable (unnamed k) b rest now s n h = absurd n

-- With a servable packet at the front of the memory, the handler does its effect, and no more.
pub handle_packet-effect :
    (p : Packet) (m : List ℕ) (now : ℕ) (s : State)
    → IsServable p
    → take (length p.body) m ≡ p.body
    → Does p.type p.body m now s
handle_packet-effect p m now s v e =
    ap (λ b. handle_packet p.type b now s)
      (sym (take-append-drop (length p.body) m) ∙ ap (λ b. b ++ drop (length p.body) m) e)
    ∙ handle_servable p.type p.body (drop (length p.body) m) now s v.named v.has_body
