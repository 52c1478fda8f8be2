-- ===== src/Viewer/Input/Meaning.antt =====
-- What the server reads from the events that the viewer sends.
use nxdb.Common.{
  ℕ, ◌+◌, ◌*◌, ◌/◌, ◌%◌, ◌^◌, ◌<◌, ◌≡◌, refl, Bool, true, false, ◌||◌, List, [], ◌∷◌, ◌++◌, arith,
  ◌==◌, if◌then◌else◌, byte_at, get_u32, put_u32,
}
use nxdb.Server.{
  mouse_pos, mouse_wheel, mouse_button, key, modifier, ctrl, shift, alt, super, mouse_inputs,
  key_inputs, float_nonzero, nonzero,
}
use nxdb.Viewer.Input.{Vec2, Padding, Modifiers, mouse_event, key_event, bool_byte, no_button}

bool_byte-nonzero : (b : Bool) → nonzero (bool_byte b) ≡ b
bool_byte-nonzero true = refl
bool_byte-nonzero false = refl

bool_byte-lt : (b : Bool) → bool_byte b < 2
bool_byte-lt true = omega arith
bool_byte-lt false = omega arith

-- The four bits of a sum of powers of two, whatever stands above them.
four_bits :
    (a b c d j : ℕ)
    → a < 2
    → b < 2
    → c < 2
    → d < 2
    → let n = a + 2 * b + 4 * c + 8 * d + 16 * j in
      (n / 1 % 2 ≡ a) × (n / 2 % 2 ≡ b) × (n / 4 % 2 ≡ c) × (n / 8 % 2 ≡ d)
four_bits a b c d j ha hb hc hd = (omega arith, omega arith, omega arith, omega arith)

module _ (pos : Vec2) (button : ℕ) (pressed : Bool) (wheel_x wheel_y : ℕ) (pad : Padding)
    (x_fits : pos.x < 2 ^ 32) (y_fits : pos.y < 2 ^ 32) (button_fits : button < 2 ^ 32)
    (wheel_x_fits : wheel_x < 2 ^ 32) (wheel_y_fits : wheel_y < 2 ^ 32) where
  abbrev sent : List ℕ
  sent = mouse_event pos button pressed wheel_x wheel_y pad

  mouse_words :
      (get_u32 sent 0 ≡ pos.x)
      × (get_u32 sent 4 ≡ pos.y)
      × (get_u32 sent 8 ≡ button)
      × (get_u32 sent 16 ≡ wheel_x)
      × (get_u32 sent 20 ≡ wheel_y)
      × (byte_at sent 12 ≡ bool_byte pressed)
  unfolding mouse_event put_u32 get_u32
  mouse_words = (omega arith, omega arith, omega arith, omega arith, omega arith, refl)

  -- A mouse event that the viewer sends reaches ImGui with its position, with its wheel where one of
  -- the two is not zero, and with its button unless it is -1.
  pub mouse_inputs-mouse_event :
      mouse_inputs (mouse_event pos button pressed wheel_x wheel_y pad)
      ≡ mouse_pos pos.x pos.y
          ∷ (if float_nonzero wheel_x || float_nonzero wheel_y
              then mouse_wheel wheel_x wheel_y ∷ []
              else [])
        ++ (if button == no_button then [] else mouse_button button pressed ∷ [])
  unfolding mouse_inputs
  mouse_inputs-mouse_event =
      let (a, b, c, d, e, f) = mouse_words in rw (a, b, c, d, e, f, bool_byte-nonzero pressed) refl

key_words :
    (held : Modifiers) (code : ℕ) (pressed : Bool) (junk : ℕ) (pad pad' : Padding)
    → code < 2 ^ 32
    → let m = key_event held code pressed junk pad pad' in
      (get_u32 m 4 ≡ code)
      × (byte_at m 0
          ≡ bool_byte held.ctrl
            + 2 * bool_byte held.shift
            + 4 * bool_byte held.alt
            + 8 * bool_byte held.super
            + 16 * junk)
      × (byte_at m 8 ≡ bool_byte pressed)
unfolding key_event put_u32 get_u32
key_words held code pressed junk pad pad' fits = (omega arith, refl, refl)

-- A key event that the viewer sends reaches ImGui with its key, up or down, and with the modifiers
-- that are held down.
pub key_inputs-key_event :
    (held : Modifiers) (code : ℕ) (pressed : Bool) (junk : ℕ) (pad pad' : Padding)
    → code < 2 ^ 32
    → key_inputs (key_event held code pressed junk pad pad')
      ≡ key code pressed
        ∷ modifier ctrl held.ctrl
        ∷ modifier shift held.shift
        ∷ modifier alt held.alt
        ∷ modifier super held.super
        ∷ []
unfolding key_inputs
key_inputs-key_event held code pressed junk pad pad' fits =
    let (c, s, a, u) =
      four_bits (bool_byte held.ctrl) (bool_byte held.shift) (bool_byte held.alt)
        (bool_byte held.super) junk (bool_byte-lt held.ctrl) (bool_byte-lt held.shift)
        (bool_byte-lt held.alt) (bool_byte-lt held.super) in
    let (word, first, last) = key_words held code pressed junk pad pad' fits in
    rw
      (
        word,
        first,
        last,
        c,
        s,
        a,
        u,
        bool_byte-nonzero pressed,
        bool_byte-nonzero held.ctrl,
        bool_byte-nonzero held.shift,
        bool_byte-nonzero held.alt,
        bool_byte-nonzero held.super,
      )
      refl
