-- ===== src/Viewer/Input.antt =====
-- client/Source/pe/NetworkInput.cpp: the packets that the window's callbacks and `updateNetworkInput`
-- send. Floats are bit patterns; comparing them is a parameter, and so are the hash of the clipboard
-- text and the padding bytes that the structs are sent with.
pub mod Meaning
pub mod Update
pub mod Changes
use nxdb.Common.{
  ℕ, ◌+◌, ◌-◌, ◌*◌, ◌%◌, ◌^◌, Bool, true, false, not, ◌&&◌, ◌||◌, List, [], ◌∷◌, ◌++◌, Option, none,
  some, leb, ◌==◌, if◌then◌else◌, length, put_u32,
}
use nxdb.Viewer.Keys.Codes.{GlfwKey, ImGuiKey}
use nxdb.Viewer.Keys.{key_to_imgui}
use nxdb.Wire.{
  Packet, PacketType, update_mouse, update_key, update_char, update_display_size,
  set_clipboard_text,
}

-- `ImVec2`.
pub record Vec2 : Type 0 where
  pub x : ℕ
  pub y : ℕ

-- Three bytes between a `bool` and the next `int` or `float`.
pub record Padding : Type 0 where
  pub first : ℕ
  pub second : ℕ
  pub third : ℕ

abbrev pad_bytes : Padding → List ℕ
pad_bytes p = p.first ∷ p.second ∷ p.third ∷ []

abbrev pub bool_byte : Bool → ℕ
bool_byte true = 1
bool_byte false = 0

-- The bytes of a `MouseEvent`.
unfoldable pub mouse_event : Vec2 → ℕ → Bool → ℕ → ℕ → Padding → List ℕ
mouse_event pos button pressed wheel_x wheel_y pad =
    put_u32 pos.x
    ++ (put_u32 pos.y
        ++ (put_u32 button
            ++ (bool_byte pressed ∷ (pad_bytes pad ++ (put_u32 wheel_x ++ put_u32 wheel_y)))))

-- What is held down while a key event is sent.
pub record Modifiers : Type 0 where
  pub ctrl : Bool
  pub shift : Bool
  pub alt : Bool
  pub super : Bool

-- The bytes of a `KeyEvent`. Its bit fields fill half a byte; `junk` is the other half.
unfoldable pub key_event : Modifiers → ℕ → Bool → ℕ → Padding → Padding → List ℕ
key_event held code pressed junk pad pad' =
    (bool_byte held.ctrl
      + 2 * bool_byte held.shift
      + 4 * bool_byte held.alt
      + 8 * bool_byte held.super
      + 16 * junk)
    ∷ (pad_bytes pad ++ (put_u32 code ++ (bool_byte pressed ∷ pad_bytes pad')))

-- `GLFW_PRESS`, `GLFW_RELEASE` and other actions.
pub data Action : Type 0 where
  press release repeat : Action

abbrev pub is_press : Action → Bool
is_press press = true
is_press _ = false

-- The default `button` of `sendMouseEvent`, -1, as 32 bits.
abbrev pub no_button : ℕ
no_button = 2 ^ 32 - 1

-- The statics that `updateNetworkInput` compares with.
pub record Seen : Type 0 where
  pub size : Vec2
  pub cursor : Vec2
  pub clipboard_hash : ℕ

-- `hashMurmur` of the clipboard text, 0 for none.
abbrev pub clipboard_hash : (List ℕ → ℕ) → Option (List ℕ) → ℕ
clipboard_hash hash none = 0
clipboard_hash hash (some text) = hash text

-- The clipboard's part; `none` is `strlen` of a null pointer.
unfoldable pub send_clipboard : (List ℕ → ℕ) → ℕ → Option (List ℕ) → Option (List Packet)
send_clipboard hash seen none = if 0 == seen then some [] else none
send_clipboard hash seen (some text) =
    if hash text == seen
    then some []
    else if leb (length text + 1) 512
    then some (record { type = set_clipboard_text; body = text ++ 0 ∷ [] } ∷ [])
    else some []

-- `keyCallback` and `sendKeyEvent`; `number` is the value of an `ImGuiKey`.
unfoldable pub key_callback :
    (ImGuiKey → ℕ) → Modifiers → GlfwKey → Action → ℕ → Padding → Padding → List Packet
key_callback number held keycode repeat junk pad pad' = []
key_callback number held keycode action junk pad pad' =
    record {
      type = update_key;
      body = key_event held (number (key_to_imgui keycode)) (is_press action) junk pad pad';
    }
    ∷ []

unfoldable pub char_callback : ℕ → List Packet
char_callback c = record { type = update_char; body = put_u32 c } ∷ []

module _ (float_lt float_eq : ℕ → ℕ → Bool) where
  -- `sendMouseEvent`, of a cursor in a display of this size.
  unfoldable pub send_mouse_event : Vec2 → Vec2 → ℕ → Bool → ℕ → ℕ → Padding → List Packet
  send_mouse_event size pos button pressed wheel_x wheel_y pad =
      if float_lt pos.x 0 || float_lt pos.y 0 || float_lt size.x pos.x || float_lt size.y pos.y
      then []
      else record { type = update_mouse; body = mouse_event pos button pressed wheel_x wheel_y pad }
        ∷ []

  unfoldable pub mouse_button_callback : Vec2 → Vec2 → ℕ → Action → Padding → List Packet
  mouse_button_callback size pos button action pad =
      send_mouse_event size pos button (is_press action) 0 0 pad

  unfoldable pub mouse_scroll_callback : Vec2 → Vec2 → ℕ → ℕ → Padding → List Packet
  mouse_scroll_callback size pos wheel_x wheel_y pad =
      send_mouse_event size pos no_button false wheel_x wheel_y pad

  -- `a.x != b.x || a.y != b.y`.
  abbrev moved : Vec2 → Vec2 → Bool
  moved a b = not (float_eq a.x b.x) || not (float_eq a.y b.y)

  -- The parts of `updateNetworkInput` that send the size of the window and the cursor.
  unfoldable pub send_display_size : Vec2 → Vec2 → List Packet
  send_display_size seen size =
      if moved seen size
      then record { type = update_display_size; body = put_u32 size.x ++ put_u32 size.y } ∷ []
      else []

  unfoldable pub send_cursor : Vec2 → Vec2 → Vec2 → Padding → List Packet
  send_cursor seen size cursor pad =
      if moved seen cursor then send_mouse_event size cursor no_button false 0 0 pad else []

  -- `updateNetworkInput` with a window: the size and the cursor are those of the window now.
  unfoldable pub update_network_input :
      (List ℕ → ℕ) → Seen → Vec2 → Vec2 → Option (List ℕ) → Padding → Option (Seen × List Packet)
  update_network_input hash seen size cursor clipboard pad =
      elim (send_clipboard hash seen.clipboard_hash clipboard) [
        | none ↦ none
        | some copied ↦ some (
          record { size = size; cursor = cursor; clipboard_hash = clipboard_hash hash clipboard },
          send_display_size seen.size size ++ (send_cursor seen.cursor size cursor pad ++ copied),
        )
      ]
