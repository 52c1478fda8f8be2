-- ===== src/Viewer/Examples.antt =====
-- Tests of the packets that the viewer sends, and their theorems at a small session.
use nxdb.Common.{
  ℕ, ◌-◌, ◌^◌, put_u32, ◌≡◌, refl, true, false, List, [], ◌∷◌, some, arith, All, ap, byte_at, inr,
  ltb, ◌==◌, length,
}
use nxdb.Wire.{
  Packet, update_mouse, update_key, update_char, update_display_size, set_clipboard_text,
}
use nxdb.Server.{
  mouse_pos, mouse_wheel, mouse_button, key, modifier, ctrl, shift, alt, super, mouse_inputs,
  key_inputs,
}
use nxdb.Server.Effects.{IsServable}
use nxdb.Viewer.Keys.Codes.{GlfwKey, ImGuiKey}
use nxdb.Viewer.Keys.{key_to_imgui}
use nxdb.Viewer.Input.{
  Vec2, Padding, Modifiers, Seen, press, repeat, key_callback, char_callback, mouse_event,
  key_event, mouse_button_callback, update_network_input, send_mouse_event, send_clipboard,
  send_display_size, send_cursor,
}
use nxdb.Viewer.Input.Changes.{viewer_hash, change_sent, change_missed}
use nxdb.Viewer.Input.Meaning.{mouse_inputs-mouse_event, key_inputs-key_event}
use nxdb.Viewer.Input.Update.{update-IsServable}

-- Whole numbers of pixels, whose order as bit patterns is that of the floats.
abbrev origin : Vec2
origin = record { x = 0; y = 0 }

abbrev window : Vec2
window = record { x = 0x4420_0000; y = 0x43f0_0000 }

abbrev cursor : Vec2
cursor = record { x = 0x4120_0000; y = 0x41a0_0000 }

abbrev outside : Vec2
outside = record { x = 0x4480_0000; y = 0 }

abbrev pad : Padding
pad = record { first = 7; second = 8; third = 9 }

abbrev shifted : Modifiers
shifted = record { ctrl = false; shift = true; alt = false; super = true }

abbrev number : ImGuiKey → ℕ
number ImGuiKey.key_a = 546
number _ = 0

abbrev text : List ℕ
text = 0x68 ∷ 0x69 ∷ []

abbrev at_start : Seen
at_start = record { size = origin; cursor = origin; clipboard_hash = 0 }

abbrev afterwards : Seen
afterwards = record { size = window; cursor = cursor; clipboard_hash = 2 }

abbrev first_packets : List Packet
first_packets =
    record { type = update_display_size; body = 0 ∷ 0 ∷ 0x20 ∷ 0x44 ∷ 0 ∷ 0 ∷ 0xf0 ∷ 0x43 ∷ [] }
    ∷ record { type = update_mouse; body = mouse_event cursor (2 ^ 32 - 1) false 0 0 pad }
    ∷ record { type = set_clipboard_text; body = 0x68 ∷ 0x69 ∷ 0 ∷ [] }
    ∷ []

first_update :
    update_network_input ltb ◌==◌ length at_start window cursor (some text) pad
    ≡ some (afterwards, first_packets)
unfolding update_network_input send_display_size send_cursor send_mouse_event send_clipboard put_u32
first_update = refl

held_key : key_callback number shifted GlfwKey.key_a repeat 0 pad pad ≡ []
unfolding key_callback
held_key = refl

pressed_key :
    key_callback number shifted GlfwKey.key_a press 0 pad pad
    ≡ record { type = update_key; body = 10 ∷ 7 ∷ 8 ∷ 9 ∷ 0x22 ∷ 2 ∷ 0 ∷ 0 ∷ 1 ∷ 7 ∷ 8 ∷ 9 ∷ [] }
      ∷ []
unfolding key_callback key_to_imgui key_event put_u32
pressed_key = refl

typed : char_callback 0x61 ≡ record { type = update_char; body = 0x61 ∷ 0 ∷ 0 ∷ 0 ∷ [] } ∷ []
unfolding char_callback put_u32
typed = refl

clicked_outside : mouse_button_callback ltb ◌==◌ window outside 0 press pad ≡ []
unfolding mouse_button_callback send_mouse_event
clicked_outside = refl

mouse_inputs-mouse_event_example :
    mouse_inputs (mouse_event cursor 1 true 0 0x3f80_0000 pad)
    ≡ mouse_pos 0x4120_0000 0x41a0_0000 ∷ mouse_wheel 0 0x3f80_0000 ∷ mouse_button 1 true ∷ []
mouse_inputs-mouse_event_example =
    mouse_inputs-mouse_event cursor 1 true 0 0x3f80_0000 pad (omega arith) (omega arith)
      (omega arith) (omega arith) (omega arith)

key_inputs-key_event_example :
    key_inputs (key_event shifted 546 true 5 pad pad)
    ≡ key 546 true
      ∷ modifier ctrl false
      ∷ modifier shift true
      ∷ modifier alt false
      ∷ modifier super true
      ∷ []
key_inputs-key_event_example = key_inputs-key_event shifted 546 true 5 pad pad (omega arith)

update-IsServable_example : All IsServable first_packets
update-IsServable_example =
    update-IsServable ltb ◌==◌ length at_start afterwards window cursor text pad first_packets
      ((λ e. omega arith), ((λ e. omega arith), tt)) first_update

-- "hi" becomes "ho".
change_sent_example :
    send_clipboard viewer_hash (viewer_hash (0x68 ∷ 0x69 ∷ [])) (some (0x68 ∷ 0x6f ∷ []))
    ≡ some (record { type = set_clipboard_text; body = 0x68 ∷ 0x6f ∷ 0 ∷ [] } ∷ [])
change_sent_example =
    change_sent [] (0x68 ∷ 0x69 ∷ []) (0x68 ∷ 0x6f ∷ []) [] refl refl (inr (omega arith, refl))
      (omega arith) tt (omega arith) (omega arith) tt
      (λ e. absurd (omega (arith, ap (λ bs. byte_at bs 1) e)))

-- "éab" becomes "èxy", in UTF-8.
change_missed_example :
    send_clipboard viewer_hash
      (viewer_hash (0xc3 ∷ 0xa9 ∷ 0x61 ∷ 0x62 ∷ []))
      (some (0xc3 ∷ 0xa8 ∷ 0x78 ∷ 0x79 ∷ []))
    ≡ some []
change_missed_example =
    change_missed [] [] 0xc3 0xa9 0x61 0x62 0xa8 0x78 0x79 refl (omega arith) (omega arith)
      (omega arith)
