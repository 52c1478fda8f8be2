-- ===== src/Viewer/Input/Update.antt =====
-- What the callbacks and `updateNetworkInput` send, and when they send nothing.
use nxdb.Common.{
  ℕ, ◌+◌, ◌≡◌, ◌≢◌, refl, Bool, true, false, ◌||◌, List, [], ◌∷◌, ◌++◌, Option, none, some, arith,
  All, All-append, leb, leb→le, ◌==◌, if◌then◌else◌, Bool-cases, Option-cases, inl, inr, length,
  length-append, put_u32, c_string, ◌∙◌, subst,
}
use nxdb.Wire.{Packet, update_display_size, set_clipboard_text}
use nxdb.Server.Effects.{IsServable}
use nxdb.Viewer.Keys.Codes.{GlfwKey, ImGuiKey}
use nxdb.Viewer.Input.{
  Vec2, Padding, Modifiers, Action, repeat, Seen, mouse_event, key_event, send_mouse_event,
  send_clipboard, send_display_size, send_cursor, clipboard_hash, key_callback, char_callback,
  update_network_input, no_button, moved,
}

-- A text without zeros is the C string that it is sent as.
c_string-text : (text : List ℕ) → All (λ b. b ≢ 0) text → c_string (text ++ 0 ∷ []) ≡ some text
unfolding c_string
c_string-text [] h = refl
c_string-text (b ∷ text) h = ground (arith, c_string-text text h.1)

char_callback-IsServable : (c : ℕ) → All IsServable (char_callback c)
unfolding char_callback put_u32
char_callback-IsServable c = (record { named = tt; fits = omega arith; has_body = omega arith }, tt)

key_callback-IsServable :
    (number : ImGuiKey → ℕ) (held : Modifiers) (keycode : GlfwKey) (action : Action) (junk : ℕ)
    (pad pad' : Padding)
    → All IsServable (key_callback number held keycode action junk pad pad')
unfolding key_callback key_event put_u32
key_callback-IsServable number held keycode repeat junk pad pad' = tt
key_callback-IsServable number held keycode _ junk pad pad' =
    (record { named = tt; fits = omega arith; has_body = omega arith }, tt)

send_clipboard-IsServable :
    (hash : List ℕ → ℕ) (seen : ℕ) (text : List ℕ) (ps : List Packet)
    → All (λ b. b ≢ 0) text
    → send_clipboard hash seen (some text) ≡ some ps
    → All IsServable ps
unfolding send_clipboard
send_clipboard-IsServable hash seen text ps plain e =
    let packet : Packet = record { type = set_clipboard_text; body = text ++ 0 ∷ [] } in
    elim (Bool-cases (hash text == seen)) [
      | inl same ↦ let none_sent : [] ≡ ps = ground arith in subst (All IsServable) none_sent tt
      | inr new ↦ elim (Bool-cases (leb (length text + 1) 512)) [
        | inr long ↦ let none_sent : [] ≡ ps = ground arith in subst (All IsServable) none_sent tt
        | inl short ↦
            let one_sent : packet ∷ [] ≡ ps = ground arith in
            subst (All IsServable) one_sent (
              record {
                named = tt;
                fits =
                    omega (arith, length-append text (0 ∷ []), leb→le (length text + 1) 512 short);
                has_body = (text, c_string-text text plain);
              },
              tt,
            )
      ]
    ]

-- A packet that is sent on a condition.
sent_if : (b : Bool) (ps : List Packet) → All IsServable ps → All IsServable (if b then ps else [])
sent_if true ps h = h
sent_if false ps h = tt

unless : (b : Bool) (ps : List Packet) → All IsServable ps → All IsServable (if b then [] else ps)
unless true ps h = tt
unless false ps h = h

module _ (float_lt float_eq : ℕ → ℕ → Bool) where
  pub send_mouse_event-IsServable :
      (size pos : Vec2) (button : ℕ) (pressed : Bool) (wheel_x wheel_y : ℕ) (pad : Padding)
      → All IsServable
          (send_mouse_event float_lt float_eq size pos button pressed wheel_x wheel_y pad)
  unfolding send_mouse_event mouse_event put_u32
  send_mouse_event-IsServable size pos button pressed wheel_x wheel_y pad =
      unless
        (float_lt pos.x 0 || float_lt pos.y 0 || float_lt size.x pos.x || float_lt size.y pos.y) _
        (record { named = tt; fits = omega arith; has_body = omega arith }, tt)

  send_display_size-IsServable :
      (seen size : Vec2) → All IsServable (send_display_size float_lt float_eq seen size)
  unfolding send_display_size put_u32
  send_display_size-IsServable seen size =
      let packet : Packet = record {
        type = update_display_size;
        body = put_u32 size.x ++ put_u32 size.y;
      } in
      sent_if (moved float_lt float_eq seen size) (packet ∷ [])
        (record { named = tt; fits = omega arith; has_body = omega arith }, tt)

  send_cursor-IsServable :
      (seen size cursor : Vec2) (pad : Padding)
      → All IsServable (send_cursor float_lt float_eq seen size cursor pad)
  unfolding send_cursor
  send_cursor-IsServable seen size cursor pad =
      sent_if (moved float_lt float_eq seen cursor) _
        (send_mouse_event-IsServable size cursor no_button false 0 0 pad)

  abbrev after : (List ℕ → ℕ) → Vec2 → Vec2 → Option (List ℕ) → Seen
  after hash size cursor clipboard = record {
    size = size;
    cursor = cursor;
    clipboard_hash = clipboard_hash hash clipboard;
  }

  -- What an update that does not fail has done.
  update_parts :
      (hash : List ℕ → ℕ) (seen next : Seen) (size cursor : Vec2) (clipboard : Option (List ℕ))
      (pad : Padding) (ps : List Packet)
      → update_network_input float_lt float_eq hash seen size cursor clipboard pad ≡ some (next, ps)
      → (after hash size cursor clipboard ≡ next)
        × ((copied : List Packet) × (send_clipboard hash seen.clipboard_hash clipboard
              ≡ some copied)
            × (send_display_size float_lt float_eq seen.size size
                  ++ (send_cursor float_lt float_eq seen.cursor size cursor pad ++ copied)
                ≡ ps))
  unfolding update_network_input
  update_parts hash seen next size cursor clipboard pad ps e =
      elim (Option-cases (send_clipboard hash seen.clipboard_hash clipboard)) [
        | inl lost ↦ absurd (ground arith)
        | inr (copied, sends) ↦ (ground arith, (copied, sends, ground arith))
      ]

  -- Every packet that `updateNetworkInput` sends with a clipboard text, which is a text without zeros,
  -- can be taken by the server.
  pub update-IsServable :
      (hash : List ℕ → ℕ) (seen next : Seen) (size cursor : Vec2) (text : List ℕ) (pad : Padding)
      (ps : List Packet)
      → All (λ b. b ≢ 0) text
      → update_network_input float_lt float_eq hash seen size cursor (some text) pad
        ≡ some (next, ps)
      → All IsServable ps
  update-IsServable hash seen next size cursor text pad ps plain e =
      let (_, (copied, sends, same)) =
        update_parts hash seen next size cursor (some text) pad ps e in
      subst (All IsServable) same (
        All-append IsServable (send_display_size float_lt float_eq seen.size size) _
          (send_display_size-IsServable seen.size size)
          (All-append IsServable (send_cursor float_lt float_eq seen.cursor size cursor pad) copied
            (send_cursor-IsServable seen.cursor size cursor pad)
            (send_clipboard-IsServable hash seen.clipboard_hash text copied plain sends)))

  -- Neither coordinate is a NaN.
  abbrev pub IsOrdered : Vec2 → Type 0
  IsOrdered v = (float_eq v.x v.x ≡ true) × (float_eq v.y v.y ≡ true)

  send_display_size-same :
      (size : Vec2) → IsOrdered size → send_display_size float_lt float_eq size size ≡ []
  unfolding send_display_size
  send_display_size-same size (x, y) = ground arith

  send_cursor-same :
      (size cursor : Vec2) (pad : Padding)
      → IsOrdered cursor
      → send_cursor float_lt float_eq cursor size cursor pad ≡ []
  unfolding send_cursor
  send_cursor-same size cursor pad (x, y) = ground arith

  send_clipboard-same :
      (hash : List ℕ → ℕ) (clipboard : Option (List ℕ))
      → send_clipboard hash (clipboard_hash hash clipboard) clipboard ≡ some []
  unfolding send_clipboard
  send_clipboard-same hash none = refl
  send_clipboard-same hash (some text) = ground arith

  update_sends :
      (hash : List ℕ → ℕ) (seen : Seen) (size cursor : Vec2) (clipboard : Option (List ℕ))
      (pad : Padding) (copied : List Packet)
      → send_clipboard hash seen.clipboard_hash clipboard ≡ some copied
      → update_network_input float_lt float_eq hash seen size cursor clipboard pad
        ≡ some (
          after hash size cursor clipboard,
          send_display_size float_lt float_eq seen.size size
              ++ (send_cursor float_lt float_eq seen.cursor size cursor pad ++ copied),
        )
  unfolding update_network_input
  update_sends hash seen size cursor clipboard pad copied e = rw (update_network_input, e) refl

  send_clipboard-lost :
      (hash : List ℕ → ℕ) (text : List ℕ)
      → hash text ≢ 0
      → send_clipboard hash (hash text) none ≡ none
  unfolding send_clipboard
  send_clipboard-lost hash text h = ground arith

  -- A second update that finds the window and the clipboard as the first left them sends nothing.
  update_twice :
      (hash : List ℕ → ℕ) (seen next : Seen) (size cursor : Vec2) (clipboard : Option (List ℕ))
      (pad pad' : Padding) (ps : List Packet)
      → IsOrdered size
      → IsOrdered cursor
      → update_network_input float_lt float_eq hash seen size cursor clipboard pad ≡ some (next, ps)
      → update_network_input float_lt float_eq hash next size cursor clipboard pad'
        ≡ some (next, [])
  unfolding update_network_input
  update_twice hash seen next size cursor clipboard pad pad' ps size_ordered cursor_ordered e =
      let (same, _) = update_parts hash seen next size cursor clipboard pad ps e in
      subst
        (λ n.
          update_network_input float_lt float_eq hash n size cursor clipboard pad' ≡ some (n, []))
        same
        (update_sends hash (after hash size cursor clipboard) size cursor clipboard pad' []
            (send_clipboard-same hash clipboard)
          ∙ rw
              (
                send_display_size-same size size_ordered,
                send_cursor-same size cursor pad' cursor_ordered,
              )
              refl)

  -- Once a text with another hash than 0 was seen, an update without any clipboard text takes the
  -- length of a null pointer.
  update_lost_clipboard :
      (hash : List ℕ → ℕ) (seen next : Seen) (size cursor size' cursor' : Vec2) (text : List ℕ)
      (pad pad' : Padding) (ps : List Packet)
      → hash text ≢ 0
      → update_network_input float_lt float_eq hash seen size cursor (some text) pad
        ≡ some (next, ps)
      → update_network_input float_lt float_eq hash next size' cursor' none pad' ≡ none
  unfolding update_network_input
  update_lost_clipboard hash seen next size cursor size' cursor' text pad pad' ps h e =
      let (same, _) = update_parts hash seen next size cursor (some text) pad ps e in
      subst (λ n. update_network_input float_lt float_eq hash n size' cursor' none pad' ≡ none) same
        (rw (update_network_input, send_clipboard-lost hash text h) refl)
