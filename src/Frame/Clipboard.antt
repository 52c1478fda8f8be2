-- ===== src/Frame/Clipboard.antt =====
-- sysmodule/source/nxdb/ImGuiLoop.cpp: the clipboard that ImGui is given. A copied text goes to the viewers;
-- what is pasted is the text that a viewer sent last.
pub mod Echo
mod Examples
use nxdb.Common.{ℕ, ◌+◌, List, [], ◌∷◌, Option, none, some, length, take, c_string}
use nxdb.Wire.{Packet, set_clipboard_text}
use nxdb.Server.{Connection, World}

-- The packet of `Platform_SetClipboardTextFn` for the text at the start of this memory; `none` is a
-- text without an end.
unfoldable pub clipboard_packet : List ℕ → Option Packet
clipboard_packet m = elim (c_string m) [
  | none ↦ none
  | some text ↦ some (record { type = set_clipboard_text; body = take (length text + 1) m })
]

-- `Platform_SetClipboardTextFn`: what each client is sent.
unfoldable pub platform_set_clipboard_text : List ℕ → List Connection → Option (List (List Packet))
platform_set_clipboard_text m [] = some []
platform_set_clipboard_text m (c ∷ cs) = elim (clipboard_packet m) [
  | none ↦ none
  | some p ↦ elim (platform_set_clipboard_text m cs) [
    | none ↦ none
    | some ps ↦ some ((p ∷ []) ∷ ps)
  ]
]

-- `Platform_GetClipboardTextFn`: `sCurClipboardString`.
unfoldable pub platform_get_clipboard_text : World → List ℕ
platform_get_clipboard_text w = w.clipboard
