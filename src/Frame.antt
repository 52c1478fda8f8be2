-- ===== src/Frame.antt =====
-- sysmodule/source/nxdb/ImGuiLoop.cpp: what `render` does with the draw data of a frame, and
-- `sendFontTexture` of sysmodule/source/net/Server.cpp; the frame around it, and the wait for the next
-- one. What ImGui draws for the windows, its font texture and the clock are parameters.
pub mod Settling
pub mod Pace
pub mod Rate
pub mod Noticed
pub mod Clipboard
mod Examples
use nxdb.Common.{
  ℕ, ◌+◌, ◌*◌, ◌%◌, ◌^◌, Bool, true, false, not, ◌||◌, List, [], ◌∷◌, ◌++◌, Option, none, some, map,
  leb, ltb, ◌-◌, if◌then◌else◌, ◌==◌, length, take, put_u32,
}
use nxdb.Wire.{Packet, draw_data, font_texture}
use nxdb.Server.{Connection}
use nxdb.Draw.{Floats, Point, DrawList, DrawData}
use nxdb.MemoryMap.{word}
use nxdb.Windows.{Ui, Input, shown, aborted, undefined, show_imgui}
use nxdb.Draw.Pack.{Hashes, Packer, hash_draw_list, pack}

-- The statics of ImGuiLoop.cpp and DrawDataPack.cpp, and the clients of `sServer`.
pub record Loop : Type 0 where
  pub rerender : Bool
  pub last_draw_data_hash : ℕ
  pub packer : Packer
  pub clients : List Connection

-- What `GetTexDataAsRGBA32` answers, the pixels as bytes.
pub record Texture : Type 0 where
  pub width : ℕ
  pub height : ℕ
  pub pixels : List ℕ

-- `sizeof(sDrawDataBuffer)`.
abbrev pub draw_data_capacity : ℕ
draw_data_capacity = 512 * 1024

-- The packet of `sendFontTexture`.
unfoldable pub font_packet : Texture → Packet
font_packet t = record {
  type = font_texture;
  body = put_u32 t.width ++ (put_u32 t.height ++ take (t.width * t.height * 4 % 2 ^ 64) t.pixels);
}

-- What a client is sent of a frame, and the client afterwards.
unfoldable pub serve_client : Texture → List ℕ → Connection → List Packet × Connection
serve_client t bytes c =
    let frame : Packet = record { type = draw_data; body = bytes } in
    elim c.has_sent_font_texture [
      | true ↦ (frame ∷ [], c)
      | false ↦ (frame ∷ font_packet t ∷ [], record c { has_sent_font_texture = true })
    ]

-- A round of `runImguiLoop`: what each client is sent, and the windows and the state afterwards.
pub data Rendered : Type 0 where
  rendered : List (List Packet) → Ui → Loop → Rendered
  aborts broken : Rendered

module _ (h : Hashes) where
  -- The loop of `calcDrawDataHash`, from a hash on.
  unfoldable pub add_hashes : ℕ → List DrawList → ℕ
  add_hashes hash [] = hash
  add_hashes hash (l ∷ ls) = add_hashes ((hash + hash_draw_list h l) % 2 ^ 32) ls

  unfoldable pub calc_draw_data_hash : DrawData → ℕ
  calc_draw_data_hash d = add_hashes 0 d.lists

module _ (f : Floats) (h : Hashes) (size : Point) (t : Texture) where
  -- The end of `render`: what each client is sent, and the state afterwards. `none` is a write behind
  -- the buffer or the array of hashes.
  unfoldable pub render : DrawData → Loop → Option (List (List Packet) × Loop)
  render d l =
      let hash = calc_draw_data_hash h d in
      elim (l.rerender || not (l.last_draw_data_hash == hash)) [
        | false ↦ some (map (λ c. []) l.clients, record l { last_draw_data_hash = hash })
        | true ↦ elim (pack f h size d l.packer) [
          | none ↦ none
          | some (bytes, packer, _) ↦ elim (leb (length bytes) draw_data_capacity) [
            | false ↦ none
            | true ↦ some (
              map (λ c. (serve_client t bytes c).0) l.clients,
              record {
                rerender = false;
                last_draw_data_hash = hash;
                packer = packer;
                clients = map (λ c. (serve_client t bytes c).1) l.clients;
              },
            )
          ]
        ]
      ]

  -- `render`: the frame of the windows, and what is done with its draw data. `draw` is ImGui.
  unfoldable pub render_windows : (Ui → DrawData) → Input → Ui → Loop → Rendered
  render_windows draw input ui l = elim (show_imgui input ui) [
    | aborted ↦ aborts
    | undefined ↦ broken
    | shown ui' ↦ elim (render (draw ui') l) [
      | none ↦ broken
      | some (sent, l') ↦ rendered sent ui' l'
    ]
  ]

  -- The loop of `runImguiLoop` renders if there is a client.
  unfoldable pub render_round : (Ui → DrawData) → Input → Ui → Loop → Rendered
  render_round draw input ui l =
      if length l.clients == 0 then rendered [] ui l else render_windows draw input ui l

-- The rest of the round: by how many nanoseconds the thread sleeps, if it does. The arguments are
-- `armTicksToNs`, `sFrameTimeTicks`, `lastFrame` and the tick of now.
unfoldable pub sleep_time : (ℕ → ℕ) → ℕ → ℕ → ℕ → Option ℕ
sleep_time ticks_to_ns frame_time last now =
    let diff = word (now + 2 ^ 64 - last) in
    let ns = ticks_to_ns (word (frame_time + 2 ^ 64 - diff)) in
    if ltb ns 1_000_000_000 then some ns else none
