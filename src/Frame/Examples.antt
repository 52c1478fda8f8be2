-- ===== src/Frame/Examples.antt =====
-- Tests of the frame's end, and its theorem at two lists that change places.
use nxdb.Common.{
  none, ◌-◌, arith, ℕ, ◌+◌, ◌*◌, ◌/◌, ◌%◌, ◌^◌, ◌≡◌, refl, true, false, List, [], ◌∷◌, ◌++◌, some,
  length, ltb, put_u32,
}
use mathlib.Core.List.Perm
use nxdb.Wire.{draw_data, no_packet}
use nxdb.Server.{Connection}
use nxdb.Draw.{Floats, Point, Command, Vertex, DrawList, DrawData}
use nxdb.Draw.Pack.{Hashes, hash_draw_list, pack, pack_lists, put_header, put_list, clamp_list}
use nxdb.Draw.Layout.{put_u16}
use nxdb.Draw.Memory.{murmur_hashes}
use nxdb.Draw.Fields.{Field}
use nxdb.Frame.{
  Loop, Texture, font_packet, serve_client, add_hashes, calc_draw_data_hash, render, render_round,
  rendered, sleep_time,
}
use nxdb.Windows.{Ui, Input}
use nxdb.MemoryMap.{word}
use nxdb.Frame.Settling.{reordered_unseen}
use nxdb.Frame.Noticed.{with_field, with_list, field_noticed}
use nxdb.Frame.Pace.{sleep_time_lem}

abbrev whole : Floats
whole = record {
  of_int = λ n. n;
  to_u16 = λ n. n % 2 ^ 16;
  mul = λ a b. a * b;
  div = λ a b. a / b;
  less = ltb;
}

abbrev counts : Hashes
counts = record { vertices = length; indices = length; commands = length }

abbrev unit : Point
unit = record { x = 1; y = 1 }

abbrev back : DrawList
back = record { commands = []; vertices = []; indices = 0 ∷ [] }

abbrev front : DrawList
front = record { commands = []; vertices = []; indices = 0 ∷ 0 ∷ [] }

abbrev before : DrawData
before = record { cursor = 0; lists = back ∷ front ∷ []; total_vtx_count = 0; total_idx_count = 3 }

abbrev after : DrawData
after = record before { lists = front ∷ back ∷ [] }

abbrev texture : Texture
texture = record { width = 1; height = 1; pixels = 9 ∷ 8 ∷ 7 ∷ 6 ∷ [] }

abbrev new_viewer : Connection
new_viewer = record {
  fd = 3;
  buffer = [];
  buffer_size = 0;
  next_packet_size = 0;
  next_packet_type = no_packet;
  last_alive = 0;
  has_sent_font_texture = false;
}

abbrev started : Loop
started = record {
  rerender = true;
  last_draw_data_hash = 0;
  packer = record { hashes = 0 ∷ 0 ∷ []; num_prev = 0 };
  clients = new_viewer ∷ [];
}

abbrev drawn : Loop
drawn = record {
  rerender = false;
  last_draw_data_hash = 3;
  packer = record { hashes = 1 ∷ 2 ∷ []; num_prev = 2 };
  clients = record new_viewer { has_sent_font_texture = true } ∷ [];
}

bytes : List ℕ
unfolding put_header put_list
bytes = put_header before ++ (put_list whole unit back ++ (put_list whole unit front ++ []))

render_started :
    render whole counts unit texture before started
    ≡ some ((record { type = draw_data; body = bytes } ∷ font_packet texture ∷ []) ∷ [], drawn)
unfolding render calc_draw_data_hash add_hashes hash_draw_list pack pack_lists bytes put_header
    put_list serve_client put_u32 put_u16
render_started = refl

-- The second client has its font already.
serve_served : serve_client texture [] (record new_viewer { has_sent_font_texture = true }) ≡ (
  record { type = draw_data; body = [] } ∷ [],
  record new_viewer { has_sent_font_texture = true },
)
unfolding serve_client
serve_served = refl

reordered_unseen_example : render whole counts unit texture after drawn ≡ some ([] ∷ [], drawn)
reordered_unseen_example =
    reordered_unseen whole counts unit texture before after started drawn
      ((record { type = draw_data; body = bytes } ∷ font_packet texture ∷ []) ∷ []) render_started
      (Perm.swap front back [])

-- A round of 100000 ticks in a frame of 320000, over the end of the ticks.
sleep_time_lem_example :
    sleep_time (λ t. t * 625 % 2 ^ 64 / 12) 320_000 (2 ^ 64 - 1) (word (2 ^ 64 - 1 + 100_000))
    ≡ some 11_458_333
sleep_time_lem_example =
    sleep_time_lem (λ t. t * 625 % 2 ^ 64 / 12) 320_000 (2 ^ 64 - 1) 100_000 (λ t. refl)
      (omega arith) (omega arith) (omega arith)

late_round : sleep_time (λ t. t * 625 % 2 ^ 64 / 12) 320_000 0 400_000 ≡ none
unfolding sleep_time
late_round = refl

no_clients :
    (draw : Ui → DrawData) (input : Input) (ui : Ui)
    → render_round whole counts unit texture draw input ui (record drawn { clients = [] })
      ≡ rendered [] ui (record drawn { clients = [] })
unfolding render_round
no_clients draw input ui = refl

-- The memory of a command, as one word.
abbrev memory : Command → List ℕ
memory c = put_u32 c.vtx_offset

abbrev corner : Vertex
corner = record { pos = record { x = 1; y = 1 }; uv = record { x = 0; y = 0 }; col = 7 }

abbrev red : DrawList
red = with_field back [] [] Field.colour corner 8

abbrev green : DrawList
green = with_field back [] [] Field.colour corner 9

abbrev shown_red : Loop
shown_red = record drawn {
  last_draw_data_hash =
      calc_draw_data_hash (murmur_hashes memory) (with_list before [] (front ∷ []) red);
}

abbrev places : List ℕ
places = hash_draw_list (murmur_hashes memory) red ∷ []

field_noticed_example :
    (render whole
        (murmur_hashes memory)
        unit
        texture
        (with_list before [] (front ∷ []) green)
        shown_red
      ≡ render whole
          (murmur_hashes memory)
          unit
          texture
          (with_list before [] (front ∷ []) green)
          (record shown_red { rerender = true }))
    × (pack_lists whole (murmur_hashes memory) unit 0 (green ∷ []) places
        ≡ elim (pack_lists whole
            (murmur_hashes memory)
            unit
            1
            []
            (hash_draw_list (murmur_hashes memory) green ∷ [])) [
              | none ↦ none
              | some (bytes, places', rest) ↦
                  some (
                    put_list whole unit green ++ bytes,
                    places',
                    clamp_list whole unit green ∷ rest,
                  )
            ])
field_noticed_example =
    field_noticed memory whole unit texture before [] (front ∷ []) [] back [] [] Field.colour corner
      8 9 0 shown_red places (omega arith) (omega arith) (omega arith) (omega arith) refl refl
