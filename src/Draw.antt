-- ===== src/Draw.antt =====
-- common.h, sysmodule/source/nxdb/DrawDataPack.cpp and client/Source/pe/DrawData.cpp: ImGui's draw data,
-- the packed form in which it is sent, and the draw data that the viewer makes of it. Floats are bit
-- patterns, and the operations on them are a parameter.
pub mod Layout
pub mod Pack
pub mod Unpack
pub mod Codec
pub mod Reading
pub mod Size
pub mod Steps
pub mod Sync
pub mod Frames
pub mod Joining
pub mod Memory
pub mod Fields
mod Examples
use nxdb.Common.{ℕ, ◌%◌, ◌^◌, Bool, List, if◌then◌else◌}

pub record Floats : Type 0 where
  pub of_int : ℕ → ℕ
  pub to_u16 : ℕ → ℕ
  pub mul : ℕ → ℕ → ℕ
  pub div : ℕ → ℕ → ℕ
  pub less : ℕ → ℕ → Bool

-- `ImVec2`.
pub record Point : Type 0 where
  pub x : ℕ
  pub y : ℕ

-- `ImDrawCmd`, by the fields that are sent; the viewer's callbacks are all null.
pub record Command : Type 0 where
  pub clip_min : Point
  pub clip_max : Point
  pub vtx_offset : ℕ
  pub idx_offset : ℕ
  pub elem_count : ℕ

-- `ImDrawVert`.
pub record Vertex : Type 0 where
  pub pos : Point
  pub uv : Point
  pub col : ℕ

-- `ImDrawList`; the flags of the viewer's lists are never set.
pub record DrawList : Type 0 where
  pub commands : List Command
  pub vertices : List Vertex
  pub indices : List ℕ

-- `ImDrawData` and the mouse cursor that is sent with it.
pub record DrawData : Type 0 where
  pub cursor : ℕ
  pub lists : List DrawList
  pub total_vtx_count : ℕ
  pub total_idx_count : ℕ

-- `PackedImDrawCmd` and `PackedImDrawVert`: the first four fields have 12 bits.
pub record PackedCommand : Type 0 where
  pub x1 : ℕ
  pub y1 : ℕ
  pub x2 : ℕ
  pub y2 : ℕ
  pub vtx_offset : ℕ
  pub idx_offset : ℕ
  pub elem_count : ℕ

pub record PackedVertex : Type 0 where
  pub pos_x : ℕ
  pub pos_y : ℕ
  pub uv_x : ℕ
  pub uv_y : ℕ
  pub col : ℕ

-- `sBoundClip`, `sBoundPos` and `sBoundUv`.
abbrev pub bound : ℕ
bound = 4095

module _ (f : Floats) where
  -- The conversion to `unsigned short`, into 12 bits.
  unfoldable pub to_field : ℕ → ℕ
  to_field v = f.to_u16 v % 2 ^ 12

  unfoldable pub quantize : ℕ → ℕ → ℕ
  unfolding to_field
  quantize v width = to_field (f.mul (f.div v width) (f.of_int bound))

  unfoldable pub dequantize : ℕ → ℕ → ℕ
  dequantize n width = f.mul (f.div (f.of_int n) (f.of_int bound)) width

  unfoldable pub pack_command : Point → Command → PackedCommand
  pack_command size c = record {
    x1 = quantize c.clip_min.x size.x;
    y1 = quantize c.clip_min.y size.y;
    x2 = quantize c.clip_max.x size.x;
    y2 = quantize c.clip_max.y size.y;
    vtx_offset = c.vtx_offset % 2 ^ 16;
    idx_offset = c.idx_offset % 2 ^ 16;
    elem_count = c.elem_count % 2 ^ 16;
  }

  unfoldable pub unpack_command : Point → PackedCommand → Command
  unpack_command size c = record {
    clip_min = record { x = dequantize c.x1 size.x; y = dequantize c.y1 size.y };
    clip_max = record { x = dequantize c.x2 size.x; y = dequantize c.y2 size.y };
    vtx_offset = c.vtx_offset;
    idx_offset = c.idx_offset;
    elem_count = c.elem_count;
  }

  -- `std::clamp(v, 0.0f, hi)`.
  unfoldable pub clamp : ℕ → ℕ → ℕ
  clamp v hi = if f.less v 0 then 0 else if f.less hi v then hi else v

  unfoldable pub clamp_vertex : Point → Vertex → Vertex
  unfolding clamp
  clamp_vertex size v = record v {
    pos = record { x = clamp v.pos.x size.x; y = clamp v.pos.y size.y };
  }

  -- Of a vertex that has been clamped.
  unfoldable pub pack_vertex : Point → Vertex → PackedVertex
  unfolding to_field
  pack_vertex size v = record {
    pos_x = quantize v.pos.x size.x;
    pos_y = quantize v.pos.y size.y;
    uv_x = to_field (f.mul v.uv.x (f.of_int bound));
    uv_y = to_field (f.mul v.uv.y (f.of_int bound));
    col = v.col;
  }

  unfoldable pub unpack_vertex : Point → PackedVertex → Vertex
  unpack_vertex size v = record {
    pos = record { x = dequantize v.pos_x size.x; y = dequantize v.pos_y size.y };
    uv = record {
      x = f.div (f.of_int v.uv_x) (f.of_int bound);
      y = f.div (f.of_int v.uv_y) (f.of_int bound);
    };
    col = v.col;
  }
