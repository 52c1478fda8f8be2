-- ===== src/Draw/Examples.antt =====
-- Tests of the packed draw data, and its theorems at a triangle and a window that opens behind it.
use nxdb.Common.{
  ℕ, zero, suc, ◌*◌, ◌/◌, ◌%◌, ◌^◌, ◌≡◌, ◌≢◌, refl, List, [], ◌∷◌, ◌++◌, none, some, length,
  replicate, length-replicate, arith, All, ltb, put_u32,
}
use nxdb.Draw.{
  Floats, Point, Command, Vertex, DrawList, DrawData, quantize, dequantize, clamp_vertex,
  pack_command, pack_vertex, unpack_command, unpack_vertex,
}
use nxdb.Draw.Layout.{
  read_u32, read_many, read_command, read_vertex, read_u16, put_u16, put_command, put_vertex,
}
use nxdb.Draw.Pack.{
  Hashes, Packer, hash_draw_list, pack, pack_lists, put_header, put_list, clamp_list,
}
use nxdb.Draw.Unpack.{
  unpack, unpack_lists, unpack_list, read_count, choose_list, read_list, is_blank, prev_at,
}
use nxdb.Draw.Codec.{shown_list}
use nxdb.Draw.Sync.{IsShowable}
use nxdb.Draw.Frames.{IsSendable, watch, film_shown}
use nxdb.Draw.Joining.{blank_list, repacked_blank}

-- Whole numbers, on a display of one unit, whose corners come through exactly.
abbrev whole : Floats
whole = record {
  of_int = λ n. n;
  to_u16 = λ n. n % 2 ^ 16;
  mul = λ a b. a * b;
  div = λ a b. a / b;
  less = ltb;
}

abbrev counts : Hashes
counts = record { vertices = length; indices = length; commands = length }

abbrev unit : Point
unit = record { x = 1; y = 1 }

abbrev origin : Point
origin = record { x = 0; y = 0 }

abbrev command : Command
command = record {
  clip_min = origin;
  clip_max = unit;
  vtx_offset = 0;
  idx_offset = 2;
  elem_count = 3;
}

abbrev corner : Point → Vertex
corner p = record { pos = p; uv = origin; col = 0xff00_00ff }

abbrev triangle : DrawList
triangle = record {
  commands = command ∷ [];
  vertices = corner origin ∷ corner unit ∷ [];
  indices = 0 ∷ 1 ∷ 1 ∷ [];
}

abbrev dot : DrawList
dot = record { commands = command ∷ []; vertices = []; indices = [] }

abbrev first : DrawData
first = record { cursor = 0; lists = triangle ∷ []; total_vtx_count = 2; total_idx_count = 3 }

abbrev second : DrawData
second = record first { cursor = 2; lists = triangle ∷ dot ∷ [] }

abbrev at_start : Packer
at_start = record { hashes = 0 ∷ 0 ∷ []; num_prev = 0 }

abbrev first_bytes : List ℕ
first_bytes =
    0 ∷ 0 ∷ 0 ∷ 0 ∷ 1 ∷ 0 ∷ 0 ∷ 0 ∷ 2 ∷ 0 ∷ 0 ∷ 0 ∷ 3 ∷ 0 ∷ 0 ∷ 0 ∷ 1 ∷ 0 ∷ 0 ∷ 0 ∷ 2 ∷ 0 ∷ 0 ∷ 0
    ∷ 3 ∷ 0 ∷ 0 ∷ 0 ∷ 0 ∷ 0 ∷ 0 ∷ 255 ∷ 255 ∷ 255 ∷ 0 ∷ 0 ∷ 2 ∷ 0 ∷ 3 ∷ 0 ∷ 0 ∷ 0 ∷ 0 ∷ 0 ∷ 0 ∷ 0
    ∷ 255 ∷ 0 ∷ 0 ∷ 255 ∷ 255 ∷ 255 ∷ 255 ∷ 0 ∷ 0 ∷ 0 ∷ 255 ∷ 0 ∷ 0 ∷ 255 ∷ 0 ∷ 0 ∷ 1 ∷ 0 ∷ 1 ∷ 0
    ∷ []

packed :
    pack whole counts unit first at_start
    ≡ some (first_bytes, record { hashes = 6 ∷ 0 ∷ []; num_prev = 1 }, first)
unfolding pack pack_lists put_list clamp_list put_header pack_command pack_vertex quantize
    clamp_vertex hash_draw_list put_command put_vertex put_u32 put_u16
packed = refl

unpacked : unpack whole unit none first_bytes ≡ some (0, triangle ∷ [])
unfolding unpack unpack_lists unpack_list read_count choose_list read_list prev_at read_many
    read_command read_vertex read_u16 read_u32 unpack_command unpack_vertex dequantize
unpacked = refl

shown_triangle : shown_list whole unit unit triangle ≡ triangle
unfolding shown_list pack_command pack_vertex quantize clamp_vertex unpack_command unpack_vertex
    dequantize
shown_triangle = refl

-- The statics at the start, with a hash for each of the 128 places.
abbrev zero_hash : ℕ
zero_hash = 0

blank_hashes : List ℕ
blank_hashes = replicate 128 0

length-blank : length blank_hashes ≡ 128
unfolding blank_hashes
length-blank = length-replicate 128 zero_hash

replicate-All : (n : ℕ) → All (λ x. x ≡ 0) (replicate n zero_hash)
replicate-All zero = tt
replicate-All (suc n) = (refl, replicate-All n)

hashed : All (λ x. x ≡ 0) blank_hashes
unfolding blank_hashes
hashed = replicate-All 128

abbrev reset : Packer
reset = record { hashes = blank_hashes; num_prev = 0 }

triangle-IsShowable : IsShowable triangle
unfolding is_blank
triangle-IsShowable = record {
  drawable = record {
    commands = omega arith;
    vertices = omega arith;
    indices = omega arith;
    colours = omega arith;
  };
  filled = refl;
}

dot-IsShowable : IsShowable dot
unfolding is_blank
dot-IsShowable = record {
  drawable = record {
    commands = omega arith;
    vertices = omega arith;
    indices = omega arith;
    colours = tt;
  };
  filled = refl;
}

first-IsSendable : IsSendable first
first-IsSendable = record {
  cursor = omega arith;
  vtx_count = omega arith;
  idx_count = omega arith;
  lists = (triangle-IsShowable, tt);
  room = omega arith;
}

second-IsSendable : IsSendable second
second-IsSendable = record {
  cursor = omega arith;
  vtx_count = omega arith;
  idx_count = omega arith;
  lists = (triangle-IsShowable, (dot-IsShowable, tt));
  room = omega arith;
}

nonzero_hashes : (hash_draw_list counts triangle ≢ 0) × (hash_draw_list counts dot ≢ 0)
unfolding hash_draw_list
nonzero_hashes = (omega arith, omega arith)

film_shown_example :
    watch whole counts unit unit ((first, 1 ∷ 2 ∷ []) ∷ (second, []) ∷ []) reset none
    ≡ some (
        (0, shown_list whole unit unit triangle ∷ [])
        ∷ (2, shown_list whole unit unit triangle ∷ shown_list whole unit unit dot ∷ [])
        ∷ [])
film_shown_example =
    film_shown whole counts unit unit ((first, 1 ∷ 2 ∷ []) ∷ (second, []) ∷ []) [] reset none
      (record { long = length-blank; hashed = hashed; has = tt })
      (
        first-IsSendable,
        (nonzero_hashes.0, tt),
        (second-IsSendable, ((λ e. refl), (nonzero_hashes.1, tt)), tt),
      )

repacked_blank_example :
    (once : List ℕ) × (q : Packer) × (e : DrawData) × (twice : List ℕ) × (pack whole counts unit
        first reset
      ≡ some (once, q, e))
    × (pack whole counts unit first q ≡ some (twice, q, first))
    × (unpack whole unit none (twice ++ 9 ∷ []) ≡ some (0, blank_list ∷ []))
repacked_blank_example =
    repacked_blank whole counts unit unit first reset (9 ∷ []) (omega arith) (omega arith)
      (omega arith) (omega arith) length-blank
