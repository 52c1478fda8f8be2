-- ===== src/Draw/Memory.antt =====
-- ImGui's buffers in memory, and `hashImDrawList` of sysmodule/source/nxdb/DrawDataPack.cpp with the hash of
-- hash.h. What a command is in memory, which has more fields than are sent, is a parameter.
use nxdb.Common.{ℕ, ◌%◌, ◌^◌, ◌++◌, List, map, concat, length, put_u32}
use nxdb.Hash.{unsigned_char, hash_murmur}
use nxdb.Draw.{Vertex, Command}
use nxdb.Draw.Layout.{put_u16}
use nxdb.Draw.Pack.{Hashes}

-- An `ImDrawVert`: two pairs of floats and a colour.
unfoldable pub vertex_memory : Vertex → List ℕ
vertex_memory v =
    put_u32 v.pos.x ++ (put_u32 v.pos.y ++ (put_u32 v.uv.x ++ (put_u32 v.uv.y ++ put_u32 v.col)))

abbrev pub hash_bytes : List ℕ → ℕ
hash_bytes bs = hash_murmur unsigned_char bs (length bs % 2 ^ 32) 0

-- `hashMurmur` of the three buffers.
unfoldable pub murmur_hashes : (Command → List ℕ) → Hashes
unfolding vertex_memory put_u16
murmur_hashes command_memory = record {
  vertices = λ vs. hash_bytes (concat (map vertex_memory vs));
  indices = λ is. hash_bytes (concat (map put_u16 is));
  commands = λ cs. hash_bytes (concat (map command_memory cs));
}
