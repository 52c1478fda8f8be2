-- ===== src/Draw/Pack.antt =====
-- sysmodule/source/nxdb/DrawDataPack.cpp: the draw data is packed list by list. A list whose hash is the
-- one that was sent last in its place is sent as three zeros. The hashes of the three buffers are a
-- parameter.
use nxdb.Common.{
  ℕ, ◌+◌, ◌%◌, ◌^◌, true, false, List, [], ◌∷◌, ◌++◌, Option, none, some, map, get_elem?, set,
  length, concat, ◌==◌, put_u32,
}
use nxdb.Draw.{
  Floats, Point, Command, Vertex, DrawList, DrawData, pack_command, pack_vertex, clamp_vertex,
}
use nxdb.Draw.Layout.{put_u16, put_command, put_vertex}

-- `hashMurmur` of a buffer's memory.
pub record Hashes : Type 0 where
  pub vertices : List Vertex → ℕ
  pub indices : List ℕ → ℕ
  pub commands : List Command → ℕ

-- `sPrevDrawListHashes` (128 of them) and `sNumPrevDrawLists`.
pub record Packer : Type 0 where
  pub hashes : List ℕ
  pub num_prev : ℕ

abbrev pub max_draw_lists : ℕ
max_draw_lists = 128

unfoldable pub hash_draw_list : Hashes → DrawList → ℕ
hash_draw_list h l = (h.vertices l.vertices + h.indices l.indices + h.commands l.commands) % 2 ^ 32

unfoldable pub put_sizes : ℕ → ℕ → ℕ → List ℕ
put_sizes a b c = put_u32 a ++ (put_u32 b ++ put_u32 c)

-- `ImDrawDataPackHeader`.
unfoldable pub put_header : DrawData → List ℕ
put_header d =
    put_u32 d.cursor
    ++ (put_u32 (length d.lists) ++ (put_u32 d.total_vtx_count ++ put_u32 d.total_idx_count))

module _ (f : Floats) (size : Point) where
  unfoldable pub clamp_list : DrawList → DrawList
  clamp_list l = record l { vertices = map (clamp_vertex f size) l.vertices }

  -- The elements of a list, behind its sizes.
  unfoldable pub put_elements : DrawList → List ℕ
  put_elements l =
      concat (map (λ c. put_command (pack_command f size c)) l.commands)
      ++ (concat (map (λ v. put_vertex (pack_vertex f size (clamp_vertex f size v))) l.vertices)
          ++ concat (map put_u16 l.indices))

  unfoldable pub put_list : DrawList → List ℕ
  unfolding put_sizes put_elements
  put_list l =
      put_sizes (length l.commands) (length l.vertices) (length l.indices) ++ put_elements l

module _ (f : Floats) (h : Hashes) (size : Point) where
  -- The loop over the lists from the place `i` on: the bytes, the hashes, and the lists, in which the
  -- vertices that were sent have been clamped. `none` is a place behind the array of hashes.
  unfoldable pub pack_lists : ℕ → List DrawList → List ℕ → Option (List ℕ × List ℕ × List DrawList)
  pack_lists i [] hashes = some ([], hashes, [])
  pack_lists i (l ∷ ls) hashes = elim (get_elem? hashes i) [
    | none ↦ none
    | some prev ↦ elim (hash_draw_list h l == prev) [
      | true ↦ elim (pack_lists (i + 1) ls hashes) [
        | none ↦ none
        | some (bytes, hashes', ls') ↦ some (put_sizes 0 0 0 ++ bytes, hashes', l ∷ ls')
      ]
      | false ↦ elim (pack_lists (i + 1) ls (set hashes i (hash_draw_list h l))) [
        | none ↦ none
        | some (bytes, hashes', ls') ↦
            some (put_list f size l ++ bytes, hashes', clamp_list f size l ∷ ls')
      ]
    ]
  ]

  -- `packImDrawData`: the bytes at `out`, the statics and the draw data after it.
  unfoldable pub pack : DrawData → Packer → Option (List ℕ × Packer × DrawData)
  unfolding put_header
  pack d p = elim (pack_lists 0 d.lists p.hashes) [
    | none ↦ none
    | some (bytes, hashes, lists) ↦ some (
      put_header d ++ bytes,
      record { hashes = hashes; num_prev = length d.lists },
      record d { lists = lists },
    )
  ]
