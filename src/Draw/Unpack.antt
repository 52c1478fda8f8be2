-- ===== src/Draw/Unpack.antt =====
-- client/Source/pe/DrawData.cpp: `unpackDrawData`, which reads the memory from `data` on and does not
-- look at its size. `sDrawDataPrev` holds copies of the lists shown last.
use nxdb.Common.{
  ℕ, Bool, zero, suc, ◌+◌, ◌^◌, ◌&&◌, List, [], ◌∷◌, Option, none, some, map, get_elem?, ◌==◌, ltb,
  if◌then◌else◌,
}
use mathlib.Core.Option
use nxdb.Draw.{Floats, Point, DrawList, unpack_command, unpack_vertex}
use nxdb.Draw.Layout.{Reader, ◌>>=◌, pure, read_u16, read_u32, read_command, read_vertex, read_many}

-- A number of elements. A negative `int` is none, and the code has no defined result for it.
unfoldable pub read_count : Reader ℕ
unfolding read_u32
read_count = read_u32 >>= λ n m. if ltb n (2 ^ 31) then some (n, m) else none

unfoldable pub is_blank : ℕ → ℕ → ℕ → Bool
is_blank a b c = a == 0 && b == 0 && c == 0

-- `sDrawDataPrev && cmdListIdx < sDrawDataPrev->CmdLists.size()`, and the list that is there.
unfoldable pub prev_at : Option (List DrawList) → ℕ → Option DrawList
prev_at none i = none
prev_at (some ls) i = get_elem? ls i

module _ (f : Floats) (size : Point) where
  -- A list that is there in full.
  unfoldable pub read_list : ℕ → ℕ → ℕ → Reader DrawList
  read_list commands vertices indices = read_many read_command commands >>= λ cs.
      read_many read_vertex vertices >>= λ vs. read_many read_u16 indices >>= λ is. pure (record {
        commands = map (unpack_command f size) cs;
        vertices = map (unpack_vertex f size) vs;
        indices = is;
      })

  -- The list at the place `i`, by the three sizes in front of it.
  unfoldable pub choose_list : Option DrawList → ℕ → ℕ → ℕ → Reader DrawList
  unfolding is_blank
  choose_list none a b c = read_list a b c
  choose_list (some l) a b c = if is_blank a b c then pure l else read_list a b c

  unfoldable pub unpack_list : Option (List DrawList) → ℕ → Reader DrawList
  unpack_list prev i =
      read_count >>= λ a. read_count >>= λ b. read_count >>= λ c. choose_list (prev_at prev i) a b c

  unfoldable pub unpack_lists : Option (List DrawList) → ℕ → ℕ → Reader (List DrawList)
  unpack_lists prev zero i = pure []
  unpack_lists prev (suc n) i =
      unpack_list prev i >>= λ l. unpack_lists prev n (i + 1) >>= λ ls. pure (l ∷ ls)

  -- `unpackDrawData`: the cursor and the lists to show, which are also those of `sDrawDataPrev`
  -- afterwards. The totals in the header are not used.
  unfoldable pub unpack : Option (List DrawList) → List ℕ → Option (ℕ × List DrawList)
  unpack prev m =
      Option.map (λ r. r.0)
        ((read_u32 >>= λ cursor. read_count >>= λ count. read_u32 >>= λ vtx.
            read_u32 >>= λ idx. unpack_lists prev count 0 >>= λ ls. pure (cursor, ls))
          m)
