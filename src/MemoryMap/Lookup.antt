-- ===== src/MemoryMap/Lookup.antt =====
-- `get` and `findBlock`: two walks over the blocks that agree, and what a new block changes for them.
use nxdb.Common.{
  ℕ, ◌+◌, ◌^◌, ◌≤◌, ◌<◌, ◌≡◌, refl, ap, ◌∙◌, List, [], ◌∷◌, ◌++◌, Option, none, some, arith, All,
}
use nxdb.MemoryMap.{MapBlock, block_get, find_block, get}

-- The address that `get` answers for the block that was found; the null address for none.
abbrev pub translate : Option MapBlock → ℕ → ℕ
translate none ptr = 0
translate (some b) ptr = block_get b ptr

-- `get` is `findBlock` and the translation by that block.
pub get-find_block : (bs : List MapBlock) (ptr : ℕ) → get bs ptr ≡ translate (find_block bs ptr) ptr
unfolding get find_block
get-find_block [] ptr = refl
get-find_block (b ∷ bs) ptr = ground (arith, get-find_block bs ptr)

-- The blocks lie below an address.
abbrev pub IsBelow : ℕ → List MapBlock → Type 0
IsBelow a = All (λ b. (b.start_orig + b.size < a))

pub find_block-append :
    (bs cs : List MapBlock) (ptr : ℕ) (b : MapBlock)
    → find_block bs ptr ≡ some b
    → find_block (bs ++ cs) ptr ≡ some b
unfolding find_block
find_block-append [] cs ptr b e = absurd (ground arith)
find_block-append (a ∷ bs) cs ptr b e = ground (arith, find_block-append bs cs ptr b)

pub find_block-past :
    (bs cs : List MapBlock) (a ptr : ℕ)
    → IsBelow a bs
    → a ≤ ptr
    → a < 2 ^ 64
    → find_block (bs ++ cs) ptr ≡ find_block cs ptr
unfolding find_block
find_block-past [] cs a ptr h p w = refl
find_block-past (b ∷ bs) cs a ptr h p w = ground (arith, find_block-past bs cs a ptr h.1 p w)

pub get-found :
    (bs : List MapBlock) (ptr : ℕ) (b : MapBlock)
    → find_block bs ptr ≡ some b
    → get bs ptr ≡ block_get b ptr
get-found bs ptr b e = get-find_block bs ptr ∙ ap (λ f. translate f ptr) e

-- Within its block and at its end an address is found in the block, as the first above the others.
pub find_block-middle :
    (bs cs : List MapBlock) (b : MapBlock) (ptr : ℕ)
    → IsBelow b.start_orig bs
    → b.start_orig + b.size < 2 ^ 64
    → b.start_orig ≤ ptr
    → ptr ≤ b.start_orig + b.size
    → find_block (bs ++ b ∷ cs) ptr ≡ some b
unfolding find_block
find_block-middle bs cs b ptr below fits lo hi =
    find_block-past bs (b ∷ cs) b.start_orig ptr below lo (omega arith) ∙ ground arith

-- `get` moves each address of a block by the distance between the block and its mapping. It does so
-- with the address just behind the block too, which `<=` lets in.
get-block :
    (bs cs : List MapBlock) (b : MapBlock) (offset : ℕ)
    → IsBelow b.start_orig bs
    → b.start_orig + b.size < 2 ^ 64
    → b.start_mapped + b.size < 2 ^ 64
    → offset ≤ b.size
    → get (bs ++ b ∷ cs) (b.start_orig + offset) ≡ b.start_mapped + offset
unfolding block_get
get-block bs cs b offset below fits fits' h =
    get-found (bs ++ b ∷ cs) (b.start_orig + offset) b
      (find_block-middle bs cs b (b.start_orig + offset) below fits (omega arith) (omega arith))
    ∙ omega arith
