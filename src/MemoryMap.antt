-- ===== src/MemoryMap.antt =====
-- sysmodule/source/nxdb/MemoryMapMgr.h and MemoryMapMgr.cpp: the debugged process's memory mapped
-- into the own address space, a block for each run of regions, and the translation of addresses.
-- Addresses are 64 bits wide. Logging is left out, the texts of `perm` with it.
pub mod Lookup
pub mod Blocks
pub mod Scan
pub mod Translation
pub mod Release
mod Examples
use nxdb.Common.{
  ℕ, zero, suc, ◌+◌, ◌-◌, ◌%◌, ◌^◌, Bool, true, false, ◌&&◌, ◌||◌, List, [], ◌∷◌, ◌++◌, Option,
  none, some, ltb, leb, ◌==◌, if◌then◌else◌, length,
}

abbrev pub word : ℕ → ℕ
word n = n % 2 ^ 64

-- The fields of libnx's `MemoryInfo` that the code reads.
pub record MemoryInfo : Type 0 where
  pub addr : ℕ
  pub size : ℕ
  pub type : ℕ

-- The reservation is kept by libnx and not used again.
pub record MapBlock : Type 0 where
  pub start_orig : ℕ
  pub start_mapped : ℕ
  pub size : ℕ

-- A call `svcMapProcessMemory(dst, process, src, size)`.
pub record Mapping : Type 0 where
  pub dst : ℕ
  pub src : ℕ
  pub size : ℕ

pub record Manager : Type 0 where
  pub blocks : List MapBlock
  pub mappings : List Mapping

-- `MapBlock::get`.
unfoldable pub block_get : MapBlock → ℕ → ℕ
block_get b ptr = word (word (ptr + 2 ^ 64 - b.start_orig) + b.start_mapped)

abbrev holds : MapBlock → ℕ → Bool
holds b ptr = leb b.start_orig ptr && leb ptr (word (b.start_orig + b.size))

-- `MemoryMapMgr::findBlock` and `get`.
unfoldable pub find_block : List MapBlock → ℕ → Option MapBlock
find_block [] ptr = none
find_block (b ∷ bs) ptr = if holds b ptr then some b else find_block bs ptr

unfoldable pub get : List MapBlock → ℕ → ℕ
get [] ptr = 0
get (b ∷ bs) ptr = if holds b ptr then block_get b ptr else get bs ptr

-- What the kernel and libnx answer: the region at an address, a free range of a size (`none` is the
-- null pointer), the success of a mapping, and the three types of memory that are not mapped.
pub record Kernel : Type 0 where
  pub query : ℕ → Option MemoryInfo
  pub find_aslr : ℕ → Option ℕ
  pub map_succeeds : Mapping → Bool
  pub shared_mem : ℕ
  pub mapped_memory : ℕ
  pub thread_local : ℕ

pub data Outcome : Type 0 where
  mapped : Manager → Outcome
  -- `diagAbortWithResult`, a write behind `mapBuffer`, and the end of the fuel.
  aborts overruns starved : Outcome

module _ (k : Kernel) where
  abbrev pub skipped : MemoryInfo → Bool
  skipped r = r.type == k.shared_mem || r.type == k.mapped_memory || r.type == k.thread_local

  -- The mappings of one block, `first` being the address of its first region.
  unfoldable pub map_regions : ℕ → ℕ → List MemoryInfo → List Mapping → Option (List Mapping)
  map_regions base first [] out = some out
  map_regions base first (r ∷ rs) out =
      let call : Mapping = record {
        dst = word (base + word (r.addr + 2 ^ 64 - first));
        src = r.addr;
        size = r.size;
      } in
      let skip = map_regions base first rs out in
      let go_on = map_regions base first rs (out ++ call ∷ []) in
      if skipped r then skip else if k.map_succeeds call then go_on else none

  abbrev pub last_of : MemoryInfo → List MemoryInfo → MemoryInfo
  last_of r [] = r
  last_of r (q ∷ qs) = last_of q qs

  -- `last.addr - first.addr + last.size`.
  unfoldable pub block_size : MemoryInfo → List MemoryInfo → ℕ
  block_size r rs = let l = last_of r rs in word (word (l.addr + 2 ^ 64 - r.addr) + l.size)

  -- The lambda `mapBlock`, on the regions `r ∷ rs`.
  unfoldable pub map_block : MemoryInfo → List MemoryInfo → Manager → Option Manager
  map_block r rs m = elim (k.find_aslr (block_size r rs)) [
    | none ↦ none
    | some base ↦ elim (map_regions base r.addr (r ∷ rs) m.mappings) [
      | none ↦ none
      | some calls ↦ some (record {
        blocks =
            m.blocks
            ++ record { start_orig = r.addr; start_mapped = base; size = block_size r rs } ∷ [];
        mappings = calls;
      })
    ]
  ]

  -- What a free region does: the run before it is mapped, if there is one.
  unfoldable pub close_run : List MemoryInfo → Manager → Option Manager
  close_run [] m = some m
  close_run (r ∷ rs) m = map_block r rs m

  -- The loop of `mapBlocks`; `run` is the filled part of `mapBuffer`.
  unfoldable pub map_from : ℕ → ℕ → List MemoryInfo → Manager → Outcome
  map_from zero addr run m = starved
  map_from (suc fuel) addr run m = elim (k.query addr) [
    | none ↦ mapped m
    | some info ↦
        if word (addr + info.size) == 0x80_0000_0000 then mapped m else elim (info.type == 0) [
          | true ↦ elim (close_run run m) [
            | none ↦ aborts
            | some m' ↦ map_from fuel (word (addr + info.size)) [] m'
          ]
          | false ↦ elim (ltb (length run) 256) [
            | true ↦ map_from fuel (word (addr + info.size)) (run ++ info ∷ []) m
            | false ↦ overruns
          ]
        ]
  ]

  unfoldable pub map_blocks : ℕ → Manager → Outcome
  map_blocks fuel m = map_from fuel 0 [] m

-- The own address space, as `svcQueryMemory` describes it while a block is taken down: the loop goes
-- upwards, and what it has unmapped is not asked for again. A call `svcUnmapProcessMemory(dst, process,
-- src, size)` has the arguments of a `Mapping`; its result is only logged.
module _ (own : ℕ → Option MemoryInfo) where
  -- The loop of `MapBlock::unmap`, at `addr`, with the calls it makes; `none` is the end of the fuel.
  unfoldable pub unmap_from : ℕ → ℕ → MapBlock → Option (List Mapping)
  unmap_from zero addr b = none
  unmap_from (suc fuel) addr b = elim (own addr) [
    | none ↦ some []
    | some info ↦
        elim (word (addr + info.size) == 0x80_0000_0000
          || info.type == 0
          || leb (word (b.start_mapped + b.size)) addr) [
            | true ↦ some []
            | false ↦ elim (unmap_from fuel (word (addr + info.size)) b) [
              | none ↦ none
              | some calls ↦ some (
                  record {
                    dst = addr;
                    src = word (word (addr + 2 ^ 64 - b.start_mapped) + b.start_orig);
                    size = info.size;
                  }
                  ∷ calls)
            ]
          ]
  ]

  unfoldable pub unmap : ℕ → MapBlock → Option (List Mapping)
  unmap fuel b = unmap_from fuel b.start_mapped b

  -- The destructor.
  unfoldable pub unmap_blocks : ℕ → List MapBlock → Option (List Mapping)
  unmap_blocks fuel [] = some []
  unmap_blocks fuel (b ∷ bs) = elim (unmap fuel b) [
    | none ↦ none
    | some calls ↦ elim (unmap_blocks fuel bs) [ none ↦ none | some rest ↦ some (calls ++ rest) ]
  ]
