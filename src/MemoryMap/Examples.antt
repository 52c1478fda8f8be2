-- ===== src/MemoryMap/Examples.antt =====
-- Tests of the memory map, and its theorems at a process with two regions in use.
use nxdb.Common.{
  ℕ, ◌≡◌, refl, inr, true, List, [], ◌∷◌, ◌++◌, Option, none, some, arith, All, ◌==◌, if◌then◌else◌,
}
use nxdb.MemoryMap.{
  Kernel, Manager, MemoryInfo, MapBlock, mapped, map_blocks, map_from, close_run, map_block,
  map_regions, block_size, get, Mapping, unmap, unmap_from, unmap_blocks,
}
use nxdb.MemoryMap.Release.{unmap-map_regions}
use nxdb.MemoryMap.Scan.{Covers, closed_runs, map_runs, longest, outcome, map_blocks-runs}
use nxdb.MemoryMap.Translation.{map_blocks-get}

-- Free, code, free, a stack, and a free region up to the end.
abbrev low : MemoryInfo
low = record { addr = 0; size = 0x1000; type = 0 }

abbrev code : MemoryInfo
code = record { addr = 0x1000; size = 0x2000; type = 3 }

abbrev gap : MemoryInfo
gap = record { addr = 0x3000; size = 0x2000; type = 0 }

abbrev stack : MemoryInfo
stack = record { addr = 0x5000; size = 0x1000; type = 11 }

abbrev high : MemoryInfo
high = record { addr = 0x6000; size = 0x7f_ffff_a000; type = 0 }

abbrev layout : ℕ → Option MemoryInfo
layout a =
    if a == 0
    then some low
    else if a == 0x1000
    then some code
    else if a == 0x3000
    then some gap
    else if a == 0x5000
    then some stack
    else if a == 0x6000
    then some high
    else none

abbrev kernel : Kernel
kernel = record {
  query = layout;
  find_aslr = λ size. some 0x8_0000;
  map_succeeds = λ call. true;
  shared_mem = 6;
  mapped_memory = 7;
  thread_local = 12;
}

abbrev empty : Manager
empty = record { blocks = []; mappings = [] }

abbrev code_block : MapBlock
code_block = record { start_orig = 0x1000; start_mapped = 0x8_0000; size = 0x2000 }

abbrev code_mapped : Manager
code_mapped = record {
  blocks = code_block ∷ [];
  mappings = record { dst = 0x8_0000; src = 0x1000; size = 0x2000 } ∷ [];
}

kernel-Covers : Covers kernel 0 ((low ∷ code ∷ gap ∷ []) ++ stack ∷ [])
kernel-Covers = (
  refl,
  refl,
  omega arith,
  omega arith,
  (
    refl,
    refl,
    omega arith,
    omega arith,
    (
      refl,
      refl,
      omega arith,
      omega arith,
      (refl, refl, omega arith, omega arith, inr (high, refl, refl)),
    ),
  ),
)

run_kernel : map_blocks kernel 5 empty ≡ mapped code_mapped
unfolding map_blocks map_from close_run map_block map_regions block_size
run_kernel = refl

map_blocks-runs_example :
    map_blocks kernel 5 empty
    ≡ outcome (map_runs kernel (closed_runs [] (low ∷ code ∷ gap ∷ stack ∷ [])) empty)
map_blocks-runs_example =
    map_blocks-runs kernel 5 (low ∷ code ∷ gap ∷ stack ∷ []) empty kernel-Covers
      (unfold longest in omega arith) (omega arith)

map_blocks-get_example : All (λ c. get code_mapped.blocks c.src ≡ c.dst) code_mapped.mappings
map_blocks-get_example =
    map_blocks-get kernel 5 (low ∷ code ∷ gap ∷ stack ∷ []) code_mapped kernel-Covers
      (unfold longest in omega arith) (omega arith) run_kernel

-- A block of code, a shared region, which is not mapped, and data; the own memory shows the code, and
-- then a free region.
abbrev shared : MemoryInfo
shared = record { addr = 0x3000; size = 0x1000; type = 6 }

abbrev static : MemoryInfo
static = record { addr = 0x4000; size = 0x1000; type = 4 }

abbrev holed : MapBlock
holed = record { start_orig = 0x1000; start_mapped = 0x8_0000; size = 0x4000 }

abbrev holed_memory : ℕ → Option MemoryInfo
holed_memory a =
    if a == 0x8_0000
    then some (record { addr = 0x8_0000; size = 0x2000; type = 15 })
    else some (record { addr = 0x8_2000; size = 0x1000; type = 0 })

abbrev code_call : Mapping
code_call = record { dst = 0x8_0000; src = 0x1000; size = 0x2000 }

abbrev static_call : Mapping
static_call = record { dst = 0x8_3000; src = 0x4000; size = 0x1000 }

holed_unmapped : unmap_blocks holed_memory 3 (holed ∷ []) ≡ some (code_call ∷ [])
unfolding unmap_blocks unmap unmap_from
holed_unmapped = refl

unmap-map_regions_example :
    (calls : List Mapping) × (rest : List Mapping) × (unmap holed_memory 2 holed ≡ some calls)
    × (map_regions kernel 0x8_0000 0x1000 (shared ∷ static ∷ []) [] ≡ some rest)
    × (code_call ∷ static_call ∷ [] ≡ calls ++ rest)
unmap-map_regions_example =
    unmap-map_regions holed_memory kernel holed 2 0x3000 (code ∷ []) (shared ∷ static ∷ [])
      (code_call ∷ static_call ∷ []) (omega arith) (omega arith) (omega arith) (omega arith)
      (refl, tt) (unfold map_regions in refl)
      (
        record { addr = 0x8_0000; size = 0x2000; type = 15 },
        refl,
        refl,
        (λ e. absurd (omega arith)),
        (record { addr = 0x8_2000; size = 0x1000; type = 0 }, refl, refl),
      )
      (omega arith)
