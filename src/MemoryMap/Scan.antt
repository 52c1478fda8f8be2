-- ===== src/MemoryMap/Scan.antt =====
-- `mapBlocks` against the layout of the memory: which runs of regions it maps.
use nxdb.Common.{
  ℕ, zero, suc, ◌+◌, ◌≤◌, ◌<◌, ◌≡◌, ◌≢◌, refl, sym, ap, ◌∙◌, ◌⊎◌, true, false, List, [], ◌∷◌, ◌++◌,
  Option, none, some, arith, All, if◌then◌else◌, ◌==◌, Option-cases, Bool-cases, inl, inr, length,
  length-append,
}
use Prim.Native.Nat.{max}
use nxdb.MemoryMap.{
  Kernel, Manager, MemoryInfo, Outcome, mapped, aborts, word, close_run, map_from, map_blocks,
}

-- The kernel describes the memory from `a` on as the regions `rs`, and then fails or answers a region
-- that ends with the address space.
abbrev pub Covers : Kernel → ℕ → List MemoryInfo → Type 0
Covers k a [] =
    (k.query a ≡ none)
    ⊎ ((r : MemoryInfo) × (k.query a ≡ some r) × (word (a + r.size) ≡ 0x80_0000_0000))
Covers k a (r ∷ rs) =
    (k.query a ≡ some r)
    × (r.addr ≡ a)
    × (0 < r.size)
    × (a + r.size < 0x80_0000_0000)
    × Covers k (a + r.size) rs

-- The runs of regions in use that a free region ends. `run` is the open one.
unfoldable pub closed_runs : List MemoryInfo → List MemoryInfo → List (List MemoryInfo)
closed_runs run [] = []
closed_runs run (r ∷ rs) =
    let closed = run ∷ closed_runs [] rs in
    let longer = closed_runs (run ++ r ∷ []) rs in if r.type == 0 then closed else longer

unfoldable pub map_runs : Kernel → List (List MemoryInfo) → Manager → Option Manager
map_runs k [] m = some m
map_runs k (run ∷ runs) m = elim (close_run k run m) [ none ↦ none | some n ↦ map_runs k runs n ]

abbrev pub outcome : Option Manager → Outcome
outcome none = aborts
outcome (some m) = mapped m

-- The most regions that stand in `mapBuffer`, `n` being there already.
unfoldable pub longest : ℕ → List MemoryInfo → ℕ
longest n [] = n
longest n (r ∷ rs) = max n (longest (if r.type == 0 then 0 else n + 1) rs)

le-longest : (n : ℕ) (rs : List MemoryInfo) → n ≤ longest n rs
unfolding longest
le-longest n [] = omega arith
le-longest n (r ∷ rs) = omega arith

module _ (k : Kernel) (fuel a : ℕ) (run : List MemoryInfo) (m : Manager) (r : MemoryInfo)
    (found : k.query a ≡ some r) (inner : a + r.size < 0x80_0000_0000) where
  map_from_refused :
      (r.type == 0) ≡ true → close_run k run m ≡ none → map_from k (suc fuel) a run m ≡ aborts
  unfolding map_from
  map_from_refused free refused = ground arith

  map_from_closed :
      (n : Manager)
      → (r.type == 0) ≡ true
      → close_run k run m ≡ some n
      → map_from k (suc fuel) a run m ≡ map_from k fuel (a + r.size) [] n
  unfolding map_from
  map_from_closed n free done =
      let next : word (a + r.size) ≡ a + r.size = omega arith in ground arith

  map_from_longer :
      (r.type == 0) ≡ false
      → length run < 256
      → map_from k (suc fuel) a run m ≡ map_from k fuel (a + r.size) (run ++ r ∷ []) m
  unfolding map_from
  map_from_longer used room =
      let next : word (a + r.size) ≡ a + r.size = omega arith in ground arith

-- What a region does to the runs.
pub closed_runs-free :
    (run rs : List MemoryInfo) (r : MemoryInfo)
    → (r.type == 0) ≡ true
    → closed_runs run (r ∷ rs) ≡ run ∷ closed_runs [] rs
unfolding closed_runs
closed_runs-free run rs r e = simp e

pub closed_runs-used :
    (run rs : List MemoryInfo) (r : MemoryInfo)
    → (r.type == 0) ≡ false
    → closed_runs run (r ∷ rs) ≡ closed_runs (run ++ r ∷ []) rs
unfolding closed_runs
closed_runs-used run rs r e = simp e

pub map_runs-none :
    (k : Kernel) (run : List MemoryInfo) (runs : List (List MemoryInfo)) (m : Manager)
    → close_run k run m ≡ none
    → map_runs k (run ∷ runs) m ≡ none
unfolding map_runs
map_runs-none k run runs m e = rw (e, map_runs)

pub map_runs-some :
    (k : Kernel) (run : List MemoryInfo) (runs : List (List MemoryInfo)) (m n : Manager)
    → close_run k run m ≡ some n
    → map_runs k (run ∷ runs) m ≡ map_runs k runs n
unfolding map_runs
map_runs-some k run runs m n e = rw (e, map_runs)

map_from-runs :
    (k : Kernel) (fuel a : ℕ) (run rs : List MemoryInfo) (m : Manager)
    → Covers k a rs
    → longest (length run) rs ≤ 256
    → length rs < fuel
    → map_from k fuel a run m ≡ outcome (map_runs k (closed_runs run rs) m)
unfolding longest
map_from-runs k zero a run rs m c short enough = absurd (omega arith)
map_from-runs k (suc fuel) a run [] m (inl over) short enough =
    unfold map_from map_runs closed_runs in ground arith
map_from-runs k (suc fuel) a run [] m (inr (r, e, top)) short enough =
    unfold map_from map_runs closed_runs in ground arith
map_from-runs k (suc fuel) a run (r ∷ rs) m c short enough = elim (Bool-cases (r.type == 0)) [
  | inl free ↦ elim (Option-cases (close_run k run m)) [
    | inl refused ↦
        map_from_refused k fuel a run m r c.0 c.3 free refused
        ∙ ap outcome (
            sym (
              ap (λ l. map_runs k l m) (closed_runs-free run rs r free)
              ∙ map_runs-none k run (closed_runs [] rs) m refused))
    | inr (n, done) ↦
        map_from_closed k fuel a run m r c.0 c.3 n free done
        ∙ map_from-runs k fuel (a + r.size) [] rs n c.4 (ground arith) (omega arith)
        ∙ ap outcome (
            sym (
              ap (λ l. map_runs k l m) (closed_runs-free run rs r free)
              ∙ map_runs-some k run (closed_runs [] rs) m n done))
  ]
  | inr used ↦
      let fits : longest (length run + 1) rs ≤ 256 = ground arith in
      map_from_longer k fuel a run m r c.0 c.3 used (omega (arith, le-longest (length run + 1) rs))
      ∙ map_from-runs k fuel (a + r.size) (run ++ r ∷ []) rs m c.4
          (rw (length-append run (r ∷ [])) fits) (omega arith)
      ∙ ap (λ l. outcome (map_runs k l m)) (sym (closed_runs-used run rs r used))
]

-- `mapBlocks` comes to its end, and maps just the runs of regions in use that a free region ends, each
-- as a block, as long as at most 256 regions stand side by side: the run in front of the end of the
-- address space is left out.
pub map_blocks-runs :
    (k : Kernel) (fuel : ℕ) (rs : List MemoryInfo) (m : Manager)
    → Covers k 0 rs
    → longest 0 rs ≤ 256
    → length rs < fuel
    → map_blocks k fuel m ≡ outcome (map_runs k (closed_runs [] rs) m)
unfolding map_blocks
map_blocks-runs k fuel rs m c short enough = map_from-runs k fuel 0 [] rs m c short enough

closed_runs-append :
    (run rs tail : List MemoryInfo)
    → All (λ r. r.type ≢ 0) tail
    → closed_runs run (rs ++ tail) ≡ closed_runs run rs
unfolding closed_runs
closed_runs-append run [] [] h = refl
closed_runs-append run [] (t ∷ ts) h = ground (arith, closed_runs-append (run ++ t ∷ []) [] ts h.1)
closed_runs-append run (r ∷ rs) tail h =
    ground (arith, closed_runs-append [] rs tail h, closed_runs-append (run ++ r ∷ []) rs tail h)

-- Regions in use that no free region follows in front of the end of the address space are mapped
-- never: the result is as if they were not there.
map_blocks_tail :
    (k : Kernel) (fuel : ℕ) (rs tail : List MemoryInfo) (m : Manager)
    → Covers k 0 (rs ++ tail)
    → All (λ r. r.type ≢ 0) tail
    → longest 0 (rs ++ tail) ≤ 256
    → length (rs ++ tail) < fuel
    → map_blocks k fuel m ≡ outcome (map_runs k (closed_runs [] rs) m)
map_blocks_tail k fuel rs tail m c used short enough =
    map_blocks-runs k fuel (rs ++ tail) m c short enough
    ∙ ap (λ l. outcome (map_runs k l m)) (closed_runs-append [] rs tail used)
