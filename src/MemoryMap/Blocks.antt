-- ===== src/MemoryMap/Blocks.antt =====
-- A run of neighbouring regions as one block: where its regions are mapped is where `get` looks for
-- them.
use nxdb.Common.{
  ℕ, ◌+◌, ◌-◌, ◌^◌, ◌≤◌, ◌<◌, ◌≡◌, sym, List, [], ◌∷◌, ◌++◌, none, some, arith, All, All-append,
  All-map, subst, Option-cases, Bool-cases, inl, inr,
}
use nxdb.MemoryMap.{
  Kernel, Manager, MemoryInfo, MapBlock, Mapping, word, block_get, find_block, map_regions,
  block_size, map_block, last_of, skipped,
}
use nxdb.MemoryMap.Lookup.{IsBelow, find_block-append, find_block-middle}

-- Regions without a gap from `a` to `e`, within the 39 bits of the address space.
abbrev pub IsRun : ℕ → List MemoryInfo → ℕ → Type 0
IsRun a [] e = (a ≡ e) × (e < 2 ^ 39)
IsRun a (r ∷ rs) e = (r.addr ≡ a) × (0 < r.size) × IsRun (a + r.size) rs e

-- The mapping's source is in a block, and its destination is that block's translation of it.
abbrev pub Found : List MapBlock → Mapping → Type 0
Found bs c = (b : MapBlock) × (find_block bs c.src ≡ some b) × (c.dst ≡ block_get b c.src)

pub run-le : (a : ℕ) (rs : List MemoryInfo) (e : ℕ) → IsRun a rs e → (a ≤ e) × (e < 2 ^ 39)
run-le a [] e h = omega arith
run-le a (r ∷ rs) e h = omega (arith, run-le (a + r.size) rs e h.2)

module _ (k : Kernel) where
  last_end :
      (r : MemoryInfo) (rs : List MemoryInfo) (a e : ℕ)
      → IsRun a (r ∷ rs) e
      → ((last_of k r rs).addr + (last_of k r rs).size ≡ e) × (a ≤ (last_of k r rs).addr)
  last_end r [] a e h = omega arith
  last_end r (q ∷ qs) a e h = omega (arith, last_end q qs (a + r.size) e h.2)

  -- The size of a block is that of its run.
  pub block_size-run :
      (r : MemoryInfo) (rs : List MemoryInfo) (a e : ℕ)
      → IsRun a (r ∷ rs) e
      → block_size k r rs + a ≡ e
  unfolding block_size
  block_size-run r rs a e h = omega (arith, last_end r rs a e h, run-le (a + r.size) rs e h.2)

  module _ (base first size : ℕ) (bs : List MapBlock) (below : IsBelow first bs)
      (fits : first + size < 2 ^ 64) where
    abbrev block : MapBlock
    block = record { start_orig = first; start_mapped = base; size = size }

    map_regions-Found :
        (rs : List MemoryInfo) (a e : ℕ) (out done : List Mapping)
        → IsRun a rs e
        → first ≤ a
        → e ≤ first + size
        → All (Found (bs ++ block ∷ [])) out
        → map_regions k base first rs out ≡ some done
        → All (Found (bs ++ block ∷ [])) done
    unfolding map_regions
    map_regions-Found [] a e out done run lo hi ok eq =
        let same : out ≡ done = cc in subst (All (Found (bs ++ block ∷ []))) same ok
    map_regions-Found (r ∷ rs) a e out done run lo hi ok eq =
        let call : Mapping = record {
          dst = word (base + word (r.addr + 2 ^ 64 - first));
          src = r.addr;
          size = r.size;
        } in
        let (above, within) = run-le (a + r.size) rs e run.2 in
        let found : Found (bs ++ block ∷ []) call = (
          block,
          find_block-middle bs [] block r.addr below fits (omega arith) (omega arith),
          unfold block_get in omega arith,
        ) in
        let lower : first ≤ a + r.size = omega arith in
        elim (Bool-cases (skipped k r)) [
          | inl skip ↦
              map_regions-Found rs (a + r.size) e out done run.2 lower hi ok (simp skip at eq)
          | inr go ↦ elim (Bool-cases (k.map_succeeds call)) [
            | inl good ↦
                map_regions-Found rs (a + r.size) e (out ++ call ∷ []) done run.2 lower hi
                  (All-append (Found (bs ++ block ∷ [])) out (call ∷ []) ok (found, tt))
                  (simp (go, good) at eq)
            | inr bad ↦ absurd (let no : none ≡ some done = simp (go, bad) at eq in cc)
          ]
        ]

  -- Mapping a run as a block keeps what holds of the mappings made before, and gives it to the new
  -- ones.
  pub map_block-Found :
      (r : MemoryInfo) (rs : List MemoryInfo) (a e : ℕ) (m n : Manager)
      → IsRun a (r ∷ rs) e
      → IsBelow a m.blocks
      → All (Found m.blocks) m.mappings
      → map_block k r rs m ≡ some n
      → All (Found n.blocks) n.mappings × ((h : ℕ) → e < h → IsBelow h n.blocks)
  unfolding map_block
  map_block-Found r rs a e m n run below ok eq =
      elim (Option-cases (k.find_aslr (block_size k r rs))) [
        | inl full ↦ absurd (ground arith)
        | inr (base, free) ↦ elim (Option-cases (map_regions k base r.addr (r ∷ rs) m.mappings)) [
          | inl refused ↦ absurd (ground arith)
          | inr (calls, done) ↦
              let size = block_size k r rs in
              let b : MapBlock = record { start_orig = r.addr; start_mapped = base; size = size } in
              let same : record { blocks = m.blocks ++ b ∷ []; mappings = calls } ≡ n =
                ground arith in
              let whole = block_size-run r rs a e run in
              let (_, within) = run-le a (r ∷ rs) e run in
              let below' : IsBelow r.addr m.blocks =
                subst (λ x. IsBelow x m.blocks) (sym run.0) below in
              let older : All (Found (m.blocks ++ b ∷ [])) m.mappings =
                All-map (Found m.blocks) (Found (m.blocks ++ b ∷ [])) m.mappings
                  (λ c f. (f.0, find_block-append m.blocks (b ∷ []) c.src f.0 f.1, f.2)) ok in
              let all_found =
                map_regions-Found base r.addr size m.blocks below' (omega arith) (r ∷ rs) a e
                  m.mappings calls run (omega arith) (omega arith) older done in
              let lower : (h : ℕ) → e < h → IsBelow h (m.blocks ++ b ∷ []) = λ h p.
                All-append (λ c. (c.start_orig + c.size < h)) m.blocks (b ∷ [])
                  (All-map (λ c. (c.start_orig + c.size < a)) (λ c. (c.start_orig + c.size < h))
                    m.blocks (λ c q. omega arith) below)
                  (omega arith, tt) in
              subst
                (λ (q : Manager).
                  All (Found q.blocks) q.mappings × ((h : ℕ) → e < h → IsBelow h q.blocks))
                same (all_found, lower)
        ]
      ]
