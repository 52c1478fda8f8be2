-- ===== src/MemoryMap/Translation.antt =====
-- `get` after `mapBlocks`.
use nxdb.Common.{
  ℕ, ◌+◌, ◌^◌, ◌≤◌, ◌<◌, ◌≡◌, refl, sym, ap, subst, ◌∙◌, List, [], ◌∷◌, ◌++◌, some, arith, All,
  All-map, ◌==◌, Option-cases, Bool-cases, inl, inr, length,
}
use nxdb.MemoryMap.{Kernel, Manager, MemoryInfo, mapped, close_run, map_blocks, get}
use nxdb.MemoryMap.Lookup.{IsBelow, get-found}
use nxdb.MemoryMap.Blocks.{IsRun, Found, map_block-Found}
use nxdb.MemoryMap.Scan.{
  Covers, closed_runs, map_runs, closed_runs-free, closed_runs-used, map_runs-none, map_runs-some,
  longest, outcome, map_blocks-runs,
}

abbrev empty : Manager
empty = record { blocks = []; mappings = [] }

IsRun-append :
    (s a : ℕ) (run : List MemoryInfo) (r : MemoryInfo)
    → IsRun s run a
    → r.addr ≡ a
    → 0 < r.size
    → a + r.size < 2 ^ 39
    → IsRun s (run ++ r ∷ []) (a + r.size)
IsRun-append s a [] r h e p w = omega arith
IsRun-append s a (q ∷ run) r h e p w = (h.0, h.1, IsRun-append (s + q.size) a run r h.2 e p w)

IsRun-le : (s a : ℕ) (run : List MemoryInfo) → IsRun s run a → s ≤ a
IsRun-le s a [] h = omega arith
IsRun-le s a (r ∷ run) h = omega (arith, IsRun-le (s + r.size) a run h.2)

module _ (k : Kernel) where
  abbrev Ready : ℕ → Manager → Type 0
  Ready a n = All (Found n.blocks) n.mappings × ((h : ℕ) → a < h → IsBelow h n.blocks)

  close_run-Ready :
      (run : List MemoryInfo) (s a : ℕ) (m n : Manager)
      → IsRun s run a
      → IsBelow s m.blocks
      → All (Found m.blocks) m.mappings
      → close_run k run m ≡ some n
      → Ready a n
  unfolding close_run
  close_run-Ready [] s a m n run below ok e =
      let same : m ≡ n = cc in
      subst (λ q. Ready a q) same
        (
          ok,
          λ h p.
              All-map (λ b. b.start_orig + b.size < s) (λ b. b.start_orig + b.size < h) m.blocks
                (λ b q. omega arith) below,
        )
  close_run-Ready (r ∷ rs) s a m n run below ok e = map_block-Found k r rs s a m n run below ok e

  map_runs-Found :
      (rs run : List MemoryInfo) (s a : ℕ) (m n : Manager)
      → Covers k a rs
      → IsRun s run a
      → IsBelow s m.blocks
      → All (Found m.blocks) m.mappings
      → map_runs k (closed_runs run rs) m ≡ some n
      → All (Found n.blocks) n.mappings
  map_runs-Found [] run s a m n c is_run below ok e =
      let same : m ≡ n = unfold closed_runs map_runs in ground arith in
      subst (λ (q : Manager). All (Found q.blocks) q.mappings) same ok
  map_runs-Found (r ∷ rs) run s a m n c is_run below ok e = elim (Bool-cases (r.type == 0)) [
    | inr used ↦
        map_runs-Found rs (run ++ r ∷ []) s (a + r.size) m n c.4
          (IsRun-append s a run r is_run c.1 c.2 c.3) below ok
          (sym (ap (λ l. map_runs k l m) (closed_runs-used run rs r used)) ∙ e)
    | inl free ↦
        let e' : map_runs k (run ∷ closed_runs [] rs) m ≡ some n =
          sym (ap (λ l. map_runs k l m) (closed_runs-free run rs r free)) ∙ e in
        elim (Option-cases (close_run k run m)) [
          | inl refused ↦
              absurd (let no = sym (map_runs-none k run (closed_runs [] rs) m refused) ∙ e' in cc)
          | inr (q, done) ↦
              let (found, lower) = close_run-Ready run s a m q is_run below ok done in
              map_runs-Found rs [] (a + r.size) (a + r.size) q n c.4 (refl, c.3)
                (lower (a + r.size) (omega (arith, c.2))) found
                (sym (map_runs-some k run (closed_runs [] rs) m q done) ∙ e')
        ]
  ]

  -- Where `mapBlocks` succeeds on a memory of regions, `get` answers for the address of each region
  -- that was given to `svcMapProcessMemory` where it was mapped to.
  pub map_blocks-get :
      (fuel : ℕ) (rs : List MemoryInfo) (n : Manager)
      → Covers k 0 rs
      → longest 0 rs ≤ 256
      → length rs < fuel
      → map_blocks k fuel empty ≡ mapped n
      → All (λ c. get n.blocks c.src ≡ c.dst) n.mappings
  map_blocks-get fuel rs n c short enough e =
      let runs : outcome (map_runs k (closed_runs [] rs) empty) ≡ mapped n =
        sym (map_blocks-runs k fuel rs empty c short enough) ∙ e in
      elim (Option-cases (map_runs k (closed_runs [] rs) empty)) [
        | inl refused ↦ absurd (ground arith)
        | inr (q, done) ↦
            let same : q ≡ n = ground arith in
            let all_found = map_runs-Found rs [] 0 0 empty q c (refl, omega arith) tt tt done in
            subst (λ (l : Manager). All (λ c. get l.blocks c.src ≡ c.dst) l.mappings) same
              (All-map (Found q.blocks) (λ c. get q.blocks c.src ≡ c.dst) q.mappings
                (λ c f. get-found q.blocks c.src f.0 f.1 ∙ sym f.2) all_found)
      ]
