-- ===== src/MemoryMap/Release.antt =====
-- The destructor against `mapBlocks`: which mappings of a block are undone.
use nxdb.Common.{
  ℕ, zero, suc, ◌+◌, ◌-◌, ◌^◌, ◌≤◌, ◌<◌, ◌≡◌, ◌≢◌, refl, sym, ap, ◌∙◌, Bool, true, false, ◌||◌,
  List, [], ◌∷◌, ◌++◌, Option, none, some, arith, All, length, leb, ◌==◌, Bool-cases, inl, inr,
  append-nil, append_assoc, Option-cases,
}
use nxdb.MemoryMap.{
  Kernel, MemoryInfo, MapBlock, Mapping, word, skipped, map_regions, unmap_from, unmap,
}
use nxdb.MemoryMap.Blocks.{IsRun, run-le}

-- What `map_regions` calls for regions of which none is skipped.
unfoldable pub calls_of : ℕ → ℕ → List MemoryInfo → List Mapping
calls_of base first [] = []
calls_of base first (r ∷ rs) =
    record { dst = base + (r.addr - first); src = r.addr; size = r.size } ∷ calls_of base first rs

-- From `addr` on the own memory shows the regions as they were mapped, and behind them something that
-- is free, or the end of the block, or no region at all.
abbrev pub Shows : (ℕ → Option MemoryInfo) → ℕ → MapBlock → List MemoryInfo → Type 0
Shows own addr b [] =
    (info : MemoryInfo) × (own addr ≡ some info)
    × ((info.type == 0 || leb (b.start_mapped + b.size) addr) ≡ true)
Shows own addr b (r ∷ rs) =
    (info : MemoryInfo) × (own addr ≡ some info)
    × (info.size ≡ r.size)
    × (info.type ≢ 0)
    × Shows own (addr + r.size) b rs

module _ (own : ℕ → Option MemoryInfo) (b : MapBlock)
    (below : b.start_mapped + b.size < 0x80_0000_0000)
    (in_words : b.start_orig + b.size < 2 ^ 64) where
  abbrev ends : ℕ → MemoryInfo → Bool
  ends addr info =
      word (addr + info.size) == 0x80_0000_0000
      || info.type == 0
      || leb (word (b.start_mapped + b.size)) addr

  unmap_from_stop :
      (fuel addr : ℕ) (info : MemoryInfo)
      → own addr ≡ some info
      → ends addr info ≡ true
      → unmap_from own (suc fuel) addr b ≡ some []
  unfolding unmap_from
  unmap_from_stop fuel addr info q stops = rw (unmap_from, q, stops) refl

  unmap_from_go :
      (fuel addr : ℕ) (info : MemoryInfo) (calls : List Mapping)
      → own addr ≡ some info
      → ends addr info ≡ false
      → unmap_from own fuel (word (addr + info.size)) b ≡ some calls
      → unmap_from own (suc fuel) addr b
        ≡ some (
            record {
              dst = addr;
              src = word (word (addr + 2 ^ 64 - b.start_mapped) + b.start_orig);
              size = info.size;
            }
            ∷ calls)
  unfolding unmap_from
  unmap_from_go fuel addr info calls q goes rest = rw (unmap_from, q, goes, rest) refl

  unmap_from-calls_of :
      (fuel addr a : ℕ) (rs : List MemoryInfo) (e : ℕ)
      → b.start_orig ≤ a
      → addr ≡ b.start_mapped + (a - b.start_orig)
      → IsRun a rs e
      → e ≤ b.start_orig + b.size
      → Shows own addr b rs
      → length rs < fuel
      → unmap_from own fuel addr b ≡ some (calls_of b.start_mapped b.start_orig rs)
  unfolding calls_of
  unmap_from-calls_of zero addr a rs e low at run high shows enough = absurd (omega arith)
  unmap_from-calls_of (suc fuel) addr a [] e low at run high (info, q, stops) enough =
      let within : word (b.start_mapped + b.size) ≡ b.start_mapped + b.size = omega arith in
      unmap_from_stop fuel addr info q (ground (arith, within, stops))
  unmap_from-calls_of (suc fuel) addr a (r ∷ rs) e low at run high (info, q, same, used, shows)
        enough =
      let (upper, _) = run-le (a + r.size) rs e run.2 in
      let inside : addr + r.size ≤ b.start_mapped + b.size = omega arith in
      let step : word (addr + info.size) ≡ addr + r.size = omega arith in
      let goes : ends addr info ≡ false = ground arith in
      let rest =
        unmap_from-calls_of fuel (addr + r.size) (a + r.size) rs e (omega arith) (omega arith) run.2
          high shows (omega arith) in
      unmap_from_go fuel addr info (calls_of b.start_mapped b.start_orig rs) q goes
        (ap (λ n. unmap_from own fuel n b) step ∙ rest)
      ∙ ap (λ c. some (c ∷ calls_of b.start_mapped b.start_orig rs)) (ground arith)

add : List Mapping → Option (List Mapping) → Option (List Mapping)
add out none = none
add out (some calls) = some (out ++ calls)

add_twice :
    (out calls : List Mapping) (m : Option (List Mapping))
    → add (out ++ calls) m ≡ add out (add calls m)
unfolding add
add_twice out calls none = refl
add_twice out calls (some rest) = ap some (append_assoc out calls rest)

module _ (k : Kernel) (base first : ℕ) where
  abbrev call : MemoryInfo → Mapping
  call r = record {
    dst = word (base + word (r.addr + 2 ^ 64 - first));
    src = r.addr;
    size = r.size;
  }

  -- The calls are added behind those made before.
  map_regions-out :
      (rs : List MemoryInfo) (out : List Mapping)
      → map_regions k base first rs out ≡ add out (map_regions k base first rs [])
  unfolding map_regions add
  map_regions-out [] out = ap some (sym (append-nil out))
  map_regions-out (r ∷ rs) out = elim (Bool-cases (skipped k r)) [
    | inl skip ↦ simp skip (map_regions-out rs out)
    | inr go ↦ elim (Bool-cases (k.map_succeeds (call r))) [
      | inl good ↦
          let c = call r in
          simp (go, good)
            (map_regions-out rs (out ++ c ∷ [])
              ∙ add_twice out (c ∷ []) (map_regions k base first rs [])
              ∙ ap (add out) (sym (map_regions-out rs (c ∷ []))))
      | inr bad ↦ simp (go, bad) refl
    ]
  ]

  -- Regions that are mapped, in front of others.
  map_regions-append :
      (size a e : ℕ) (front back : List MemoryInfo) (done : List Mapping)
      → base + size < 2 ^ 64
      → IsRun a front e
      → first ≤ a
      → e ≤ first + size
      → All (λ r. skipped k r ≡ false) front
      → map_regions k base first (front ++ back) [] ≡ some done
      → (rest : List Mapping) × (map_regions k base first back [] ≡ some rest)
        × (done ≡ calls_of base first front ++ rest)
  unfolding calls_of map_regions add
  map_regions-append size a e [] back done fits run low high mapped eq = (done, eq, refl)
  map_regions-append size a e (r ∷ front) back done fits run low high mapped eq =
      elim (Bool-cases (k.map_succeeds (call r))) [
        | inr bad ↦ absurd (let no : none ≡ some done = simp (mapped.0, bad) at eq in cc)
        | inl good ↦
            let eq' : map_regions k base first (front ++ back) (call r ∷ []) ≡ some done =
              simp (mapped.0, good) at eq in
            let added = sym (map_regions-out (front ++ back) (call r ∷ [])) ∙ eq' in
            elim (Option-cases (map_regions k base first (front ++ back) [])) [
              | inl refused ↦ absurd (let no : none ≡ some done = simp refused at added in cc)
              | inr (done', calls) ↦
                  let whole : some (call r ∷ done') ≡ some done = simp calls at added in
                  let (rest, behind, split) =
                    map_regions-append size (a + r.size) e front back done' fits run.2 (omega arith)
                      high mapped.1 calls in
                  let (upper, _) = run-le (a + r.size) front e run.2 in
                  let same : call r
                      ≡ record { dst = base + (r.addr - first); src = r.addr; size = r.size } =
                    ground arith in
                  (rest, behind, cc)
            ]
      ]

-- Of the mappings of a block, unmap undoes those of the regions in front of the first one that was not
-- mapped, each with the arguments it was made with, and leaves the others: the own memory shows the
-- regions as they were mapped, and behind them a free region or the end of the block.
pub unmap-map_regions :
    (own : ℕ → Option MemoryInfo) (k : Kernel) (b : MapBlock) (fuel e : ℕ)
    (front back : List MemoryInfo) (done : List Mapping)
    → b.start_mapped + b.size < 0x80_0000_0000
    → b.start_orig + b.size < 2 ^ 64
    → IsRun b.start_orig front e
    → e ≤ b.start_orig + b.size
    → All (λ r. skipped k r ≡ false) front
    → map_regions k b.start_mapped b.start_orig (front ++ back) [] ≡ some done
    → Shows own b.start_mapped b front
    → length front < fuel
    → (calls : List Mapping) × (rest : List Mapping) × (unmap own fuel b ≡ some calls)
      × (map_regions k b.start_mapped b.start_orig back [] ≡ some rest)
      × (done ≡ calls ++ rest)
unfolding unmap
unmap-map_regions own k b fuel e front back done below in_words run high mapped eq shows enough =
    let (rest, behind, split) =
      map_regions-append k b.start_mapped b.start_orig b.size b.start_orig e front back done
        (omega arith) run (omega arith) high mapped eq in
    (
      calls_of b.start_mapped b.start_orig front,
      rest,
      unmap_from-calls_of own b below in_words fuel b.start_mapped b.start_orig front e
          (omega arith) (omega arith) run high shows enough,
      behind,
      split,
    )
