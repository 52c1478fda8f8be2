-- ===== src/Session/Modules.antt =====
-- `findModules` against the layout of the debugged process.
use nxdb.Common.{
  ℕ, zero, suc, ◌+◌, ◌≤◌, ◌<◌, ◌≡◌, refl, sym, ap, ◌∙◌, Bool, true, false, ◌||◌, ◌&&◌, not,
  Bool-cases, inl, inr, List, [], ◌∷◌, ◌++◌, append_assoc, append-nil, some, arith, ltb, leb,
  leb→le, not_leb→lt, ◌==◌, if◌then◌else◌, length, length-append,
}
use nxdb.MemoryMap.{word}
use nxdb.Session.{
  Target, Region, Module, found, overruns, max_modules, is_module, module_of, add_module, find_from,
  find_modules,
}

module _ (t : Target) where
  -- The loop ends behind this region.
  abbrev pub ends_at : ℕ → Region → Bool
  ends_at addr r = r.type == t.reserved || ltb (word (r.addr + r.size)) addr

  -- From `addr` on the kernel describes the memory as `r` and the regions `rs` behind it, of which the
  -- last is the one at which the loop ends.
  abbrev pub Describes : ℕ → Region → List Region → Type 0
  Describes addr r [] = (t.query addr ≡ some r) × (ends_at addr r ≡ true)
  Describes addr r (q ∷ rs) =
      (t.query addr ≡ some r) × (ends_at addr r ≡ false) × Describes (word (r.addr + r.size)) q rs

  -- The modules among the regions.
  unfoldable pub modules_in : List Region → List Module
  modules_in [] = []
  modules_in (r ∷ rs) =
      let rest = modules_in rs in if is_module t r then module_of t r ∷ rest else rest

  add_module-modules_in :
      (mods : List Module) (r : Region) → add_module t mods r ≡ mods ++ modules_in (r ∷ [])
  unfolding add_module modules_in
  add_module-modules_in mods r = elim (Bool-cases (is_module t r)) [
    | inl code ↦ rw code refl
    | inr other ↦ rw (other, append-nil mods) refl
  ]

  -- There is room for the region, whether it is a module or not.
  not_full :
      (r : Region) (n : ℕ)
      → n + length (modules_in (r ∷ [])) ≤ max_modules
      → (is_module t r && not (ltb n max_modules)) ≡ false
  unfolding modules_in
  not_full r n room = elim (Bool-cases (is_module t r)) [
    | inl code ↦ ground arith
    | inr other ↦ rw other refl
  ]

  -- One round at a region, whether it is a module or not.
  find_from-step :
      (fuel addr : ℕ) (r : Region) (mods : List Module)
      → t.query addr ≡ some r
      → length mods + length (modules_in (r ∷ [])) ≤ max_modules
      → find_from t (suc fuel) addr mods ≡ elim (ends_at addr r) [
        | true ↦ found (mods ++ modules_in (r ∷ []))
        | false ↦ find_from t fuel (word (r.addr + r.size)) (mods ++ modules_in (r ∷ []))
      ]
  unfolding find_from
  find_from-step fuel addr r mods e room =
      rw (find_from, e, not_full r (length mods) room)
        (ap
          (λ ms. elim (ends_at addr r) [
            | true ↦ found ms
            | false ↦ find_from t fuel (word (r.addr + r.size)) ms
          ])
          (add_module-modules_in mods r))

  -- What the rounds from `addr` on find, as far as there is room for it.
  modules_in-cons :
      (r : Region) (rs : List Region) → modules_in (r ∷ rs) ≡ modules_in (r ∷ []) ++ modules_in rs
  unfolding modules_in
  modules_in-cons r rs = elim (Bool-cases (is_module t r)) [
    | inl code ↦ rw code refl
    | inr other ↦ rw other refl
  ]

  modules_in-length :
      (r : Region) (rs : List Region)
      → length (modules_in (r ∷ rs)) ≡ length (modules_in (r ∷ [])) + length (modules_in rs)
  modules_in-length r rs =
      ap length (modules_in-cons r rs) ∙ length-append (modules_in (r ∷ [])) (modules_in rs)

  find_from-modules :
      (fuel addr : ℕ) (r : Region) (rs : List Region) (mods : List Module)
      → Describes addr r rs
      → length rs < fuel
      → length mods + length (modules_in (r ∷ rs)) ≤ max_modules
      → find_from t fuel addr mods ≡ found (mods ++ modules_in (r ∷ rs))
  find_from-modules zero addr r rs mods d enough room = absurd (omega arith)
  find_from-modules (suc fuel) addr r [] mods d enough room =
      find_from-step fuel addr r mods d.0 room ∙ rw d.1 refl
  find_from-modules (suc fuel) addr r (q ∷ rs) mods d enough room =
      let split = modules_in-cons r (q ∷ rs) in
      let both = modules_in-length r (q ∷ rs) in
      let more = length-append mods (modules_in (r ∷ [])) in
      find_from-step fuel addr r mods d.0 (omega arith)
      ∙ rw d.1 (
          find_from-modules fuel (word (r.addr + r.size)) q rs (mods ++ modules_in (r ∷ [])) d.2
            (omega arith) (omega arith)
          ∙ ap found (
              append_assoc mods (modules_in (r ∷ [])) (modules_in (q ∷ rs))
              ∙ ap (◌++◌ mods) (sym split)))

  find_from-full :
      (fuel addr : ℕ) (r : Region) (mods : List Module)
      → t.query addr ≡ some r
      → length mods ≤ max_modules
      → max_modules < length mods + length (modules_in (r ∷ []))
      → find_from t (suc fuel) addr mods ≡ overruns
  unfolding find_from modules_in
  find_from-full fuel addr r mods e inside over = elim (Bool-cases (is_module t r)) [
    | inl code ↦
        let full : ltb (length mods) max_modules ≡ false = ground arith in
        rw (find_from, modules_in, e, code, full) refl
    | inr other ↦ absurd (ground arith)
  ]

  -- With no room for them all the loop comes to the one that is written behind the array.
  find_from-overrun :
      (fuel addr : ℕ) (r : Region) (rs : List Region) (mods : List Module)
      → Describes addr r rs
      → length rs < fuel
      → length mods ≤ max_modules
      → max_modules < length mods + length (modules_in (r ∷ rs))
      → find_from t fuel addr mods ≡ overruns
  find_from-overrun zero addr r rs mods d enough inside over = absurd (omega arith)
  find_from-overrun (suc fuel) addr r [] mods d enough inside over =
      find_from-full fuel addr r mods d.0 inside over
  find_from-overrun (suc fuel) addr r (q ∷ rs) mods d enough inside over =
      elim (Bool-cases (leb (length mods + length (modules_in (r ∷ []))) max_modules)) [
        | inr full ↦ find_from-full fuel addr r mods d.0 inside (not_leb→lt _ _ full)
        | inl room ↦
            let both = modules_in-length r (q ∷ rs) in
            let more = length-append mods (modules_in (r ∷ [])) in
            let room' = leb→le _ _ room in
            find_from-step fuel addr r mods d.0 room'
            ∙ rw d.1 (
                find_from-overrun fuel (word (r.addr + r.size)) q rs (mods ++ modules_in (r ∷ []))
                  d.2 (omega arith) (omega arith) (omega arith))
      ]

  -- On a memory that the kernel describes as regions of which at most 13 are modules, with more fuel than
  -- there are regions behind the first, findModules comes to its end and finds the modules in order.
  pub find_modules_lem :
      (fuel : ℕ) (r : Region) (rs : List Region)
      → Describes 0 r rs
      → length rs < fuel
      → length (modules_in (r ∷ rs)) ≤ max_modules
      → find_modules t fuel ≡ found (modules_in (r ∷ rs))
  unfolding find_modules
  find_modules_lem fuel r rs d enough room = find_from-modules fuel 0 r rs [] d enough (omega arith)

  -- On such a memory with more than 13 modules, findModules writes behind its array of modules.
  pub find_modules_overrun :
      (fuel : ℕ) (r : Region) (rs : List Region)
      → Describes 0 r rs
      → length rs < fuel
      → max_modules < length (modules_in (r ∷ rs))
      → find_modules t fuel ≡ overruns
  unfolding find_modules
  find_modules_overrun fuel r rs d enough over =
      find_from-overrun fuel 0 r rs [] d enough (omega arith) (omega arith)
