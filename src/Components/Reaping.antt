-- ===== src/Components/Reaping.antt =====
-- What one pass of `handleDeadComponents` takes out and what it leaves.
use nxdb.Common.{
  ℕ, zero, suc, ◌+◌, ◌≤◌, ◌≡◌, refl, sym, ap, ◌∙◌, inl, inr, true, false, List, [], ◌∷◌, ◌++◌,
  arith, if◌then◌else◌, length, Bool-cases, append_assoc, append-nil, length-append,
  get_elem?-middle, get_elem?-past, erase_at-middle,
}
use nxdb.Components.{Component, SharedData, reap_from, handle_dead_components}

-- The components that a pass keeps: the one behind a deleted component is passed over.
unfoldable pub kept : List Component → List Component
kept [] = []
kept (c ∷ []) = if c.doomed then [] else c ∷ []
kept (c ∷ d ∷ cs) = let rest = kept (d ∷ cs) in if c.doomed then d ∷ kept cs else c ∷ rest

-- The addresses that it frees, in order.
unfoldable pub reaped : List Component → List ℕ
reaped [] = []
reaped (c ∷ []) = if c.doomed then c.address ∷ [] else []
reaped (c ∷ d ∷ cs) = let rest = reaped (d ∷ cs) in if c.doomed then c.address ∷ reaped cs else rest

reap_past : (fuel i : ℕ) (d : SharedData) → length d.components ≤ i → reap_from fuel i d ≡ d
unfolding reap_from
reap_past zero i d h = refl
reap_past (suc fuel) i d h = rw (get_elem?-past d.components i h, reap_from) refl

module _ (fuel i : ℕ) (pre : List Component) (c : Component) (cs : List Component) (fr : List ℕ)
    (at : i ≡ length pre) where
  reap_from-doomed :
      c.doomed ≡ true
      → reap_from (suc fuel) i (record { components = pre ++ c ∷ cs; freed = fr })
        ≡ reap_from fuel (i + 1) (record { components = pre ++ cs; freed = fr ++ c.address ∷ [] })
  unfolding reap_from
  reap_from-doomed e =
      rw (get_elem?-middle i pre c cs at, reap_from) (simp (e, erase_at-middle i pre c cs at))

  reap_from-alive :
      c.doomed ≡ false
      → reap_from (suc fuel) i (record { components = pre ++ c ∷ cs; freed = fr })
        ≡ reap_from fuel (i + 1) (record { components = pre ++ c ∷ cs; freed = fr })
  unfolding reap_from
  reap_from-alive e = rw (get_elem?-middle i pre c cs at, reap_from) (simp e)

abbrev after : List Component → List Component → List ℕ → List ℕ → SharedData
after pre cs fr gs = record { components = pre ++ cs; freed = fr ++ gs }

after_assoc :
    (pre : List Component) (c : Component) (cs : List Component) (fr gs : List ℕ)
    → after (pre ++ c ∷ []) cs fr gs ≡ after pre (c ∷ cs) fr gs
after_assoc pre c cs fr gs = rw (append_assoc pre (c ∷ []) cs) refl

reap_from-kept :
    (fuel i : ℕ) (pre cs : List Component) (fr : List ℕ)
    → i ≡ length pre
    → length cs ≤ fuel
    → reap_from fuel i (record { components = pre ++ cs; freed = fr })
      ≡ after pre (kept cs) fr (reaped cs)
unfolding kept reaped
reap_from-kept fuel i pre [] fr at h =
    reap_past fuel i _ (omega (arith, ap length (append-nil pre)))
    ∙ ap (λ f. record { components = pre ++ []; freed = f }) (sym (append-nil fr))
reap_from-kept zero i pre (c ∷ cs) fr at h = absurd (omega arith)
reap_from-kept (suc fuel) i pre (c ∷ []) fr at h = elim (Bool-cases c.doomed) [
  | inl dead ↦ simp dead (
      reap_from-doomed fuel i pre c [] fr at dead
      ∙ reap_past fuel (i + 1) _ (omega (arith, ap length (append-nil pre))))
  | inr live ↦ simp live (
      reap_from-alive fuel i pre c [] fr at live
      ∙ reap_past fuel (i + 1) _ (omega (arith, length-append pre (c ∷ [])))
      ∙ ap (λ f. record { components = pre ++ c ∷ []; freed = f }) (sym (append-nil fr)))
]
reap_from-kept (suc fuel) i pre (c ∷ d ∷ cs) fr at h = elim (Bool-cases c.doomed) [
  | inl dead ↦ simp dead (
      reap_from-doomed fuel i pre c (d ∷ cs) fr at dead
      ∙ ap (λ l. reap_from fuel (i + 1) (record { components = l; freed = fr ++ c.address ∷ [] }))
          (sym (append_assoc pre (d ∷ []) cs))
      ∙ reap_from-kept fuel (i + 1) (pre ++ d ∷ []) cs (fr ++ c.address ∷ [])
          (omega (arith, length-append pre (d ∷ []))) (omega arith)
      ∙ after_assoc pre d (kept cs) (fr ++ c.address ∷ []) (reaped cs)
      ∙ ap (λ f. record { components = pre ++ d ∷ kept cs; freed = f })
          (append_assoc fr (c.address ∷ []) (reaped cs)))
  | inr live ↦ simp live (
      reap_from-alive fuel i pre c (d ∷ cs) fr at live
      ∙ ap (λ l. reap_from fuel (i + 1) (record { components = l; freed = fr }))
          (sym (append_assoc pre (c ∷ []) (d ∷ cs)))
      ∙ reap_from-kept fuel (i + 1) (pre ++ c ∷ []) (d ∷ cs) fr
          (omega (arith, length-append pre (c ∷ []))) (omega arith)
      ∙ after_assoc pre c (kept (d ∷ cs)) fr (reaped (d ∷ cs)))
]

-- One pass keeps `kept` and frees `reaped`.
pub handle_dead_components-kept :
    (d : SharedData)
    → handle_dead_components d
      ≡ record { components = kept d.components; freed = d.freed ++ reaped d.components }
unfolding handle_dead_components
handle_dead_components-kept d =
    reap_from-kept (length d.components) 0 [] d.components d.freed refl (omega arith)
