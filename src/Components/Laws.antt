-- ===== src/Components/Laws.antt =====
-- The guarantees of `handleDeadComponents`, and the frame by which it is late.
use nxdb.Common.{
  ℕ, zero, suc, ◌+◌, ◌*◌, ◌^◌, ◌≤◌, ◌<◌, ◌≡◌, refl, ap, ◌∙◌, true, false, List, [], ◌∷◌, ◌++◌,
  arith, if◌then◌else◌, length, length-append, All,
}
use native.Mathlib.Nat.{pow-suc}
use nxdb.Components.{Component, SharedData, handle_dead_components}
use nxdb.Components.Reaping.{kept, reaped, handle_dead_components-kept}

-- The components that are not marked, and how many are.
unfoldable pub alive : List Component → List Component
alive [] = []
alive (c ∷ cs) = if c.doomed then alive cs else c ∷ alive cs

unfoldable pub count_doomed : List Component → ℕ
count_doomed [] = 0
count_doomed (c ∷ cs) = (if c.doomed then 1 else 0) + count_doomed cs

kept-alive : (cs : List Component) → alive (kept cs) ≡ alive cs
unfolding alive kept
kept-alive [] = refl
kept-alive (c ∷ []) = ground arith
kept-alive (c ∷ d ∷ cs) = ground (arith, kept-alive cs, kept-alive (d ∷ cs))

kept_halves : (cs : List Component) → 2 * count_doomed (kept cs) ≤ count_doomed cs
unfolding count_doomed kept
kept_halves [] = omega arith
kept_halves (c ∷ []) = ground arith
kept_halves (c ∷ d ∷ cs) = ground (arith, kept_halves cs, kept_halves (d ∷ cs))

length-reaped :
    (cs : List Component) → length (reaped cs) + count_doomed (kept cs) ≡ count_doomed cs
unfolding count_doomed kept reaped
length-reaped [] = omega arith
length-reaped (c ∷ []) = ground arith
length-reaped (c ∷ d ∷ cs) = ground (arith, length-reaped cs, length-reaped (d ∷ cs))

-- One pass keeps the components that are not marked, in order, leaves at most half of the marked
-- ones, and frees the others, each once.
pub handle_dead_components_lem :
    (d : SharedData)
    → let r = handle_dead_components d in
      (alive r.components ≡ alive d.components)
      × (2 * count_doomed r.components ≤ count_doomed d.components)
      × (length r.freed + count_doomed r.components ≡ length d.freed + count_doomed d.components)
handle_dead_components_lem d = rw (handle_dead_components-kept d) (
  kept-alive d.components,
  kept_halves d.components,
  omega (arith, length-append d.freed (reaped d.components), length-reaped d.components),
)

unfoldable pub frames : ℕ → SharedData → SharedData
frames zero d = d
frames (suc n) d = frames n (handle_dead_components d)

-- Fewer than 2 ^ n marked components are all gone after n frames, and no other is.
frames_clear :
    (n : ℕ) (d : SharedData)
    → count_doomed d.components < 2 ^ n
    → (count_doomed (frames n d).components ≡ 0)
      × (alive (frames n d).components ≡ alive d.components)
unfolding frames
frames_clear zero d h = (omega arith, refl)
frames_clear (suc n) d h =
    let (same, halved, _) = handle_dead_components_lem d in
    let (none_left, kept_all) =
      frames_clear n (handle_dead_components d) (omega (arith, pow-suc 2 n, halved)) in
    (none_left, kept_all ∙ same)

pub kept_cons :
    (c : Component) (cs : List Component) → c.doomed ≡ false → kept (c ∷ cs) ≡ c ∷ kept cs
unfolding kept
kept_cons c [] e = simp e
kept_cons c (d ∷ cs) e = simp e

kept_neighbour :
    (pre cs : List Component) (b c : Component)
    → All (λ a. a.doomed ≡ false) pre
    → b.doomed ≡ true
    → kept (pre ++ b ∷ c ∷ cs) ≡ pre ++ c ∷ kept cs
kept_neighbour [] cs b c live dead = unfold kept in simp dead
kept_neighbour (a ∷ pre) cs b c live dead =
    kept_cons a (pre ++ b ∷ c ∷ cs) live.0 ∙ ap (◌∷◌ a) (kept_neighbour pre cs b c live.1 dead)

-- The second of two marked neighbours behind live components is still there after the pass.
neighbour_survives :
    (d : SharedData) (pre cs : List Component) (b c : Component)
    → d.components ≡ pre ++ b ∷ c ∷ cs
    → All (λ a. a.doomed ≡ false) pre
    → b.doomed ≡ true
    → (handle_dead_components d).components ≡ pre ++ c ∷ kept cs
neighbour_survives d pre cs b c e live dead =
    ap (λ r. r.components) (handle_dead_components-kept d)
    ∙ ap kept e
    ∙ kept_neighbour pre cs b c live dead
