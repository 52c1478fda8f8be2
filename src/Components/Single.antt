-- ===== src/Components/Single.antt =====
-- A pass of `handleDeadComponents` with no marked component, and with one that is marked or two side by
-- side.
use nxdb.Common.{◌≡◌, refl, ap, ◌∙◌, true, false, List, [], ◌∷◌, ◌++◌, All, append-nil, ℕ}
use nxdb.Components.{Component, handle_dead_components}
use nxdb.Components.Laws.{kept_cons}
use nxdb.Components.Reaping.{kept, reaped, handle_dead_components-kept}

abbrev pub AllAlive : List Component → Type 0
AllAlive cs = All (λ c. c.doomed ≡ false) cs

-- All but the first.
abbrev pub RestAlive : List Component → Type 0
RestAlive [] = Unit
RestAlive (c ∷ cs) = AllAlive cs

reaped-alive_cons :
    (c : Component) (cs : List Component) → c.doomed ≡ false → reaped (c ∷ cs) ≡ reaped cs
unfolding reaped
reaped-alive_cons c [] e = simp e
reaped-alive_cons c (d ∷ cs) e = simp e

kept_all : (cs : List Component) → AllAlive cs → kept cs ≡ cs
kept_all [] live = unfold kept in refl
kept_all (c ∷ cs) live = kept_cons c cs live.0 ∙ ap (◌∷◌ c) (kept_all cs live.1)

reaped_none : (cs : List Component) → AllAlive cs → reaped cs ≡ []
reaped_none [] live = unfold reaped in refl
reaped_none (c ∷ cs) live = reaped-alive_cons c cs live.0 ∙ reaped_none cs live.1

kept_once :
    (pre cs : List Component) (b : Component)
    → AllAlive pre
    → b.doomed ≡ true
    → RestAlive cs
    → kept (pre ++ b ∷ cs) ≡ pre ++ cs
kept_once [] [] b live dead rest = unfold kept in simp dead
kept_once [] (c ∷ cs) b live dead rest = unfold kept in simp dead (ap (◌∷◌ c) (kept_all cs rest))
kept_once (a ∷ pre) cs b live dead rest =
    kept_cons a (pre ++ b ∷ cs) live.0 ∙ ap (◌∷◌ a) (kept_once pre cs b live.1 dead rest)

reaped_once :
    (pre cs : List Component) (b : Component)
    → AllAlive pre
    → b.doomed ≡ true
    → RestAlive cs
    → reaped (pre ++ b ∷ cs) ≡ b.address ∷ []
reaped_once [] [] b live dead rest = unfold reaped in simp dead
reaped_once [] (c ∷ cs) b live dead rest =
    unfold reaped in simp dead (ap (◌∷◌ b.address) (reaped_none cs rest))
reaped_once (a ∷ pre) cs b live dead rest =
    reaped-alive_cons a (pre ++ b ∷ cs) live.0 ∙ reaped_once pre cs b live.1 dead rest

pub handle_dead_components_none :
    (cs : List Component) (freed : List ℕ)
    → AllAlive cs
    → handle_dead_components (record { components = cs; freed = freed })
      ≡ record { components = cs; freed = freed }
handle_dead_components_none cs freed live =
    handle_dead_components-kept (record { components = cs; freed = freed })
    ∙ rw (kept_all cs live, reaped_none cs live, append-nil freed) refl

-- The component behind the marked one may be marked too: it stays.
pub handle_dead_components_once :
    (pre cs : List Component) (b : Component) (freed : List ℕ)
    → AllAlive pre
    → b.doomed ≡ true
    → RestAlive cs
    → handle_dead_components (record { components = pre ++ b ∷ cs; freed = freed })
      ≡ record { components = pre ++ cs; freed = freed ++ b.address ∷ [] }
handle_dead_components_once pre cs b freed live dead rest =
    handle_dead_components-kept (record { components = pre ++ b ∷ cs; freed = freed })
    ∙ rw (kept_once pre cs b live dead rest, reaped_once pre cs b live dead rest) refl
