-- ===== src/Components.antt =====
-- sysmodule/source/nxdb/Component.h and Component.cpp: the windows of the interface, and how those
-- that are marked for deletion are taken out between two frames.
pub mod Reaping
pub mod Laws
pub mod Single
mod Examples
use nxdb.Common.{
  ℕ, zero, suc, ◌+◌, Bool, true, false, List, [], ◌∷◌, ◌++◌, none, some, ◌==◌, if◌then◌else◌,
  length, get_elem?, erase_at,
}

-- A component is known by its address; `doomed` is `mDelete`.
pub record Component : Type 0 where
  pub address : ℕ
  pub doomed : Bool

-- `components`, and the addresses given to `delete` so far.
pub record SharedData : Type 0 where
  pub components : List Component
  pub freed : List ℕ

unfoldable pub register_component : Component → SharedData → SharedData
register_component c d = record d { components = d.components ++ c ∷ [] }

-- `Component::queueForDeletion` of the component at an address.
unfoldable pub queue_for_deletion : ℕ → List Component → List Component
queue_for_deletion a [] = []
queue_for_deletion a (c ∷ cs) =
    (if c.address == a then record c { doomed = true } else c) ∷ queue_for_deletion a cs

-- The body of the loop at a component that it finds at `i`.
unfoldable pub reap_at : ℕ → Component → SharedData → SharedData
reap_at i c d =
    if c.doomed
    then record { components = erase_at d.components i; freed = d.freed ++ c.address ∷ [] }
    else d

-- `for (int i = 0; i < components.size(); i++)`. A round makes `components.size() - i` smaller, so
-- the size at the start is fuel enough.
unfoldable pub reap_from : ℕ → ℕ → SharedData → SharedData
unfolding reap_at
reap_from zero i d = d
reap_from (suc fuel) i d = elim (get_elem? d.components i) [
  | none ↦ d
  | some c ↦ reap_from fuel (i + 1) (reap_at i c d)
]

unfoldable pub handle_dead_components : SharedData → SharedData
handle_dead_components d = reap_from (length d.components) 0 d
