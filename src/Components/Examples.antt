-- ===== src/Components/Examples.antt =====
-- Tests of the deletion pass, and its theorems at a debugging session that has been closed: its module
-- list and the session itself are neighbours, and both are marked.
use nxdb.Common.{◌+◌, ◌*◌, ◌≤◌, ◌≡◌, refl, true, false, [], ◌∷◌, length}
use nxdb.Components.{
  Component, SharedData, register_component, queue_for_deletion, reap_from, handle_dead_components,
}
use nxdb.Components.Laws.{alive, count_doomed, handle_dead_components_lem}

abbrev main_window : Component
main_window = record { address = 1; doomed = false }

abbrev module_list : Component
module_list = record { address = 2; doomed = true }

abbrev session : Component
session = record { address = 3; doomed = true }

abbrev closed_session : SharedData
closed_session = record { components = main_window ∷ module_list ∷ session ∷ []; freed = [] }

one_pass :
    handle_dead_components closed_session
    ≡ record { components = main_window ∷ session ∷ []; freed = 2 ∷ [] }
unfolding handle_dead_components reap_from
one_pass = refl

marked :
    queue_for_deletion 2 (main_window ∷ record module_list { doomed = false } ∷ [])
    ≡ main_window ∷ module_list ∷ []
unfolding queue_for_deletion
marked = refl

registered :
    (register_component session (record { components = []; freed = [] })).components ≡ session ∷ []
unfolding register_component
registered = refl

handle_dead_components_lem_example :
    (alive (handle_dead_components closed_session).components ≡ alive closed_session.components)
    × (2 * count_doomed (handle_dead_components closed_session).components
        ≤ count_doomed closed_session.components)
    × (length (handle_dead_components closed_session).freed
          + count_doomed (handle_dead_components closed_session).components
        ≡ 0 + count_doomed closed_session.components)
handle_dead_components_lem_example = handle_dead_components_lem closed_session
