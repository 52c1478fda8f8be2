-- ===== src/Windows/Calm.antt =====
-- Frames in which the user closes and opens nothing.
use nxdb.Common.{
  ℕ, ◌+◌, ◌≡◌, refl, true, false, ◌&&◌, List, [], ◌∷◌, ◌++◌, All, Bool-cases, inl, inr, ltb, take,
}
use nxdb.Components.{Component}
use nxdb.Processes.{Process, listed, max_pids, get_process_list}
use nxdb.Windows.{
  Main, Window, main_window, session, module_list, Ui, Input, shown, is_live, show_rows, show_table,
  count_frame, update_main, update_window, update_all,
}

-- No row is double-clicked, and the process list can be had.
pub record IsCalm (input : Input) : Type 0 where
  pub no_click : (row : ℕ) → input.double_clicked row ≡ false
  pub lists :
      (list : List Process)
      → (n : ℕ) × (out : List Process) × (get_process_list input.system list max_pids
          ≡ listed n out)

show_rows_calm :
    (input : Input) (i : ℕ) (ps : List Process) (ui : Ui)
    → ((row : ℕ) → input.double_clicked row ≡ false)
    → show_rows input i ps ui ≡ shown ui
unfolding show_rows
show_rows_calm input i [] ui h = refl
show_rows_calm input i (p ∷ ps) ui h = rw (show_rows, h i) (show_rows_calm input (i + 1) ps ui h)

pub show_table_calm :
    (input : Input) (ui : Ui)
    → ((row : ℕ) → input.double_clicked row ≡ false)
    → show_table input ui ≡ shown ui
unfolding show_table
show_table_calm input ui h = elim (Bool-cases (input.begin && input.begin_table)) [
  | inl open_table ↦
      rw open_table (show_rows_calm input 0 (take ui.main.num_processes ui.main.process_list) ui h)
  | inr shut_table ↦ rw shut_table refl
]

pub update_main_calm :
    (input : Input) (ui : Ui)
    → IsCalm input
    → (m : Main) × (update_main input ui ≡ shown (record ui { main = m }))
unfolding update_main count_frame
update_main_calm input ui c =
    elim (Bool-cases (ltb 360 ui.main.frames_since_last_process_list_update)) [
      | inr recent ↦
          let counted = count_frame ui in
          (counted.main, rw (update_main, recent) (show_table_calm input counted c.no_click))
      | inl due ↦
          let (n, out, e) = c.lists ui.main.process_list in
          let fresh = count_frame (record ui {
            main = record {
              num_processes = n;
              process_list = out;
              frames_since_last_process_list_update = 0;
            };
          }) in
          (fresh.main, rw (update_main, due, e) (show_table_calm input fresh c.no_click))
    ]

-- The window is not closed, and a module list has its session among the components.
abbrev pub Stays : Input → List Component → ℕ → Window → Type 0
Stays input cs a main_window = Unit
Stays input cs a (session list) = input.closed a ≡ false
Stays input cs a (module_list s) = is_live s cs ≡ true

pub update_window_calm :
    (input : Input) (a : ℕ) (w : Window) (ui : Ui)
    → IsCalm input
    → Stays input ui.shared.components a w
    → (m : Main) × (update_window input a w ui ≡ shown (record ui { main = m }))
unfolding update_window
update_window_calm input a main_window ui c s = update_main_calm input ui c
update_window_calm input a (session list) ui c s = (ui.main, rw (update_window, s) refl)
update_window_calm input a (module_list o) ui c s = (ui.main, rw (update_window, s) refl)

abbrev pub AllStay : Input → (ℕ → Window) → List Component → List Component → Type 0
AllStay input windows all cs = All (λ c. Stays input all c.address (windows c.address)) cs

-- Calm windows in front of others.
pub update_all_calm :
    (input : Input) (cs rest : List Component) (ui : Ui)
    → IsCalm input
    → AllStay input ui.windows ui.shared.components cs
    → (m : Main) × (update_all input (cs ++ rest) ui
        ≡ update_all input rest (record ui { main = m }))
unfolding update_all
update_all_calm input [] rest ui c stay = (ui.main, refl)
update_all_calm input (d ∷ cs) rest ui c stay =
    let (m, e) = update_window_calm input d.address (ui.windows d.address) ui c stay.0 in
    let (m', e') = update_all_calm input cs rest (record ui { main = m }) c stay.1 in
    (m', rw (update_all, e) e')
