-- ===== src/Windows.antt =====
-- sysmodule/source/nxdb/windows/MainWindow.h, MainWindow.cpp, DebuggingSessionGui.cpp and the
-- constructor in DebuggingSession.cpp: the windows, what they do in a frame, and the frame of
-- `showImGui` in sysmodule/source/nxdb/ImGuiLoop.cpp. What the user does is an input.
pub mod Calm
pub mod Marks
pub mod Closing
pub mod Refresh
mod Examples
use nxdb.Common.{
  ℕ, zero, suc, ◌+◌, Bool, true, false, ◌&&◌, ◌||◌, List, [], ◌∷◌, ◌++◌, Option, none, some, ltb,
  ◌==◌, if◌then◌else◌, take,
}
use nxdb.Components.{
  Component, SharedData, register_component, queue_for_deletion, handle_dead_components,
}
use nxdb.Session.Opening.{Opening, not_attached, attached, opening_aborts, opening_undefined}
use nxdb.Processes.{Process, System, listed, aborts, overruns, max_pids, get_process_list}

-- `MainWindow`, but for its base.
pub record Main : Type 0 where
  pub num_processes : ℕ
  pub process_list : List Process
  pub frames_since_last_process_list_update : ℕ

-- What the object at an address is: a session with `mModuleList`, `none` being null, and a module list
-- with `mSession`.
pub data Window : Type 0 where
  main_window : Window
  session : Option ℕ → Window
  module_list : ℕ → Window

pub record Ui : Type 0 where
  pub shared : SharedData
  pub windows : ℕ → Window
  pub next_address : ℕ
  pub main : Main

-- A frame's answers: whether ImGui shows the main window and its table, the rows that are double-clicked
-- and the session windows that are closed, by their addresses; what `getProcessList` asks for, and how
-- the constructor of a session ends, by its process.
pub record Input : Type 0 where
  pub begin : Bool
  pub begin_table : Bool
  pub double_clicked : ℕ → Bool
  pub closed : ℕ → Bool
  pub system : System
  pub opening : ℕ → Opening

-- `undefined` is the use of a null pointer or of an object that was deleted, or a write out of bounds.
pub data Shown : Type 0 where
  shown : Ui → Shown
  aborted undefined : Shown

-- Whether the object at an address has not been deleted.
unfoldable pub is_live : ℕ → List Component → Bool
is_live a [] = false
is_live a (c ∷ cs) = c.address == a || is_live a cs

unfoldable pub place : ℕ → Window → (ℕ → Window) → ℕ → Window
place a w windows b = if b == a then w else windows b

-- `getSharedData().registerComponent(new DebuggingSession(pid))`. The constructor registers the module
-- list, which it allocates after the session, if it has attached.
unfoldable pub open_session : Opening → Ui → Shown
unfolding place
open_session opening_aborts ui = aborted
open_session opening_undefined ui = undefined
open_session attached ui = shown (record ui {
  shared =
      register_component (record { address = ui.next_address; doomed = false })
        (register_component (record { address = ui.next_address + 1; doomed = false }) ui.shared);
  windows =
      place ui.next_address (session (some (ui.next_address + 1)))
        (place (ui.next_address + 1) (module_list ui.next_address) ui.windows);
  next_address = ui.next_address + 2;
})
open_session not_attached ui = shown (record ui {
  shared = register_component (record { address = ui.next_address; doomed = false }) ui.shared;
  windows = place ui.next_address (session none) ui.windows;
  next_address = ui.next_address + 1;
})

-- The rows of the table, from the row `i` on.
unfoldable pub show_rows : Input → ℕ → List Process → Ui → Shown
show_rows input i [] ui = shown ui
show_rows input i (p ∷ ps) ui = elim (input.double_clicked i) [
  | false ↦ show_rows input (i + 1) ps ui
  | true ↦ elim (open_session (input.opening p.process_id) ui) [
    | shown ui' ↦ show_rows input (i + 1) ps ui'
    | aborted ↦ aborted
    | undefined ↦ undefined
  ]
]

unfoldable pub show_table : Input → Ui → Shown
show_table input ui =
    if input.begin && input.begin_table
    then show_rows input 0 (take ui.main.num_processes ui.main.process_list) ui
    else shown ui

unfoldable pub count_frame : Ui → Ui
count_frame ui = record ui {
  main = record ui.main {
    frames_since_last_process_list_update = ui.main.frames_since_last_process_list_update + 1;
  };
}

-- `MainWindow::update`.
unfoldable pub update_main : Input → Ui → Shown
unfolding show_table count_frame
update_main input ui = elim (ltb 360 ui.main.frames_since_last_process_list_update) [
  | false ↦ show_table input (count_frame ui)
  | true ↦ elim (get_process_list input.system ui.main.process_list max_pids) [
    | aborts ↦ aborted
    | overruns ↦ undefined
    | listed n list ↦ show_table input (
        count_frame (record ui {
          main = record {
            num_processes = n;
            process_list = list;
            frames_since_last_process_list_update = 0;
          };
        }))
  ]
]

abbrev doom : ℕ → Ui → Ui
doom a ui = record ui {
  shared = record ui.shared { components = queue_for_deletion a ui.shared.components };
}

-- `DebuggingSession::queueForDeletion`.
unfoldable pub queue_session : ℕ → Option ℕ → Ui → Shown
unfolding is_live
queue_session a none ui = undefined
queue_session a (some l) ui =
    if is_live l ui.shared.components then shown (doom l (doom a ui)) else undefined

-- `update` of the component at an address. A module list reads its session.
unfoldable pub update_window : Input → ℕ → Window → Ui → Shown
unfolding update_main queue_session
update_window input a main_window ui = update_main input ui
update_window input a (session list) ui =
    if input.closed a then queue_session a list ui else shown ui
update_window input a (module_list s) ui =
    if is_live s ui.shared.components then shown ui else undefined

-- The loop of `showImGui` over the components that there are when it begins.
unfoldable pub update_all : Input → List Component → Ui → Shown
update_all input [] ui = shown ui
update_all input (c ∷ cs) ui = elim (update_window input c.address (ui.windows c.address) ui) [
  | shown ui' ↦ update_all input cs ui'
  | aborted ↦ aborted
  | undefined ↦ undefined
]

unfoldable pub show_imgui : Input → Ui → Shown
show_imgui input ui =
    let shared' = handle_dead_components ui.shared in
    update_all input shared'.components (record ui { shared = shared' })

-- A frame after the other.
unfoldable pub show_frames : List Input → Ui → Shown
show_frames [] ui = shown ui
show_frames (input ∷ inputs) ui = elim (show_imgui input ui) [
  | shown ui' ↦ show_frames inputs ui'
  | aborted ↦ aborted
  | undefined ↦ undefined
]
