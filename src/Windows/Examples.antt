-- ===== src/Windows/Examples.antt =====
-- Tests of the windows, and their theorems at a main window with two sessions.
use nxdb.Common.{
  ℕ, zero, suc, All, ◌≡◌, refl, true, false, List, [], ◌∷◌, ◌++◌, none, some, arith, length,
  replicate, length-replicate, ◌==◌, if◌then◌else◌,
}
use nxdb.Components.{Component, register_component}
use nxdb.Processes.{
  Process, System, refused, listed, max_pids, get_process_list, search_pids, has_program,
  describe_all,
}
use nxdb.Session.Opening.{attached, opening_aborts}
use nxdb.Windows.{
  Main, Window, main_window, session, module_list, Ui, Input, shown, aborted, undefined,
  open_session, show_rows, show_frames, is_live,
}
use nxdb.Windows.Calm.{IsCalm}
use nxdb.Windows.Marks.{marked}
use nxdb.Windows.Closing.{closed_again}
use nxdb.Windows.Refresh.{AllOpen, main_frames, refresh_period}

-- No process has a program.
abbrev no_programs : System
no_programs = record { get_program_id = λ pid. none; debug = λ pid. refused }

no_programs-listed :
    (list : List Process) → get_process_list no_programs list max_pids ≡ listed 0 list
unfolding get_process_list search_pids has_program describe_all
no_programs-listed list = refl

abbrev idle : Input
idle = record {
  begin = true;
  begin_table = true;
  double_clicked = λ row. false;
  closed = λ a. false;
  system = no_programs;
  opening = λ pid. attached;
}

-- The window of the session at 3 is closed.
abbrev closing : Input
closing = record idle { closed = λ a. a == 3 }

closing-IsCalm : IsCalm closing
closing-IsCalm = record {
  no_click = λ row. refl;
  lists = λ list. (0, list, no_programs-listed list);
}

abbrev shell : Process
shell = record { process_id = 0x51; program_id = 0x100; name = b's' ∷ [] }

abbrev main : Main
main = record {
  num_processes = 1;
  process_list = shell ∷ [];
  frames_since_last_process_list_update = 1;
}

abbrev windows : ℕ → Window
windows a =
    if a == 3
    then session (some 4)
    else if a == 4
    then module_list 3
    else if a == 5
    then session (some 6)
    else if a == 6
    then module_list 5
    else main_window

abbrev first_list : List Component
first_list = marked 0 false ∷ []

abbrev last_list : List Component
last_list = marked 6 false ∷ marked 5 false ∷ []

abbrev two_sessions : Ui
two_sessions = record {
  shared = record {
    components = first_list ++ marked 4 false ∷ marked 3 false ∷ last_list;
    freed = [];
  };
  windows = windows;
  next_address = 7;
  main = main;
}

-- A double click opens a session: its module list is registered first.
opened_windows :
    show_rows (record idle { double_clicked = λ row. row == 0 }) 0 (shell ∷ []) two_sessions
    ≡ open_session attached two_sessions
unfolding show_rows open_session
opened_windows = refl

opened_components :
    (u : Ui) × (open_session attached two_sessions ≡ shown u)
    × (u.shared.components ≡ two_sessions.shared.components ++ marked 8 false ∷ marked 7 false ∷ [])
unfolding open_session register_component
opened_components = (_, refl, refl)

closed_again_example : show_frames (closing ∷ closing ∷ []) two_sessions ≡ undefined
unfolding is_live
closed_again_example =
    closed_again windows 7 first_list last_list 4 3 (refl, tt) (refl, (refl, tt)) (omega arith, tt)
      (omega arith, (omega arith, tt)) (omega arith, tt) (omega arith, (omega arith, tt))
      (omega arith) refl refl closing closing [] main (closing-IsCalm, closing-IsCalm)
      (((tt, tt), (refl, (refl, tt))), ((tt, tt), (refl, (refl, tt)))) refl refl

frames : List Input
frames = replicate 360 idle

length-frames : length frames ≡ 360
unfolding frames
length-frames = length-replicate 360 idle

idles-Open : (n : ℕ) → All AllOpen (replicate n idle)
idles-Open zero = tt
idles-Open (suc n) = ((λ pid. tt), idles-Open n)

frames-Open : All AllOpen frames
unfolding frames
frames-Open = idles-Open 360

-- A constructor that aborts takes the frame with it.
opening_breaks :
    show_rows
      (record idle { double_clicked = λ row. row == 0; opening = λ pid. opening_aborts })
      0
      (shell ∷ [])
      two_sessions
    ≡ aborted
unfolding show_rows open_session
opening_breaks = refl

refresh_period_example :
    (u : Ui) × (v : Ui) × (main_frames frames two_sessions ≡ shown u)
    × (u.main.process_list ≡ shell ∷ [])
    × (u.main.num_processes ≡ 1)
    × (main_frames (frames ++ idle ∷ []) two_sessions ≡ shown v)
    × (v.main ≡ record {
      num_processes = 0;
      process_list = shell ∷ [];
      frames_since_last_process_list_update = 1;
    })
refresh_period_example =
    refresh_period frames idle two_sessions 0 (shell ∷ []) refl length-frames frames-Open
      (λ pid. tt) (no_programs-listed (shell ∷ []))
