-- ===== src/Windows/Refresh.antt =====
-- When the main window asks for the processes again.
use nxdb.Common.{
  ℕ, suc, ◌+◌, ◌≤◌, ◌≡◌, refl, sym, ap, ◌∙◌, true, false, ◌&&◌, List, [], ◌∷◌, ◌++◌, All, arith,
  Bool-cases, inl, inr, append-nil, ltb, length, take,
}
use nxdb.Processes.{Process, listed, max_pids, get_process_list}
use nxdb.Session.Opening.{Opening, not_attached, attached, opening_aborts, opening_undefined}
use nxdb.Windows.{
  Main, Ui, Input, Shown, shown, aborted, undefined, open_session, show_rows, show_table,
  count_frame, update_main,
}

-- Updates of the main window, one after the other.
unfoldable pub main_frames : List Input → Ui → Shown
main_frames [] ui = shown ui
main_frames (input ∷ inputs) ui = elim (update_main input ui) [
  | shown ui' ↦ main_frames inputs ui'
  | aborted ↦ aborted
  | undefined ↦ undefined
]

-- The constructor of the session comes to its end.
abbrev pub Opens : Opening → Type 0
Opens opening_aborts = ⊥
Opens opening_undefined = ⊥
Opens _ = Unit {0}

abbrev pub AllOpen : Input → Type 0
AllOpen input = (pid : ℕ) → Opens (input.opening pid)

abbrev Leaves : Ui → Shown → Type 0
Leaves ui result = (u : Ui) × (result ≡ shown u) × (u.main ≡ ui.main)

open_session-main : (o : Opening) (ui : Ui) → Opens o → Leaves ui (open_session o ui)
unfolding open_session
open_session-main opening_aborts ui ends = absurd ends
open_session-main opening_undefined ui ends = absurd ends
open_session-main attached ui ends = (_, refl, refl)
open_session-main not_attached ui ends = (_, refl, refl)

show_rows-main :
    (input : Input) (i : ℕ) (ps : List Process) (ui : Ui)
    → AllOpen input
    → Leaves ui (show_rows input i ps ui)
unfolding show_rows
show_rows-main input i [] ui ok = (ui, refl, refl)
show_rows-main input i (p ∷ ps) ui ok = elim (Bool-cases (input.double_clicked i)) [
  | inl clicked ↦
      let (v, opens, same) = open_session-main (input.opening p.process_id) ui (ok p.process_id) in
      let (u, shows, kept) = show_rows-main input (i + 1) ps v ok in
      (u, rw (show_rows, clicked, opens) shows, kept ∙ same)
  | inr not_clicked ↦
      let (u, shows, kept) = show_rows-main input (i + 1) ps ui ok in
      (u, rw (show_rows, not_clicked) shows, kept)
]

show_table-main : (input : Input) (ui : Ui) → AllOpen input → Leaves ui (show_table input ui)
unfolding show_table
show_table-main input ui ok = elim (Bool-cases (input.begin && input.begin_table)) [
  | inl open_table ↦
      rw open_table (show_rows-main input 0 (take ui.main.num_processes ui.main.process_list) ui ok)
  | inr shut_table ↦ rw shut_table (ui, refl, refl)
]

abbrev later : ℕ → Main → Main
later k m = record m {
  frames_since_last_process_list_update = m.frames_since_last_process_list_update + k;
}

later-later : (k : ℕ) (m : Main) → later k (later 1 m) ≡ later (suc k) m
later-later k m = ground arith

-- Updates while the list is recent.
main_frames-recent :
    (inputs : List Input) (ui : Ui)
    → All AllOpen inputs
    → ui.main.frames_since_last_process_list_update + length inputs ≤ 361
    → (v : Ui) × ((rest : List Input) → main_frames (inputs ++ rest) ui ≡ main_frames rest v)
      × (v.main ≡ later (length inputs) ui.main)
unfolding main_frames update_main count_frame
main_frames-recent [] ui ok h = (ui, (λ rest. refl), ground arith)
main_frames-recent (input ∷ inputs) ui ok h =
    let (u, shows, counted) = show_table-main input (count_frame ui) ok.0 in
    let frames = ap (λ m. m.frames_since_last_process_list_update) counted in
    let recent : ltb 360 ui.main.frames_since_last_process_list_update ≡ false = ground arith in
    let (v, e, m) = main_frames-recent inputs u ok.1 (omega (arith, frames)) in
    (
      v,
      λ rest. rw (main_frames, update_main, recent, shows) (e rest),
      m ∙ ap (later (length inputs)) counted ∙ later-later (length inputs) ui.main,
    )

-- The main window asks for the processes in every 361st update: the 360 updates behind one that asked
-- leave the list as it is, and the next one fills it again. The constructor of every session that the
-- user may open comes to its end, without an abort or an undefined write, and the processes can be had.
pub refresh_period :
    (inputs : List Input) (input : Input) (ui : Ui) (n : ℕ) (out : List Process)
    → ui.main.frames_since_last_process_list_update ≡ 1
    → length inputs ≡ 360
    → All AllOpen inputs
    → AllOpen input
    → get_process_list input.system ui.main.process_list max_pids ≡ listed n out
    → (u : Ui) × (v : Ui) × (main_frames inputs ui ≡ shown u)
      × (u.main.process_list ≡ ui.main.process_list)
      × (u.main.num_processes ≡ ui.main.num_processes)
      × (main_frames (inputs ++ input ∷ []) ui ≡ shown v)
      × (v.main ≡ record {
        num_processes = n;
        process_list = out;
        frames_since_last_process_list_update = 1;
      })
unfolding main_frames update_main count_frame
refresh_period inputs input ui n out fresh long ok opens e =
    let (u, before, same) = main_frames-recent inputs ui ok (omega arith) in
    let due : ltb 360 u.main.frames_since_last_process_list_update ≡ true =
      let frames = ap (λ m. m.frames_since_last_process_list_update) same in ground arith in
    let asked : get_process_list input.system u.main.process_list max_pids ≡ listed n out =
      ap (λ m. get_process_list input.system m.process_list max_pids) same ∙ e in
    let asks = count_frame (record u {
      main = record {
        num_processes = n;
        process_list = out;
        frames_since_last_process_list_update = 0;
      };
    }) in
    let (v, shows, kept) = show_table-main input asks opens in
    (
      u,
      v,
      ap (λ l. main_frames l ui) (sym (append-nil inputs)) ∙ before [],
      ap (λ m. m.process_list) same,
      ap (λ m. m.num_processes) same,
      before (input ∷ []) ∙ rw (main_frames, update_main, due, asked, shows) refl,
      kept,
    )
