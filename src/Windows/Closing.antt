-- ===== src/Windows/Closing.antt =====
-- A session whose window is closed, from that frame to the last of it.
use nxdb.Common.{
  ℕ, ◌≡◌, ◌≢◌, refl, sym, ap, subst, ◌∙◌, Bool, true, false, List, [], ◌∷◌, ◌++◌, none, some,
  All-append, append-nil,
}
use nxdb.Components.{Component, SharedData, handle_dead_components}
use nxdb.Components.Single.{AllAlive, handle_dead_components_none, handle_dead_components_once}
use nxdb.Windows.{
  Main, Window, session, module_list, Ui, Input, shown, undefined, queue_session, update_window,
  update_all, show_imgui, show_frames,
}
use nxdb.Windows.Calm.{IsCalm, AllStay, Stays, update_all_calm}
use nxdb.Windows.Marks.{
  AllStay-append, NotAt, queue_for_deletion_here, queue_for_deletion_second, is_live_here,
  is_live_none, live_second, marked,
}

module _ (windows : ℕ → Window) (next_address : ℕ) (pre post : List Component) (l s : ℕ)
    (live_pre : AllAlive pre) (live_post : AllAlive post) (l_pre : NotAt l pre)
    (l_post : NotAt l post) (s_pre : NotAt s pre) (s_post : NotAt s post) (l_ne_s : l ≢ s)
    (is_session : windows s ≡ session (some l)) (is_list : windows l ≡ module_list s) where
  -- The interface with the components `cs`, after `freed`.
  abbrev ui : List Component → List ℕ → Main → Ui
  ui cs freed main = record {
    shared = record { components = cs; freed = freed };
    windows = windows;
    next_address = next_address;
    main = main;
  }

  abbrev Others : Input → Type 0
  Others input = AllStay input windows (pre ++ post) pre × AllStay input windows (pre ++ post) post

  -- The last windows of the list.
  update_all_end :
      (input : Input) (cs : List Component) (freed : List ℕ) (main : Main)
      → IsCalm input
      → AllStay input windows cs post
      → (m : Main) × (update_all input post (ui cs freed main) ≡ shown (ui cs freed m))
  unfolding update_all
  update_all_end input cs freed main calm stay =
      let (m, e) = update_all_calm input post [] (ui cs freed main) calm stay in
      (m, ap (λ ds. update_all input ds (ui cs freed main)) (sym (append-nil post)) ∙ e)

  -- What the frame does that closes the session's window: it marks both.
  queue_session_lem :
      (freed : List ℕ) (main : Main)
      → queue_session s (some l) (ui (pre ++ marked l false ∷ marked s false ∷ post) freed main)
        ≡ shown (ui (pre ++ marked l true ∷ marked s true ∷ post) freed main)
  unfolding queue_session
  queue_session_lem freed main =
      rw
        (
          queue_session,
          is_live_here l false pre (marked s false ∷ post),
          queue_for_deletion_second s false pre (marked l false) post s_pre l_ne_s s_post,
          queue_for_deletion_here l false pre (marked s true ∷ post) l_pre
              ((λ e. l_ne_s (sym e)), l_post),
        )
        refl

  -- The three lists of components on the way.
  abbrev open_list : List Component
  open_list = pre ++ marked l false ∷ marked s false ∷ post

  abbrev marked_list : List Component
  marked_list = pre ++ marked l true ∷ marked s true ∷ post

  abbrev late_list : List Component
  late_list = pre ++ marked s true ∷ post

  show_imgui_reaped :
      (input : Input) (cs ds : List Component) (freed freed' : List ℕ) (main : Main)
      → handle_dead_components (record { components = cs; freed = freed })
        ≡ record { components = ds; freed = freed' }
      → show_imgui input (ui cs freed main) ≡ update_all input ds (ui ds freed' main)
  unfolding show_imgui
  show_imgui_reaped input cs ds freed freed' main e =
      ap
        (λ (d : SharedData).
          update_all input d.components (record (ui cs freed main) { shared = d }))
        e

  update_all_step :
      (input : Input) (c : Component) (cs : List Component) (u v : Ui)
      → update_window input c.address (u.windows c.address) u ≡ shown v
      → update_all input (c ∷ cs) u ≡ update_all input cs v
  unfolding update_all
  update_all_step input c cs u v e = rw (update_all, e) refl

  -- The windows in front of the session, with the module list.
  update_all_to_session :
      (input : Input) (p q : Bool) (freed : List ℕ) (main : Main)
      → IsCalm input
      → AllStay input windows (pre ++ post) pre
      → (m : Main) × (update_all input
            (pre ++ marked l p ∷ marked s q ∷ post)
            (ui (pre ++ marked l p ∷ marked s q ∷ post) freed main)
          ≡ update_all input
              (marked s q ∷ post)
              (ui (pre ++ marked l p ∷ marked s q ∷ post) freed m))
  update_all_to_session input p q freed main calm stay =
      let both = marked l p ∷ marked s q ∷ [] in
      let stay' = AllStay-append input windows pre both post pre stay in
      let (m, e) =
        update_all_calm input pre (marked l p ∷ marked s q ∷ post)
          (ui (pre ++ (both ++ post)) freed main) calm stay' in
      let reads : Stays input (pre ++ (both ++ post)) l (windows l) =
        subst (λ w. Stays input (pre ++ (both ++ post)) l w) (sym is_list)
          (live_second s q (marked l p) pre post) in
      let (m', e') =
        update_all_calm input (marked l p ∷ []) (marked s q ∷ post)
          (ui (pre ++ (both ++ post)) freed m) calm (reads, tt) in
      (m', e ∙ e')

  -- The frame in which the user closes the window.
  close_frame :
      (input : Input) (freed : List ℕ) (main : Main)
      → IsCalm input
      → Others input
      → input.closed s ≡ true
      → (m : Main) × (show_imgui input (ui open_list freed main) ≡ shown (ui marked_list freed m))
  unfolding update_window
  close_frame input freed main calm stay closes =
      let all_live =
        All-append _ pre (marked l false ∷ marked s false ∷ post) live_pre
          (refl, (refl, live_post)) in
      let reaps =
        show_imgui_reaped input open_list open_list freed freed main
          (handle_dead_components_none open_list freed all_live) in
      let (m, e) = update_all_to_session input false false freed main calm stay.0 in
      let closing : update_window input s (windows s) (ui open_list freed m)
          ≡ shown (ui marked_list freed m) =
        rw (is_session, update_window, closes) (queue_session_lem freed m) in
      let step =
        update_all_step input (marked s false) post (ui open_list freed m) (ui marked_list freed m)
          closing in
      let (m', e') =
        update_all_end input marked_list freed m calm (
          AllStay-append input windows pre (marked l true ∷ marked s true ∷ []) post post stay.1) in
      (m', reaps ∙ e ∙ step ∙ e')

  -- The frame behind it, in front of which the module list is deleted: the session is still there.
  late_reaped :
      (input : Input) (freed : List ℕ) (main : Main)
      → show_imgui input (ui marked_list freed main)
        ≡ update_all input late_list (ui late_list (freed ++ l ∷ []) main)
  late_reaped input freed main =
      show_imgui_reaped input marked_list late_list freed (freed ++ l ∷ []) main (
        handle_dead_components_once pre (marked s true ∷ post) (marked l true) freed live_pre refl
          live_post)

  late_to_session :
      (input : Input) (freed : List ℕ) (main : Main)
      → IsCalm input
      → AllStay input windows (pre ++ post) pre
      → (m : Main) × (update_all input late_list (ui late_list freed main)
          ≡ update_all input (marked s true ∷ post) (ui late_list freed m))
  late_to_session input freed main calm stay =
      update_all_calm input pre (marked s true ∷ post) (ui late_list freed main) calm
        (AllStay-append input windows pre (marked s true ∷ []) post pre stay)

  -- A session whose window is closed in two frames in a row makes the second of them use the module
  -- list, which has been deleted.
  pub closed_again :
      (first second : Input) (freed : List ℕ) (main : Main)
      → IsCalm first × IsCalm second
      → Others first × Others second
      → first.closed s ≡ true
      → second.closed s ≡ true
      → show_frames (first ∷ second ∷ []) (ui open_list freed main) ≡ undefined
  unfolding show_frames update_all update_window queue_session
  closed_again first second freed main calm stay closes again =
      let (m1, e1) = close_frame first freed main calm.0 stay.0 closes in
      let (m2, e2) = late_to_session second (freed ++ l ∷ []) m1 calm.1 stay.1.0 in
      let deleted =
        is_live_none l pre (marked s true ∷ post) l_pre ((λ e. l_ne_s (sym e)), l_post) in
      let breaks : update_all second (marked s true ∷ post) (ui late_list (freed ++ l ∷ []) m2)
          ≡ undefined =
        rw (update_all, is_session, update_window, again, queue_session, deleted) refl in
      rw (show_frames, e1, late_reaped second freed m1 ∙ e2 ∙ breaks) refl

-- Closing the window of a session that did not attach makes the frame call a method of the module
-- list that there is not.
unattached_close :
    (input : Input) (pre post : List Component) (s : ℕ) (freed : List ℕ) (u : Ui)
    → u.shared
      ≡ record { components = pre ++ record { address = s; doomed = false } ∷ post; freed = freed }
    → AllAlive pre × AllAlive post
    → u.windows s ≡ session none
    → IsCalm input
    → AllStay input u.windows (pre ++ record { address = s; doomed = false } ∷ post) pre
    → input.closed s ≡ true
    → show_imgui input u ≡ undefined
unfolding show_imgui update_all update_window queue_session
unattached_close input pre post s freed u e live unattached calm stay closes =
    let b = marked s false in
    let all_live = All-append _ pre (b ∷ post) live.0 (refl, live.1) in
    let reaped =
      ap handle_dead_components e ∙ handle_dead_components_none (pre ++ b ∷ post) freed all_live in
    let seen = record u { shared = record { components = pre ++ b ∷ post; freed = freed } } in
    let (m, calmed) = update_all_calm input pre (b ∷ post) seen calm stay in
    let breaks : update_all input (b ∷ post) (record seen { main = m }) ≡ undefined =
      rw (update_all, unattached, update_window, closes) refl in
    ap (λ (d : SharedData). update_all input d.components (record u { shared = d })) reaped
    ∙ calmed
    ∙ breaks
