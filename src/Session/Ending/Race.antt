-- ===== src/Session/Ending/Race.antt =====
-- What the order of the destructor's calls allows.
use nxdb.Common.{Bool, true, false, ◌≡◌, ◌≢◌, refl, subst, arith}
use nxdb.Session.Ending.{
  Thread, testing, calling, waiting, handling, fetching, stopped, crashed, Destructor, deleting_map,
  closing_debug, closing_process, killing, joining, gone, System, ThreadStep, go_on, stop,
  enter_wait, fail_wait, time_out, wake, find_busy, fetch, fail_fetch, finish, DestructorStep,
  delete_map, close_debug, close_process, kill, join, Step, thread_step, destructor_step, Reach,
  here, next, ending,
}

-- By how far the destructor is: which handles are open, and whether the thread is told to stop.
abbrev Stage : Destructor → System → Type 0
Stage deleting_map s = (s.debug_open ≡ true) × (s.process_open ≡ true) × (s.kill_thread ≡ false)
Stage closing_debug s = (s.debug_open ≡ true) × (s.process_open ≡ true) × (s.kill_thread ≡ false)
Stage closing_process s = (s.debug_open ≡ false) × (s.process_open ≡ true) × (s.kill_thread ≡ false)
Stage killing s = (s.debug_open ≡ false) × (s.process_open ≡ false) × (s.kill_thread ≡ false)
Stage joining s = (s.debug_open ≡ false) × (s.process_open ≡ false) × (s.kill_thread ≡ true)
Stage gone s =
    (s.debug_open ≡ false)
    × (s.process_open ≡ false)
    × (s.kill_thread ≡ true)
    × (s.thread ≡ stopped)

-- A thread that has come to its end was told to, or called on a closed handle.
abbrev Ended : Thread → Bool → Bool → Type 0
Ended stopped valid told = told ≡ true
Ended crashed valid told = valid ≡ false
Ended _ valid told = Unit {0}

record IsSound (s : System) : Type 0 where
  stage : Stage s.destructor s
  ended : Ended s.thread s.debug_open s.kill_thread

ThreadStep-Ended :
    {valid told : Bool} {a b : Thread} → ThreadStep valid told a b → Ended b valid told
ThreadStep-Ended go_on = tt
ThreadStep-Ended stop = refl
ThreadStep-Ended enter_wait = tt
ThreadStep-Ended fail_wait = refl
ThreadStep-Ended time_out = tt
ThreadStep-Ended wake = tt
ThreadStep-Ended find_busy = tt
ThreadStep-Ended fetch = tt
ThreadStep-Ended fail_fetch = refl
ThreadStep-Ended finish = tt

ThreadStep-stopped : {valid told : Bool} {a b : Thread} → ThreadStep valid told a b → a ≢ stopped
ThreadStep-stopped go_on = λ e. cc
ThreadStep-stopped stop = λ e. cc
ThreadStep-stopped enter_wait = λ e. cc
ThreadStep-stopped fail_wait = λ e. cc
ThreadStep-stopped time_out = λ e. cc
ThreadStep-stopped wake = λ e. cc
ThreadStep-stopped find_busy = λ e. cc
ThreadStep-stopped fetch = λ e. cc
ThreadStep-stopped fail_fetch = λ e. cc
ThreadStep-stopped finish = λ e. cc

-- The thread's steps do not change what `Stage` says.
Stage-thread :
    (d : Destructor) (s : System) (t : Thread)
    → s.thread ≢ stopped
    → Stage d s
    → Stage d (record s { thread = t })
Stage-thread deleting_map s t running h = h
Stage-thread closing_debug s t running h = h
Stage-thread closing_process s t running h = h
Stage-thread killing s t running h = h
Stage-thread joining s t running h = h
Stage-thread gone s t running h = absurd (running h.3)

-- Setting `mKillThread` and closing handles takes nothing from a thread that has ended.
Ended-later :
    (t : Thread) (valid told : Bool) → Ended t valid told → Ended t false told × Ended t valid true
Ended-later testing valid told h = (tt, tt)
Ended-later calling valid told h = (tt, tt)
Ended-later waiting valid told h = (tt, tt)
Ended-later handling valid told h = (tt, tt)
Ended-later fetching valid told h = (tt, tt)
Ended-later stopped valid told h = (h, refl)
Ended-later crashed valid told h = (refl, h)

DestructorStep-IsSound : {s t : System} → DestructorStep s t → IsSound s → IsSound t
DestructorStep-IsSound (delete_map {s} e) v = record {
  stage = subst (λ d. Stage d s) e v.stage;
  ended = v.ended;
}
DestructorStep-IsSound (close_debug {s} e) v =
    let before = subst (λ d. Stage d s) e v.stage in
    record {
      stage = (refl, before.1, before.2);
      ended = (Ended-later s.thread s.debug_open s.kill_thread v.ended).0;
    }
DestructorStep-IsSound (close_process {s} e) v =
    let before = subst (λ d. Stage d s) e v.stage in
    record { stage = (before.0, refl, before.2); ended = v.ended }
DestructorStep-IsSound (kill {s} e) v =
    let before = subst (λ d. Stage d s) e v.stage in
    record {
      stage = (before.0, before.1, refl);
      ended = (Ended-later s.thread s.debug_open s.kill_thread v.ended).1;
    }
DestructorStep-IsSound (join {s} e done) v =
    let before = subst (λ d. Stage d s) e v.stage in
    record { stage = (before.0, before.1, before.2, done); ended = v.ended }

Step-IsSound : {s t : System} → Step s t → IsSound s → IsSound t
Step-IsSound (thread_step {s} {t} mv) v = record {
  stage = Stage-thread s.destructor s t (ThreadStep-stopped mv) v.stage;
  ended = ThreadStep-Ended mv;
}
Step-IsSound (destructor_step mv) v = DestructorStep-IsSound mv v

Reach-IsSound : {s t : System} → Reach s t → IsSound s → IsSound t
Reach-IsSound here v = v
Reach-IsSound (next r st) v = Step-IsSound st (Reach-IsSound r v)

-- The places in the loop at which a destructor can find the thread.
abbrev pub InLoop : Thread → Type 0
InLoop stopped = ⊥
InLoop crashed = ⊥
InLoop _ = Unit {0}

ending-IsSound : (t : Thread) → InLoop t → IsSound (ending t)
ending-IsSound testing h = record { stage = (refl, refl, refl); ended = tt }
ending-IsSound calling h = record { stage = (refl, refl, refl); ended = tt }
ending-IsSound waiting h = record { stage = (refl, refl, refl); ended = tt }
ending-IsSound handling h = record { stage = (refl, refl, refl); ended = tt }
ending-IsSound fetching h = record { stage = (refl, refl, refl); ended = tt }
ending-IsSound stopped h = absurd h
ending-IsSound crashed h = absurd h

-- Wherever the thread stood in its loop, and in whatever order the steps come: when the destructor is
-- through, the thread has returned and both handles are closed.
pub gone_lem :
    (t : Thread) (s : System)
    → InLoop t
    → Reach (ending t) s
    → s.destructor ≡ gone
    → (s.thread ≡ stopped) × (s.debug_open ≡ false) × (s.process_open ≡ false)
gone_lem t s inside r e =
    let v = Reach-IsSound r (ending-IsSound t inside) in
    let at_end = subst (λ d. Stage d s) e v.stage in (at_end.3, at_end.0, at_end.1)

-- A thread that will use the handle without a look at `mKillThread`, or that has aborted.
abbrev pub IsLost : Thread → Type 0
IsLost calling = Unit {0}
IsLost fetching = Unit {0}
IsLost crashed = Unit {0}
IsLost _ = ⊥

record IsStuck (s : System) : Type 0 where
  closed : s.debug_open ≡ false
  lost : IsLost s.thread
  waits : s.destructor ≢ gone

ThreadStep-IsLost :
    {valid told : Bool} {a b : Thread}
    → ThreadStep valid told a b
    → valid ≡ false
    → IsLost a
    → IsLost b
ThreadStep-IsLost go_on e h = absurd h
ThreadStep-IsLost stop e h = absurd h
ThreadStep-IsLost enter_wait e h = absurd (ground (arith, e))
ThreadStep-IsLost fail_wait e h = tt
ThreadStep-IsLost time_out e h = absurd h
ThreadStep-IsLost wake e h = absurd h
ThreadStep-IsLost find_busy e h = absurd h
ThreadStep-IsLost fetch e h = absurd (ground (arith, e))
ThreadStep-IsLost fail_fetch e h = tt
ThreadStep-IsLost finish e h = absurd h

DestructorStep-IsStuck : {s t : System} → DestructorStep s t → IsStuck s → IsStuck t
DestructorStep-IsStuck (delete_map e) v = record {
  closed = v.closed;
  lost = v.lost;
  waits = λ q. cc;
}
DestructorStep-IsStuck (close_debug e) v = record { closed = refl; lost = v.lost; waits = λ q. cc }
DestructorStep-IsStuck (close_process e) v = record {
  closed = v.closed;
  lost = v.lost;
  waits = λ q. cc;
}
DestructorStep-IsStuck (kill e) v = record { closed = v.closed; lost = v.lost; waits = λ q. cc }
DestructorStep-IsStuck (join e done) v = absurd (subst IsLost done v.lost)

Step-IsStuck : {s t : System} → Step s t → IsStuck s → IsStuck t
Step-IsStuck (thread_step mv) v = record {
  closed = v.closed;
  lost = ThreadStep-IsLost mv v.closed v.lost;
  waits = v.waits;
}
Step-IsStuck (destructor_step mv) v = DestructorStep-IsStuck mv v

Reach-IsStuck : {s t : System} → Reach s t → IsStuck s → IsStuck t
Reach-IsStuck here v = v
Reach-IsStuck (next r st) v = Step-IsStuck st (Reach-IsStuck r v)

-- Once the debug handle is closed under a thread that is about to wait on it, or to fetch an event with
-- it, no order of steps brings the destructor to its end.
pub closed_never_gone :
    (s t : System)
    → s.debug_open ≡ false
    → IsLost s.thread
    → s.destructor ≢ gone
    → Reach s t
    → t.destructor ≢ gone
closed_never_gone s t closed lost waits r =
    let v = Reach-IsStuck r (record { closed = closed; lost = lost; waits = waits }) in v.waits

-- A state of the destructor's start to which the thread comes from anywhere in its loop.
to_calling : (t : Thread) → InLoop t → Reach (ending t) (ending calling)
to_calling testing h = next here (thread_step go_on)
to_calling calling h = here
to_calling waiting h = next (next here (thread_step time_out)) (thread_step go_on)
to_calling handling h = next (next here (thread_step finish)) (thread_step go_on)
to_calling fetching h =
    next (next (next here (thread_step fetch)) (thread_step finish)) (thread_step go_on)
to_calling stopped h = absurd h
to_calling crashed h = absurd h

-- Wherever the thread stands when the destructor is called, there is an order of steps in which it
-- aborts on the closed handle.
pub can_crash : (t : Thread) → InLoop t → (s : System) × Reach (ending t) s × (s.thread ≡ crashed)
can_crash t inside =
    let deleted = next (to_calling t inside) (destructor_step (delete_map refl)) in
    let closed = next deleted (destructor_step (close_debug refl)) in
    (
      record (ending crashed) { debug_open = false; destructor = closing_process },
      next closed (thread_step fail_wait),
      refl,
    )
