-- ===== src/Session/Ending/Examples.antt =====
-- The race of the destructor and the debug thread at one session.
use nxdb.Common.{◌≡◌, ◌≢◌, refl, true, false, arith}
use nxdb.Session.Ending.{
  testing, calling, stopped, crashed, closing_process, joining, gone, System, stop, fail_wait,
  thread_step, destructor_step, delete_map, close_debug, close_process, kill, join, here, next,
  Reach, ending,
}
use nxdb.Session.Ending.Race.{gone_lem, closed_never_gone, can_crash}

abbrev ended : System
ended = record {
  debug_open = false;
  process_open = false;
  kill_thread = true;
  thread = stopped;
  destructor = gone;
}

-- The thread comes to its test after the destructor has set `mKillThread`.
late_test : Reach (ending testing) ended
late_test =
    next
      (next
        (next
          (next
            (next (next here (destructor_step (delete_map refl)))
              (destructor_step (close_debug refl)))
            (destructor_step (close_process refl)))
          (destructor_step (kill refl)))
        (thread_step stop))
      (destructor_step (join refl refl))

gone_lem_example :
    (ended.thread ≡ stopped) × (ended.debug_open ≡ false) × (ended.process_open ≡ false)
gone_lem_example = gone_lem testing ended tt late_test refl

abbrev raced : System
raced = record (ending calling) { debug_open = false; destructor = closing_process }

abbrev waits_forever : System
waits_forever = record {
  debug_open = false;
  process_open = false;
  kill_thread = true;
  thread = crashed;
  destructor = joining;
}

raced-Reach : Reach raced waits_forever
raced-Reach =
    next (next (next here (destructor_step (close_process refl))) (thread_step fail_wait))
      (destructor_step (kill refl))

closed_never_gone_example : waits_forever.destructor ≢ gone
closed_never_gone_example =
    closed_never_gone raced waits_forever refl tt (λ e. ground arith) raced-Reach

can_crash_example : (s : System) × Reach (ending testing) s × (s.thread ≡ crashed)
can_crash_example = can_crash testing tt
