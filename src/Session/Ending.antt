-- ===== src/Session/Ending.antt =====
-- sysmodule/source/nxdb/windows/DebuggingSession.cpp: the destructor of a session beside its debug
-- thread, the calls of both in any order. What the debug handle answers is the kernel's: a call on a
-- closed handle fails, and a wait that has begun is not ended by closing the handle.
pub mod Race
mod Examples
use nxdb.Common.{Bool, true, false, ◌≡◌}

-- Where the thread stands: in front of the test of the loop, in front of the call of
-- `svcWaitSynchronization`, in it, at the calls behind it whose failure is let pass, and, after an
-- answer that the process is busy, in front of the `svcGetDebugEvent` of `tryContinueImpl`. Then
-- `return`, and `diagAbortWithResult`.
pub data Thread : Type 0 where
  testing calling waiting handling fetching : Thread
  stopped crashed : Thread

-- Where the destructor stands: in front of the deletion of the memory map, of closing each handle, of
-- setting `mKillThread` and of `join`, and behind it.
pub data Destructor : Type 0 where
  deleting_map closing_debug closing_process killing joining : Destructor
  gone : Destructor

pub record System : Type 0 where
  pub debug_open : Bool
  pub process_open : Bool
  pub kill_thread : Bool
  pub thread : Thread
  pub destructor : Destructor

-- A step of `debugEventHandlerThreadFunc`, by the debug handle and `mKillThread`.
pub data ThreadStep : Bool → Bool → Thread → Thread → Type 0 where
  go_on : {valid : Bool} → ThreadStep valid false testing calling
  stop : {valid : Bool} → ThreadStep valid true testing stopped
  enter_wait : {told : Bool} → ThreadStep true told calling waiting
  fail_wait : {told : Bool} → ThreadStep false told calling crashed
  time_out : {valid told : Bool} → ThreadStep valid told waiting testing
  wake : {valid told : Bool} → ThreadStep valid told waiting handling
  find_busy : {told : Bool} → ThreadStep true told handling fetching
  fetch : {told : Bool} → ThreadStep true told fetching handling
  fail_fetch : {told : Bool} → ThreadStep false told fetching crashed
  finish : {valid told : Bool} → ThreadStep valid told handling testing

-- A step of the destructor. `join` returns when the thread has.
pub data DestructorStep : System → System → Type 0 where
  delete_map :
      {s : System}
      → s.destructor ≡ deleting_map
      → DestructorStep s (record s { destructor = closing_debug })
  close_debug :
      {s : System}
      → s.destructor ≡ closing_debug
      → DestructorStep s (record s { debug_open = false; destructor = closing_process })
  close_process :
      {s : System}
      → s.destructor ≡ closing_process
      → DestructorStep s (record s { process_open = false; destructor = killing })
  kill :
      {s : System}
      → s.destructor ≡ killing
      → DestructorStep s (record s { kill_thread = true; destructor = joining })
  join :
      {s : System}
      → s.destructor ≡ joining
      → s.thread ≡ stopped
      → DestructorStep s (record s { destructor = gone })

pub data Step : System → System → Type 0 where
  thread_step :
      {s : System} {t : Thread}
      → ThreadStep s.debug_open s.kill_thread s.thread t
      → Step s (record s { thread = t })
  destructor_step : {s s' : System} → DestructorStep s s' → Step s s'

pub data Reach (s : System) : System → Type 0 where
  here : Reach s s
  next : {t u : System} → Reach s t → Step t u → Reach s u

-- A session when its destructor is called; the thread may stand anywhere in its loop.
abbrev pub ending : Thread → System
ending t = record {
  debug_open = true;
  process_open = true;
  kill_thread = false;
  thread = t;
  destructor = deleting_map;
}
