-- ===== src/Session/Opening.antt =====
-- sysmodule/source/nxdb/windows/DebuggingSession.cpp: the constructor of a session up to the windows that
-- it creates. `K` is the kernel's state for the debug events.
use nxdb.Common.{ℕ, Bool, true, false, [], Option, none, some}
use nxdb.MemoryMap.{Kernel, map_blocks, mapped, aborts, overruns, starved}
use nxdb.Session
use nxdb.Session.{Target, find_modules}
use nxdb.Session.Events
use nxdb.Session.Events.{Debugged, Calls, find_name}

-- How the constructor ends. `opening_undefined` is a write out of bounds, or the use of a region that was not
-- filled in.
pub data Opening : Type 0 where
  not_attached attached opening_aborts opening_undefined : Opening

-- The answers: whether `svcDebugActiveProcess` and `pmdmntAtmosphereGetProcessInfo` succeed, and what
-- `findModules`, `findName` and `mapBlocks` find.
pub record Answers (K : Type 0) : Type 0 where
  pub debug_succeeds : Bool
  pub info_succeeds : Bool
  pub target : Target
  pub calls : Calls K
  pub kernel : K
  pub memory : Kernel

-- `none` is the end of the fuel.
unfoldable pub construct : {K : Type 0} → ℕ → Answers K → Option Opening
construct fuel a = elim a.debug_succeeds [
  | false ↦ some not_attached
  | true ↦ elim a.info_succeeds [
    | false ↦ some opening_aborts
    | true ↦ elim (find_modules a.target fuel) [
      | Session.starved ↦ none
      | Session.undefined ↦ some opening_undefined
      | Session.overruns ↦ some opening_undefined
      | Session.found modules ↦
          elim (find_name a.calls fuel
            (record { program_id = 0; name = []; should_continue = false; kernel = a.kernel })) [
              | Events.starved ↦ none
              | Events.aborted ↦ some opening_aborts
              | Events.returned session ↦
                  elim (map_blocks a.memory fuel (record { blocks = []; mappings = [] })) [
                    | starved ↦ none
                    | aborts ↦ some opening_aborts
                    | overruns ↦ some opening_undefined
                    | mapped m ↦ some attached
                  ]
            ]
    ]
  ]
]
