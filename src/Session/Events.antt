-- ===== src/Session/Events.antt =====
-- sysmodule/source/nxdb/windows/DebuggingSession.cpp: the debug events. `K` is the kernel's state, and a
-- result code is 0 for success. The text of an event is not looked at but for `findName`.
pub mod Rounds
use nxdb.Common.{
  ℕ, zero, suc, ◌+◌, Bool, true, false, List, Option, none, some, ◌==◌, if◌then◌else◌,
}

pub record Event : Type 0 where
  pub type : ℕ
  pub program_id : ℕ
  pub name : List ℕ

-- The calls: `svcSetThreadCoreMask` and whether it succeeds, `svcContinueDebugEvent`,
-- `svcGetDebugEvent`, and `svcWaitSynchronization` for 250 ms.
pub record Calls (K : Type 0) : Type 0 where
  pub set_mask : ℕ → K → Bool × K
  pub continue_event : K → ℕ × K
  pub get_event : K → Option Event × K
  pub wait : K → ℕ × K
  pub create_process : ℕ

-- What the code reads of a session besides its handles.
pub record Debugged (K : Type 0) : Type 0 where
  pub program_id : ℕ
  pub name : List ℕ
  pub should_continue : Bool
  pub kernel : K

-- `aborted` is `R_ABORT_UNLESS` or `diagAbortWithResult`.
pub data Outcome {ℓ} (A : Type ℓ) : Type ℓ where
  returned : A → Outcome A
  aborted starved : Outcome A

abbrev pub busy : ℕ
busy = 0xf401

abbrev pub timed_out : ℕ
timed_out = 0xea01

-- `handleDebugEvent` does the same for every type: `continue_`.
unfoldable pub handle_debug_event : {K : Type 0} → Event → Debugged K → Debugged K
handle_debug_event event s = record s { should_continue = true }

module _ {K : Type 0} (calls : Calls K) where
  -- `while (rc == 0xf401)`, from the result of the call in front of it.
  unfoldable pub retry : ℕ → ℕ → K → Outcome (ℕ × K)
  retry zero rc k = elim (rc == busy) [ true ↦ starved | false ↦ returned (rc, k) ]
  retry (suc fuel) rc k = elim (rc == busy) [
    | true ↦ elim (calls.get_event k).0 [
      | none ↦ aborted
      | some event ↦
          retry fuel (calls.continue_event (calls.get_event k).1).0
            (calls.continue_event (calls.get_event k).1).1
    ]
    | false ↦ returned (rc, k)
  ]

  unfoldable pub first_try : ℕ → K → Outcome (ℕ × K)
  first_try fuel k = retry fuel (calls.continue_event k).0 (calls.continue_event k).1

  -- `tryContinueImpl` from a core on, with the number of cores that are left.
  unfoldable pub try_from : ℕ → ℕ → ℕ → K → Outcome (Bool × K)
  try_from fuel zero core k = returned (true, k)
  try_from fuel (suc left) core k = elim (calls.set_mask core k).0 [
    | false ↦ aborted
    | true ↦ elim (first_try fuel (calls.set_mask core k).1) [
      | returned (rc, k') ↦ elim (rc == 0) [
        | true ↦ try_from fuel left (core + 1) k'
        | false ↦ returned (false, k')
      ]
      | aborted ↦ aborted
      | starved ↦ starved
    ]
  ]

  unfoldable pub try_continue : ℕ → K → Outcome (Bool × K)
  try_continue fuel k = try_from fuel 4 0 k

  unfoldable pub find_name : ℕ → Debugged K → Outcome (Debugged K)
  find_name fuel s = elim (calls.get_event s.kernel).0 [
    | none ↦ aborted
    | some event ↦ elim (try_continue fuel (calls.get_event s.kernel).1) [
      | returned (true, k) ↦ returned (record s {
        program_id = event.program_id;
        name = if event.type == calls.create_process then event.name else s.name;
        kernel = k;
      })
      | returned (false, k) ↦ aborted
      | aborted ↦ aborted
      | starved ↦ starved
    ]
  ]

  unfoldable pub handle_debug_events : ℕ → Debugged K → Outcome (Debugged K)
  handle_debug_events zero s = starved
  handle_debug_events (suc fuel) s = elim (calls.get_event s.kernel).0 [
    | none ↦ returned (record s { kernel = (calls.get_event s.kernel).1 })
    | some event ↦
        handle_debug_events fuel
          (handle_debug_event event (record s { kernel = (calls.get_event s.kernel).1 }))
  ]

  -- The end of a round; the answer of `tryContinueImpl` is dropped.
  unfoldable pub continue_if_asked : ℕ → Debugged K → Outcome (Debugged K)
  continue_if_asked fuel s = elim s.should_continue [
    | false ↦ returned s
    | true ↦ elim (try_continue fuel s.kernel) [
      | returned (continued, k) ↦ returned (record s { should_continue = false; kernel = k })
      | aborted ↦ aborted
      | starved ↦ starved
    ]
  ]

  -- A round of `debugEventHandlerThreadFunc`.
  unfoldable pub thread_round : ℕ → Debugged K → Outcome (Debugged K)
  thread_round fuel s =
      let rc = (calls.wait s.kernel).0 in
      let s' = record s { kernel = (calls.wait s.kernel).1 } in
      elim (rc == timed_out) [
        | true ↦ returned s'
        | false ↦ elim (rc == 0) [
          | false ↦ aborted
          | true ↦ elim (handle_debug_events fuel s') [
            | returned s'' ↦ continue_if_asked fuel s''
            | aborted ↦ aborted
            | starved ↦ starved
          ]
        ]
      ]
