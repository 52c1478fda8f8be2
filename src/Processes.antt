-- ===== src/Processes.antt =====
-- sysmodule/source/nxdb/Process.h and Process.cpp: `getProcessList`. What pm and the kernel answer is a
-- parameter.
pub mod Search
mod Examples
use nxdb.Common.{
  ℕ, zero, suc, ◌+◌, Bool, true, false, not, List, [], ◌∷◌, ◌++◌, Option, none, some, ltb, ◌==◌,
  if◌then◌else◌, length, take, min,
}

pub record Process : Type 0 where
  pub process_id : ℕ
  pub program_id : ℕ
  pub name : List ℕ

-- The first debug event of a process; its other types share the memory of `create_process`.
pub record DebugEvent : Type 0 where
  pub is_create_process : Bool
  pub program_id : ℕ
  pub name : List ℕ

-- `svcDebugActiveProcess` refuses, `svcGetDebugEvent` fails, or the event.
pub data Debug : Type 0 where
  refused failed : Debug
  attached : DebugEvent → Debug

-- The answers: `pmdmntGetProgramId`, `none` where it fails, and the two calls above.
pub record System : Type 0 where
  pub get_program_id : ℕ → Option ℕ
  pub debug : ℕ → Debug

-- `abort` is `R_ABORT_UNLESS`, `overruns` a write behind `pids` or `out`.
pub data Listing : Type 0 where
  listed : ℕ → List Process → Listing
  aborts overruns : Listing

-- `sMaxPids` and `sMaxPidSearchRange`.
abbrev pub max_pids : ℕ
max_pids = 0x50

abbrev pub max_pid_search_range : ℕ
max_pid_search_range = 0x1000

module _ (system : System) where
  -- `R_SUCCEEDED(pmdmntGetProgramId(&programId, i)) && programId`.
  unfoldable pub has_program : ℕ → Bool
  has_program i = elim (system.get_program_id i) [
    | none ↦ false
    | some program ↦ not (program == 0)
  ]

  -- The search, with `left` ids from `i` on to come. `none` is a write behind `pids`.
  unfoldable pub search_pids : ℕ → ℕ → List ℕ → Option (List ℕ)
  search_pids zero i pids = some pids
  search_pids (suc left) i pids = elim (has_program i) [
    | false ↦ search_pids left (i + 1) pids
    | true ↦ elim (ltb (length pids) max_pids) [
      | true ↦ search_pids left (i + 1) (pids ++ i ∷ [])
      | false ↦ none
    ]
  ]

  -- The body of the second loop, on what `out[i]` held.
  unfoldable pub describe : ℕ → Process → Option Process
  describe pid p = elim (system.debug pid) [
    | refused ↦ some (record p { process_id = pid })
    | failed ↦ none
    | attached d ↦ some (record {
      process_id = pid;
      program_id = d.program_id;
      name = if d.is_create_process then d.name else p.name;
    })
  ]

  -- The second loop; the number is the result.
  unfoldable pub describe_all : List ℕ → List Process → ℕ → List Process → Listing
  describe_all [] out count before = listed count (before ++ out)
  describe_all (pid ∷ pids) [] count before = overruns
  describe_all (pid ∷ pids) (p ∷ out) count before = elim (describe pid p) [
    | none ↦ aborts
    | some q ↦ describe_all pids out count (before ++ q ∷ [])
  ]

  unfoldable pub get_process_list : List Process → ℕ → Listing
  get_process_list out max = elim (search_pids max_pid_search_range 0 []) [
    | none ↦ overruns
    | some pids ↦
        let num_read = min (length pids) max in describe_all (take num_read pids) out num_read []
  ]
