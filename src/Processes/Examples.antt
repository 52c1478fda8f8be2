-- ===== src/Processes/Examples.antt =====
-- Tests of the process list, and its theorems at a system with one process and at one with too many.
use nxdb.Common.{
  ℕ, zero, suc, ◌+◌, ◌<◌, ◌≡◌, ◌∙◌, refl, ap, true, false, List, [], ◌∷◌, ◌++◌, none, some, arith,
  ◌==◌, if◌then◌else◌, length, take, drop,
}
use nxdb.Processes.{
  Process, System, DebugEvent, attached, listed, max_pid_search_range, has_program, search_pids,
  describe, describe_all, get_process_list,
}
use nxdb.Processes.Search.{running, running-empty, get_process_list_lem, process_ids}

abbrev created : DebugEvent
created = record { is_create_process = true; program_id = 0x100; name = 0x61 ∷ [] }

-- One process, with the id 0, and a program behind every id.
abbrev single : System
single = record {
  get_program_id = λ i. if i == 0 then some 0x100 else none;
  debug = λ i. attached created;
}

abbrev crowded : System
crowded = record { get_program_id = λ i. some 0x100; debug = λ i. attached created }

abbrev blank : Process
blank = record { process_id = 0; program_id = 0; name = [] }

two_of_three :
    describe_all crowded (4 ∷ 9 ∷ []) (blank ∷ blank ∷ blank ∷ []) 2 []
    ≡ listed 2 (
        record { process_id = 4; program_id = 0x100; name = 0x61 ∷ [] }
        ∷ record { process_id = 9; program_id = 0x100; name = 0x61 ∷ [] }
        ∷ blank
        ∷ [])
unfolding describe_all describe
two_of_three = refl

found_two : search_pids crowded 2 5 (3 ∷ []) ≡ some (3 ∷ 5 ∷ 6 ∷ [])
unfolding search_pids has_program
found_two = refl

other : (i : ℕ) → 0 < i → (i == 0) ≡ false
other i h = ground arith

running_alone : (n i : ℕ) → 0 < i → running single n i ≡ []
unfolding running has_program
running_alone zero i h = refl
running_alone (suc n) i h =
    let absent : has_program single i ≡ false = rw (has_program, other i h) refl in
    running-empty single n i absent ∙ running_alone n (i + 1) (omega arith)

running-single : running single max_pid_search_range 0 ≡ 0 ∷ []
unfolding running has_program
running-single = ap (◌∷◌ 0) (running_alone 4095 1 (omega arith))

running-crowded : (n i : ℕ) → length (running crowded n i) ≡ n
unfolding running has_program
running-crowded zero i = refl
running-crowded (suc n) i = ap suc (running-crowded n (i + 1))

get_process_list_lem_example :
    (described : List Process) × (get_process_list single (blank ∷ []) 1
      ≡ listed (length described) (described ++ drop (length described) (blank ∷ [])))
    × (process_ids single described ≡ take 1 (running single max_pid_search_range 0))
get_process_list_lem_example =
    get_process_list_lem single (blank ∷ []) 1 (omega (arith, ap length running-single))
      (omega arith) (rw running-single ((λ e. ground arith), tt))
