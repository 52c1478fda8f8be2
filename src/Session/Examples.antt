-- ===== src/Session/Examples.antt =====
-- Tests of the session's definitions, and their theorems at a small process.
use nxdb.Common.{
  ℕ, zero, suc, ◌+◌, ◌<◌, ◌≡◌, refl, Bool, true, false, List, [], ◌∷◌, Option, none, some, arith,
  ltb, ◌==◌, if◌then◌else◌, write_at, c_string, ap,
}
use nxdb.Session.{
  Region, ModulePath, Target, found, overruns, is_module, module_of, add_module, find_from,
  find_modules, has_path, module_name, last_part, shown_name,
}
use nxdb.Session.Opening.{not_attached, opening_aborts, opening_undefined, Answers, construct}
use nxdb.Session.Modules.{Describes, modules_in, find_modules_lem, find_modules_overrun}
use nxdb.Session.Events.{Event, Calls, Debugged, returned, busy, thread_round, find_name}
use nxdb.Session.Events.Rounds.{Laws, thread_round_lem, find_name_lem}

abbrev main_path : ModulePath
main_path = record { zero_word = 0; path_length = 5; path = b'd' ∷ b'\\' ∷ b'm' ∷ b'.' ∷ b'n' ∷ [] }

-- One region of code in front of the one that ends the address space.
abbrev code_region : Region
code_region = record { addr = 0; size = 0x1000; type = 3; perm = 5 }

abbrev end_region : Region
end_region = record { addr = 0x1000; size = 0x1000; type = 16; perm = 0 }

abbrev small : Target
small = record {
  query = λ a. if a == 0 then some code_region else some end_region;
  read_path = λ a. some main_path;
  perm_rx = 5;
  code_static = 3;
  module_code_static = 8;
  reserved = 16;
}

-- Sixteen regions of code.
abbrev code_at : ℕ → Region
code_at a = record { addr = a; size = 1; type = 3; perm = 5 }

abbrev crowded : Target
crowded = record small {
  query = λ a. if ltb a 14 then some (code_at a) else some (record end_region { addr = a });
}

small_modules : find_modules small 3 ≡ found (module_of small code_region ∷ [])
unfolding find_modules find_from add_module is_module
small_modules = refl

crowded_modules : find_modules crowded 20 ≡ overruns
unfolding find_modules find_from add_module is_module
crowded_modules = refl

shown_main : shown_name (module_of small code_region) ≡ some (b'\\' ∷ b'm' ∷ b'.' ∷ b'n' ∷ [])
unfolding module_of module_name has_path write_at shown_name last_part c_string
shown_main = refl

find_modules_lem_example :
    find_modules small 2 ≡ found (modules_in small (code_region ∷ end_region ∷ []))
unfolding modules_in is_module
find_modules_lem_example =
    find_modules_lem small 2 code_region (end_region ∷ []) (refl, refl, (refl, refl)) (omega arith)
      (omega arith)

regions_from : ℕ → ℕ → List Region
regions_from zero a = record end_region { addr = a } ∷ []
regions_from (suc n) a = code_at a ∷ regions_from n (a + 1)

crowded_regions : List Region
unfolding regions_from
crowded_regions = regions_from 13 1

crowded-Describes : Describes crowded 0 (code_at 0) crowded_regions
unfolding crowded_regions regions_from
crowded-Describes = (
  refl,
  refl,
  (
    refl,
    refl,
    (
      refl,
      refl,
      (
        refl,
        refl,
        (
          refl,
          refl,
          (
            refl,
            refl,
            (
              refl,
              refl,
              (
                refl,
                refl,
                (
                  refl,
                  refl,
                  (
                    refl,
                    refl,
                    (refl, refl, (refl, refl, (refl, refl, (refl, refl, (refl, refl))))),
                  ),
                ),
              ),
            ),
          ),
        ),
      ),
    ),
  ),
)

find_modules_overrun_example : find_modules crowded 20 ≡ overruns
unfolding crowded_regions regions_from modules_in is_module
find_modules_overrun_example =
    find_modules_overrun crowded 20 (code_at 0) crowded_regions crowded-Describes (omega arith)
      (omega arith)

-- A kernel that counts the events and knows whether the process runs.
abbrev start_event : Event
start_event = record { type = 0; program_id = 0x100; name = b'a' ∷ [] }

continue_event : ℕ × Bool → ℕ × (ℕ × Bool)
continue_event (zero, runs) = (0, (0, true))
continue_event (suc n, runs) = (busy, (suc n, runs))

get_event : ℕ × Bool → Option Event × (ℕ × Bool)
get_event (zero, runs) = (none, (0, runs))
get_event (suc n, runs) = (some start_event, (n, runs))

abbrev counting : Calls (ℕ × Bool)
counting = record {
  set_mask = λ core k. (true, k);
  continue_event = continue_event;
  get_event = get_event;
  wait = λ k. (0, k);
  create_process = 0;
}

waiting : ℕ × Bool → ℕ
waiting k = k.0

refused : (k : ℕ × Bool) → 0 < waiting k → continue_event k ≡ (busy, k)
unfolding continue_event waiting
refused (zero, runs) h = absurd (omega arith)
refused (suc n, runs) h = refl

allowed : (k : ℕ × Bool) → waiting k ≡ 0 → continue_event k ≡ (0, (0, true))
unfolding continue_event waiting
allowed (zero, runs) h = refl
allowed (suc n, runs) h = absurd (omega arith)

some_got :
    (k : ℕ × Bool)
    → 0 < waiting k
    → ((get_event k).0 ≡ some start_event) × (suc (waiting (get_event k).1) ≡ waiting k)
unfolding get_event waiting
some_got (zero, runs) h = absurd (omega arith)
some_got (suc n, runs) h = (refl, refl)

none_got : (k : ℕ × Bool) → waiting k ≡ 0 → ((get_event k).0 ≡ none) × (waiting (get_event k).1 ≡ 0)
unfolding get_event waiting
none_got (zero, runs) h = (refl, refl)
none_got (suc n, runs) h = absurd (omega arith)

counting-Laws : Laws counting
unfolding waiting
counting-Laws = record {
  pending = waiting;
  running = λ k. k.1;
  masked = λ core k. refl;
  masked_pending = λ core k. refl;
  is_busy = λ k h. ap (λ r. r.0) (refused k h);
  is_busy_pending = λ k h. ap (λ r. waiting r.1) (refused k h);
  continued = λ k h. ap (λ r. r.0) (allowed k h);
  continued_pending = λ k h. ap (λ r. waiting r.1) (allowed k h);
  continued_running = λ k h. ap (λ r. r.1.1) (allowed k h);
  got = λ k h. (start_event, (some_got k h).0);
  got_pending = λ k h. (some_got k h).1;
  got_none = λ k h. (none_got k h).0;
  got_none_pending = λ k h. (none_got k h).1;
}

abbrev debugged : Debugged (ℕ × Bool)
debugged = record { program_id = 0; name = []; should_continue = true; kernel = (2, false) }

thread_round_lem_example :
    (s' : Debugged (ℕ × Bool)) × (thread_round counting 3 debugged ≡ returned s')
    × (waiting s'.kernel ≡ 0)
    × (s'.should_continue ≡ false)
    × (s'.kernel.1 ≡ true)
unfolding counting-Laws waiting
thread_round_lem_example =
    thread_round_lem counting counting-Laws 3 debugged refl (omega arith) refl

find_name_lem_example :
    (s' : Debugged (ℕ × Bool)) × (find_name counting 1 debugged ≡ returned s')
    × (s'.program_id ≡ 0x100)
    × (s'.name ≡ b'a' ∷ [])
    × (waiting s'.kernel ≡ 0)
    × (s'.kernel.1 ≡ true)
unfolding counting-Laws waiting get_event
find_name_lem_example =
    find_name_lem counting counting-Laws 1 debugged start_event refl (omega arith) (omega arith)

-- A process with fourteen regions of code is written behind `mModules` when its session is opened.
abbrev crowded_process : Answers (ℕ × Bool)
crowded_process = record {
  debug_succeeds = true;
  info_succeeds = true;
  target = crowded;
  calls = counting;
  kernel = (0, false);
  memory = record {
    query = λ a. none;
    find_aslr = λ n. none;
    map_succeeds = λ call. true;
    shared_mem = 6;
    mapped_memory = 7;
    thread_local = 12;
  };
}

crowded_opening : construct 20 crowded_process ≡ some opening_undefined
unfolding construct find_modules find_from add_module is_module
crowded_opening = refl

unnamed_opening : construct 20 (record crowded_process { target = small }) ≡ some opening_aborts
unfolding construct find_modules find_from add_module is_module find_name get_event
unnamed_opening = refl

refused_opening :
    construct 20 (record crowded_process { debug_succeeds = false }) ≡ some not_attached
unfolding construct
refused_opening = refl
