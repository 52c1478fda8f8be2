-- ===== src/Session.antt =====
-- sysmodule/source/nxdb/windows/DebuggingSession.h, DebuggingSession.cpp and DebuggingSessionGui.cpp: the
-- modules of the debugged process and their names, and the debug events. What the kernel answers is a
-- parameter. Addresses are 64 bits wide.
pub mod Modules
pub mod Names
pub mod Events
pub mod Ending
pub mod Opening
mod Examples
use nxdb.Common.{
  ℕ, zero, suc, ◌+◌, ◌-◌, ◌%◌, ◌^◌, Bool, true, false, ◌&&◌, ◌||◌, not, List, [], ◌∷◌, ◌++◌, Option,
  none, some, ltb, leb, ◌==◌, if◌then◌else◌, length, take, drop, replicate, write_at, c_string,
}
use nxdb.MemoryMap.{word}

-- The fields of `MemoryInfo` that the code reads.
pub record Region : Type 0 where
  pub addr : ℕ
  pub size : ℕ
  pub type : ℕ
  pub perm : ℕ

-- What is read behind a module; `path_length` is the bit pattern of an `s32`, `path` has 0x200 bytes.
pub record ModulePath : Type 0 where
  pub zero_word : ℕ
  pub path_length : ℕ
  pub path : List ℕ

pub record Module : Type 0 where
  pub base : ℕ
  pub size : ℕ
  pub name : List ℕ

-- The answers: the region at an address, and the memory behind a module, `none` for a failure. Then the
-- numbers of `Perm_Rx` and of three types of memory.
pub record Target : Type 0 where
  pub query : ℕ → Option Region
  pub read_path : ℕ → Option ModulePath
  pub perm_rx : ℕ
  pub code_static : ℕ
  pub module_code_static : ℕ
  pub reserved : ℕ

abbrev pub max_modules : ℕ
max_modules = 13

abbrev pub name_size : ℕ
name_size = 0x200

-- `undefined` is the use of a region that was not filled in, `overruns` a write behind `mModules`.
pub data Found : Type 0 where
  found : List Module → Found
  undefined overruns starved : Found

-- `pathLength > 0 && pathLength <= 0x200`, of an `s32`, with the word in front of it.
unfoldable pub has_path : ModulePath → Bool
has_path p = p.zero_word == 0 && ltb 0 p.path_length && leb p.path_length name_size

-- `mod0Name`, zeros before. The zero that follows is written into the local copy.
unfoldable pub module_name : Option ModulePath → List ℕ
unfolding has_path
module_name none = replicate name_size 0
module_name (some p) =
    if has_path p
    then write_at (replicate name_size 0) 0 (take p.path_length p.path)
    else replicate name_size 0

-- What the module list shows of a name: it starts at the last backslash, if there is one. `none` is a
-- name without an end.
unfoldable pub last_part : List ℕ → Option (List ℕ)
last_part [] = none
last_part (b ∷ bs) = elim (last_part bs) [
  | some part ↦ some part
  | none ↦ if b == b'\\' then some (b ∷ bs) else none
]

unfoldable pub shown_name : Module → Option (List ℕ)
unfolding last_part
shown_name m = elim (c_string m.name) [
  | none ↦ none
  | some text ↦ elim (last_part text) [ none ↦ some text | some part ↦ some part ]
]

module _ (t : Target) where
  unfoldable pub is_module : Region → Bool
  is_module r = r.perm == t.perm_rx && (r.type == t.code_static || r.type == t.module_code_static)

  unfoldable pub module_of : Region → Module
  unfolding module_name
  module_of r = record {
    base = r.addr;
    size = r.size;
    name = module_name (t.read_path (word (r.addr + r.size)));
  }

  unfoldable pub add_module : List Module → Region → List Module
  add_module mods r = if is_module r then mods ++ module_of r ∷ [] else mods

  -- The loop of `findModules`, at `addr`, with the modules found so far.
  unfoldable pub find_from : ℕ → ℕ → List Module → Found
  find_from zero addr mods = starved
  find_from (suc fuel) addr mods = elim (t.query addr) [
    | none ↦ undefined
    | some r ↦ elim (is_module r && not (ltb (length mods) max_modules)) [
      | true ↦ overruns
      | false ↦ elim (r.type == t.reserved || ltb (word (r.addr + r.size)) addr) [
        | true ↦ found (add_module mods r)
        | false ↦ find_from fuel (word (r.addr + r.size)) (add_module mods r)
      ]
    ]
  ]

  unfoldable pub find_modules : ℕ → Found
  find_modules fuel = find_from fuel 0 []
