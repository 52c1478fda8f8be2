-- ===== src/Session/Names.antt =====
-- The names of modules, from the memory of the debugged process to the module list.
use nxdb.Common.{
  ℕ, zero, suc, ◌+◌, ◌-◌, ◌≤◌, ◌<◌, ◌≡◌, refl, ap, sym, ◌∙◌, ◌≢◌, true, List, [], ◌∷◌, ◌++◌, none,
  some, arith, length, take, drop, replicate, write_at, c_string, All, length-take, take_all,
  append-nil,
}
use nxdb.Session.{ModulePath, Module, name_size, has_path, module_name, last_part, shown_name}

same_count : (k l b : ℕ) → k ≡ l → replicate k b ≡ replicate l b
same_count k l b e = ap (λ n. replicate n b) e

drop-replicate : (n m b k : ℕ) → m - n ≡ k → drop n (replicate m b) ≡ replicate k b
drop-replicate zero m b k e = same_count m k b (omega arith)
drop-replicate (suc n) zero b k e = same_count 0 k b (omega arith)
drop-replicate (suc n) (suc m) b k e = drop-replicate n m b k (omega arith)

pub c_string-ended :
    (text rest : List ℕ) → All (λ b. b ≢ 0) text → c_string (text ++ 0 ∷ rest) ≡ some text
unfolding c_string
c_string-ended [] rest plain = refl
c_string-ended (b ∷ text) rest plain = ground (arith, c_string-ended text rest plain.1)

c_string-unended : (text : List ℕ) → All (λ b. b ≢ 0) text → c_string text ≡ none
unfolding c_string
c_string-unended [] plain = refl
c_string-unended (b ∷ text) plain = ground (arith, c_string-unended text plain.1)

last_part-plain : (text : List ℕ) → All (λ b. b ≢ b'\\') text → last_part text ≡ none
unfolding last_part
last_part-plain [] plain = refl
last_part-plain (b ∷ text) plain = ground (arith, last_part-plain text plain.1)

last_part-append :
    (dir file : List ℕ)
    → All (λ b. b ≢ b'\\') file
    → last_part (dir ++ b'\\' ∷ file) ≡ some (b'\\' ∷ file)
unfolding last_part
last_part-append [] file plain = rw (last_part-plain file plain) refl
last_part-append (b ∷ dir) file plain = rw (last_part-append dir file plain) refl

shown_name-last_part :
    (m : Module) (text part : List ℕ)
    → c_string m.name ≡ some text
    → last_part text ≡ some part
    → shown_name m ≡ some part
unfolding shown_name
shown_name-last_part m text part e l = rw (shown_name, e, l) refl

has_path_lem :
    (p : ModulePath)
    → p.zero_word ≡ 0
    → 0 < p.path_length
    → p.path_length ≤ name_size
    → has_path p ≡ true
unfolding has_path
has_path_lem p h0 h1 h2 = ground arith

-- The copied path, and the zeros that are left of the name.
module_name-text :
    (p : ModulePath) (text : List ℕ)
    → p.zero_word ≡ 0
    → 0 < p.path_length
    → p.path_length ≤ name_size
    → take p.path_length p.path ≡ text
    → module_name (some p) ≡ text ++ replicate (name_size - length text) 0
unfolding module_name write_at
module_name-text p text h0 h1 h2 e =
    let long : has_path p ≡ true = has_path_lem p h0 h1 h2 in
    rw (long, e)
      (ap (text ++◌)
        (drop-replicate (0 + length text) name_size 0 (name_size - length text) (omega arith)))

-- Of a path that has no zero and at most 511 bytes the module list shows the part from its last
-- backslash on.
path_shown :
    (p : ModulePath) (dir file : List ℕ) (base size : ℕ)
    → p.zero_word ≡ 0
    → 0 < p.path_length
    → p.path_length < name_size
    → take p.path_length p.path ≡ dir ++ b'\\' ∷ file
    → All (λ b. b ≢ 0) (dir ++ b'\\' ∷ file)
    → All (λ b. b ≢ b'\\') file
    → shown_name (record { base = base; size = size; name = module_name (some p) })
      ≡ some (b'\\' ∷ file)
path_shown p dir file base size h0 h1 h2 e plain last =
    let text = dir ++ b'\\' ∷ file in
    let long = ap length (sym e) ∙ length-take p.path_length p.path in
    let zeros =
      same_count (name_size - length text) (suc (name_size - 1 - length text)) 0 (omega arith) in
    let name = module_name-text p text h0 h1 (omega arith) e ∙ ap (text ++◌) zeros in
    shown_name-last_part (record { base = base; size = size; name = module_name (some p) }) text
      (b'\\' ∷ file)
      (ap c_string name ∙ c_string-ended text (replicate (name_size - 1 - length text) 0) plain)
      (last_part-append dir file last)

-- Of a path of 512 bytes without a zero the name has no end: what the module list reads goes on behind
-- it.
path_unended :
    (p : ModulePath) (base size : ℕ)
    → p.zero_word ≡ 0
    → p.path_length ≡ name_size
    → length p.path ≡ name_size
    → All (λ b. b ≢ 0) p.path
    → shown_name (record { base = base; size = size; name = module_name (some p) }) ≡ none
unfolding shown_name
path_unended p base size h0 h1 h2 plain =
    let whole = take_all p.path_length p.path (omega arith) in
    let name =
      module_name-text p p.path h0 (omega arith) (omega arith) whole
      ∙ ap (p.path ++◌) (same_count (name_size - length p.path) 0 0 (omega arith))
      ∙ append-nil p.path in
    rw (shown_name, name, c_string-unended p.path plain) refl
