-- ===== src/Common/Bytes.antt =====
-- Memory as a list of bytes: little-endian words, in-place writes and moves, C strings.
use Prim.Native.Nat.{ℕ, ◌+◌, ◌*◌, ◌/◌, ◌%◌, ◌^◌, ◌<◌}
use mathlib.Core.Path.{◌≡◌, refl}
use mathlib.Core.List.{List, [], ◌∷◌, ◌++◌}
use mathlib.Core.Option.{Option, none, some}
use mathlib.Core.Option
use native.Mathlib.Omega.{arith}
use nxdb.Common.Lists.{get_or, take, drop, length}
use nxdb.Common.Tests.{◌==◌, if◌then◌else◌}

abbrev pub byte_at : List ℕ → ℕ → ℕ
byte_at m i = get_or m i 0

abbrev pub IsByte : ℕ → Type 0
IsByte b = b < 256

-- A `uint32_t` in memory, on the little-endian machines that both programs run on.
unfoldable pub put_u32 : ℕ → List ℕ
put_u32 n = n % 256 ∷ (n / 256) % 256 ∷ (n / 65536) % 256 ∷ (n / 16777216) % 256 ∷ []

unfoldable pub get_u32 : List ℕ → ℕ → ℕ
get_u32 m i =
    byte_at m i + 256 * byte_at m (i + 1) + 65536 * byte_at m (i + 2) + 16777216 * byte_at m (i + 3)

-- `std::memcpy` or `recv` into the memory at an offset.
unfoldable pub write_at : List ℕ → ℕ → List ℕ → List ℕ
write_at m i bs = take i m ++ (bs ++ drop (i + length bs) m)

-- `memmove(m, m + from, n)`.
unfoldable pub move_down : List ℕ → ℕ → ℕ → List ℕ
move_down m from n = take n (drop from m) ++ drop n m

-- The text of a C string; without a terminator in the memory it runs out of it, `none`.
unfoldable pub c_string : List ℕ → Option (List ℕ)
c_string [] = none
c_string (b ∷ m) = if b == 0 then some [] else Option.map (λ t. b ∷ t) (c_string m)

pub get_u32-put_u32 : (n : ℕ) (rest : List ℕ) → n < 2 ^ 32 → get_u32 (put_u32 n ++ rest) 0 ≡ n
unfolding get_u32 put_u32
get_u32-put_u32 n rest h = omega arith

pub length-put_u32 : (n : ℕ) → length (put_u32 n) ≡ 4
unfolding put_u32
length-put_u32 n = refl
