-- ===== src/Hash.antt =====
-- sysmodule/include/hash.h and client/Include/pe/Hash.h: `hashMurmur`, by which the viewer notices
-- another clipboard text, and the sysmodule another draw list. A word is a number below 2 ^ 32.
pub mod Bits
pub mod Reference
pub mod Steps
pub mod Murmur3
pub mod Change
pub mod Signed
mod Examples
use Prim.Native.Nat.{bit_or, bit_xor}
use nxdb.Common.{
  ℕ, zero, suc, ◌+◌, ◌-◌, ◌*◌, ◌/◌, ◌%◌, ◌^◌, List, leb, ◌==◌, if◌then◌else◌, length, byte_at,
}

-- The type of a character: `u8`, a `char` without a sign, as on the console, or one with a sign, as on
-- the machines that the viewer runs on.
pub data CharType : Type 0 where
  unsigned_char signed_char : CharType

-- `u32(x << r)`.
abbrev pub shift_left : ℕ → ℕ → ℕ
shift_left x r = x * 2 ^ r % 2 ^ 32

-- A character as an `u32`.
unfoldable pub to_word : CharType → ℕ → ℕ
to_word unsigned_char b = b
to_word signed_char b = if leb 128 b then b + (2 ^ 32 - 256) else b

-- `ReadDefault::read`.
unfoldable pub read : CharType → List ℕ → ℕ → ℕ
unfolding to_word
read t m i = to_word t (byte_at m i)

unfoldable pub get_block : CharType → List ℕ → ℕ → ℕ
unfolding read
get_block t m i =
    let a = read t m (0 + i * 4) in
    let b = read t m (1 + i * 4) in
    let c = read t m (2 + i * 4) in
    let d = read t m (3 + i * 4) in
    bit_or (bit_or (bit_or (shift_left a 0) (shift_left b 8)) (shift_left c 16)) (shift_left d 24)

unfoldable pub rotate_left_32 : ℕ → ℕ → ℕ
rotate_left_32 x r = bit_or (shift_left x r) (x / 2 ^ (32 - r))

unfoldable pub final_mix : ℕ → ℕ
final_mix h =
    let h₁ = bit_xor h (h / 2 ^ 16) in
    let h₂ = h₁ * 0x85eb_ca6b % 2 ^ 32 in
    let h₃ = bit_xor h₂ (h₂ / 2 ^ 13) in
    let h₄ = h₃ * 0xc2b2_ae35 % 2 ^ 32 in bit_xor h₄ (h₄ / 2 ^ 16)

-- `k1 *= c1; k1 = rotateLeft32(k1, 15); k1 *= c2`.
unfoldable pub scramble : ℕ → ℕ
unfolding rotate_left_32
scramble k = rotate_left_32 (k * 0xcc9e_2d51 % 2 ^ 32) 15 * 0x1b87_3593 % 2 ^ 32

-- The body of the loop, at a block.
unfoldable pub mix_block : ℕ → ℕ → ℕ
unfolding rotate_left_32 scramble
mix_block h k = (rotate_left_32 (bit_xor h (scramble k)) 13 * 5 + 0xe654_6b64) % 2 ^ 32

-- The loop of `calculateWithCallback`, with so many rounds left, at the block `i`.
unfoldable pub mix_blocks : CharType → List ℕ → ℕ → ℕ → ℕ → ℕ
mix_blocks t m zero i h = h
mix_blocks t m (suc left) i h = mix_blocks t m left (i + 1) (mix_block h (get_block t m i))

-- The switch of `finalize` over `r = mLen & 3`, whose cases fall through.
unfoldable pub mix_tail : CharType → List ℕ → ℕ → ℕ → ℕ → ℕ
mix_tail t m tail r h =
    let k₃ = if leb 3 r then bit_xor 0 (shift_left (read t m (tail + 2)) 16) else 0 in
    let k₂ = if leb 2 r then bit_xor k₃ (shift_left (read t m (tail + 1)) 8) else k₃ in
    if leb 1 r then bit_xor h (scramble (bit_xor k₂ (read t m (tail + 0)))) else h

unfoldable pub finalize : CharType → List ℕ → ℕ → ℕ → ℕ
finalize t m len h = final_mix (bit_xor (mix_tail t m (len - len % 4) (len % 4) h) len)

-- `hashMurmurImpl`, of the first `len` bytes of this memory.
unfoldable pub hash_murmur : CharType → List ℕ → ℕ → ℕ → ℕ
hash_murmur t m len seed = finalize t m len (mix_blocks t m (len / 4) 0 seed)

-- `hashMurmur` of a C string.
unfoldable pub hash_text : CharType → List ℕ → ℕ → ℕ
hash_text t text seed = hash_murmur t text (length text % 2 ^ 32) seed
