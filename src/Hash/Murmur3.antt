-- ===== src/Hash/Murmur3.antt =====
-- MurmurHash3 for 32 bits, in its own words, and that hash.h computes it.
use Prim.Native.Nat.{bit_xor}
use nxdb.Common.{
  ℕ, ◌+◌, ◌-◌, ◌*◌, ◌/◌, ◌%◌, ◌^◌, ◌<◌, ◌≡◌, refl, ap, ◌∙◌, arith, List, [], ◌∷◌, All, length,
}
use nxdb.Hash.{CharType, hash_murmur, scramble, mix_block, final_mix}
use nxdb.Hash.Bits.{xor-lt}
use nxdb.Hash.Steps.{rotate_left-sum, scramble-lt, mix_block-lt}
use nxdb.Hash.Reference.{absorb, by_bytes, limit, hash_murmur-by_bytes}

-- A word turned to the left: its upper bits come in again at the bottom.
unfoldable pub turn : ℕ → ℕ → ℕ
turn r x = x * 2 ^ r % 2 ^ 32 + x / 2 ^ (32 - r)

unfoldable pub mix_key : ℕ → ℕ
unfolding turn
mix_key k = turn 15 (k * 3432918353 % 2 ^ 32) * 461845907 % 2 ^ 32

unfoldable pub mix_body : ℕ → ℕ → ℕ
unfolding turn mix_key
mix_body h k = (turn 13 (bit_xor h (mix_key k)) * 5 + 3864292196) % 2 ^ 32

unfoldable pub fold_down : ℕ → ℕ → ℕ
fold_down r h = bit_xor h (h / 2 ^ r)

unfoldable pub avalanche : ℕ → ℕ
unfolding fold_down
avalanche h =
    fold_down 16 (fold_down 13 (fold_down 16 h * 2246822507 % 2 ^ 32) * 3266489909 % 2 ^ 32)

unfoldable pub little_endian : List ℕ → ℕ
little_endian [] = 0
little_endian (b ∷ bs) = b + 256 * little_endian bs

-- Four bytes at a time, and what is left over.
unfoldable pub body : List ℕ → ℕ → ℕ
body [] h = h
body (a ∷ []) h = bit_xor h (mix_key (little_endian (a ∷ [])))
body (a ∷ b ∷ []) h = bit_xor h (mix_key (little_endian (a ∷ b ∷ [])))
body (a ∷ b ∷ c ∷ []) h = bit_xor h (mix_key (little_endian (a ∷ b ∷ c ∷ [])))
body (a ∷ b ∷ c ∷ d ∷ bs) h = body bs (mix_body h (little_endian (a ∷ b ∷ c ∷ d ∷ [])))

unfoldable pub murmur3 : List ℕ → ℕ → ℕ
murmur3 bs seed = avalanche (bit_xor (body bs seed) (length bs))

scramble-mix_key : (k : ℕ) → scramble k ≡ mix_key k
unfolding scramble mix_key turn
scramble-mix_key k =
    let x = k * 0xcc9e_2d51 % 2 ^ 32 in
    let turned = (rotate_left-sum x (omega arith)).0 in omega (arith, turned)

mix_block-mix_body : (h k : ℕ) → h < 2 ^ 32 → mix_block h k ≡ mix_body h k
unfolding mix_block mix_body turn
mix_block-mix_body h k small =
    let x = bit_xor h (scramble k) in
    let turned = (rotate_left-sum x (xor-lt h (scramble k) small (scramble-lt k))).1 in
    let same : x ≡ bit_xor h (mix_key k) = ap (bit_xor h) (scramble-mix_key k) in
    omega (arith, turned, same)

final_mix-avalanche : (h : ℕ) → final_mix h ≡ avalanche h
unfolding final_mix avalanche fold_down
final_mix-avalanche h = refl

absorb-body : (bs : List ℕ) (h : ℕ) → h < 2 ^ 32 → absorb bs h ≡ body bs h
unfolding absorb body little_endian
absorb-body [] h small = refl
absorb-body (a ∷ []) h small = ap (bit_xor h) (ap scramble (omega arith) ∙ scramble-mix_key _)
absorb-body (a ∷ b ∷ []) h small = ap (bit_xor h) (ap scramble (omega arith) ∙ scramble-mix_key _)
absorb-body (a ∷ b ∷ c ∷ []) h small =
    ap (bit_xor h) (ap scramble (omega arith) ∙ scramble-mix_key _)
absorb-body (a ∷ b ∷ c ∷ d ∷ bs) h small =
    let k = a + 256 * b + 65536 * c + 16777216 * d in
    absorb-body bs (mix_block h k) (mix_block-lt h k)
    ∙ ap (body bs) (mix_block-mix_body h k small ∙ ap (mix_body h) (omega arith))

-- hash.h computes MurmurHash3 of the bytes, for a seed below 2 ^ 32: with an unsigned character of any
-- bytes, with a signed one of those below 128.
pub hash_murmur-murmur3 :
    (t : CharType) (bs : List ℕ) (seed : ℕ)
    → All (λ b. b < limit t) bs
    → seed < 2 ^ 32
    → hash_murmur t bs (length bs) seed ≡ murmur3 bs seed
unfolding by_bytes murmur3
hash_murmur-murmur3 t bs seed plain small =
    hash_murmur-by_bytes t bs seed plain
    ∙ final_mix-avalanche _
    ∙ ap (λ h. avalanche (bit_xor h (length bs))) (absorb-body bs seed small)
