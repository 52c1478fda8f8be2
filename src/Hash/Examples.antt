-- ===== src/Hash/Examples.antt =====
-- Tests of the hash: the assertions of hash.h, and its theorem at five bytes.
use nxdb.Common.{ℕ, ◌≡◌, refl, [], ◌∷◌, arith, List}
use nxdb.Hash.{
  unsigned_char, signed_char, hash_text, hash_murmur, mix_blocks, finalize, mix_tail, read,
  get_block, scramble, final_mix, rotate_left_32, mix_block, to_word,
}
use nxdb.Hash.Murmur3.{
  turn, mix_key, mix_body, fold_down, avalanche, little_endian, body, murmur3, hash_murmur-murmur3,
}

-- "meow meow meow".
meow :
    hash_text unsigned_char
      (109 ∷ 101 ∷ 111 ∷ 119 ∷ 32 ∷ 109 ∷ 101 ∷ 111 ∷ 119 ∷ 32 ∷ 109 ∷ 101 ∷ 111 ∷ 119 ∷ [])
      0
    ≡ 437815478
unfolding hash_text hash_murmur mix_blocks finalize mix_tail read get_block scramble final_mix
    rotate_left_32 mix_block to_word
meow = refl

-- "Haiiiiiiiiiiii".
hai :
    hash_text unsigned_char
      (72 ∷ 97 ∷ 105 ∷ 105 ∷ 105 ∷ 105 ∷ 105 ∷ 105 ∷ 105 ∷ 105 ∷ 105 ∷ 105 ∷ 105 ∷ 105 ∷ [])
      0
    ≡ 1730608331
unfolding hash_text hash_murmur mix_blocks finalize mix_tail read get_block scramble final_mix
    rotate_left_32 mix_block to_word
hai = refl

-- ":333333333".
threes :
    hash_text unsigned_char (58 ∷ 51 ∷ 51 ∷ 51 ∷ 51 ∷ 51 ∷ 51 ∷ 51 ∷ 51 ∷ 51 ∷ []) 184594917
    ≡ 1329184469
unfolding hash_text hash_murmur mix_blocks finalize mix_tail read get_block scramble final_mix
    rotate_left_32 mix_block to_word
threes = refl

-- The text with umlauts.
abbrev umlauts : List ℕ
umlauts =
    108 ∷ 107 ∷ 100 ∷ 106 ∷ 116 ∷ 103 ∷ 108 ∷ 106 ∷ 107 ∷ 119 ∷ 101 ∷ 114 ∷ 108 ∷ 107 ∷ 103 ∷ 118
    ∷ 101 ∷ 114 ∷ 35 ∷ 103 ∷ 35 ∷ 195 ∷ 164 ∷ 195 ∷ 164 ∷ 53 ∷ 114 ∷ 43 ∷ 35 ∷ 195 ∷ 164 ∷ 35 ∷ 50
    ∷ 51 ∷ 195 ∷ 188 ∷ 52 ∷ 35 ∷ 50 ∷ 195 ∷ 188 ∷ 51 ∷ 52 ∷ 50 ∷ 48 ∷ 51 ∷ 57 ∷ 53 ∷ 57 ∷ 48 ∷ 52
    ∷ 101 ∷ 51 ∷ 114 ∷ 56 ∷ 105 ∷ 57 ∷ []

with_umlauts : hash_text unsigned_char umlauts 184594918 ≡ 3400513863
unfolding hash_text hash_murmur mix_blocks finalize mix_tail read get_block scramble final_mix
    rotate_left_32 mix_block to_word
with_umlauts = refl

-- The assertion that client/Include/pe/Hash.h leaves out: there it does not hold.
with_signs : hash_text signed_char umlauts 184594918 ≡ 1733818528
unfolding hash_text hash_murmur mix_blocks finalize mix_tail read get_block scramble final_mix
    rotate_left_32 mix_block to_word
with_signs = refl

-- The published values of MurmurHash3 for "test" and "Hello, world!".
known_test : murmur3 (116 ∷ 101 ∷ 115 ∷ 116 ∷ []) 0 ≡ 0xba6b_d213
unfolding turn mix_key mix_body fold_down avalanche little_endian body murmur3
known_test = refl

known_hello :
    murmur3
      (72 ∷ 101 ∷ 108 ∷ 108 ∷ 111 ∷ 44 ∷ 32 ∷ 119 ∷ 111 ∷ 114 ∷ 108 ∷ 100 ∷ 33 ∷ [])
      0x9747_b28c
    ≡ 0x2488_4cba
unfolding turn mix_key mix_body fold_down avalanche little_endian body murmur3
known_hello = refl

hash_murmur-murmur3_example :
    hash_murmur signed_char (104 ∷ 97 ∷ 105 ∷ 105 ∷ 33 ∷ []) 5 7
    ≡ murmur3 (104 ∷ 97 ∷ 105 ∷ 105 ∷ 33 ∷ []) 7
hash_murmur-murmur3_example =
    hash_murmur-murmur3 signed_char (104 ∷ 97 ∷ 105 ∷ 105 ∷ 33 ∷ []) 7 (omega arith) (omega arith)
