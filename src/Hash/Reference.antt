-- ===== src/Hash/Reference.antt =====
-- The hash of hash.h as a recursion on the bytes themselves.
use Prim.Native.Nat.{bit_or, bit_xor}
use nxdb.Common.{
  ℕ, zero, suc, ◌+◌, ◌-◌, ◌*◌, ◌/◌, ◌%◌, ◌^◌, ◌≤◌, ◌<◌, ◌≡◌, refl, sym, ap, ap₂, ◌∙◌, arith, List,
  [], ◌∷◌, All, length, drop, byte_at,
}
use nxdb.Hash.{
  CharType, unsigned_char, signed_char, shift_left, to_word, read, get_block, scramble, mix_block,
  mix_blocks, final_mix, mix_tail, finalize, hash_murmur,
}
use nxdb.Hash.Bits.{zero-xor, or-low, xor-fields}

-- The bytes from a block on, and those that are left behind the last one.
unfoldable pub absorb : List ℕ → ℕ → ℕ
absorb [] h = h
absorb (a ∷ []) h = bit_xor h (scramble a)
absorb (a ∷ b ∷ []) h = bit_xor h (scramble (a + 256 * b))
absorb (a ∷ b ∷ c ∷ []) h = bit_xor h (scramble (a + 256 * b + 65536 * c))
absorb (a ∷ b ∷ c ∷ d ∷ bs) h = absorb bs (mix_block h (a + 256 * b + 65536 * c + 16777216 * d))

unfoldable pub by_bytes : List ℕ → ℕ → ℕ
by_bytes bs seed = final_mix (bit_xor (absorb bs seed) (length bs))

-- The characters whose value does not depend on their sign.
abbrev pub limit : CharType → ℕ
limit unsigned_char = 256
limit signed_char = 128

to_word-plain : (t : CharType) (b : ℕ) → b < limit t → to_word t b ≡ b
unfolding to_word
to_word-plain unsigned_char b h = refl
to_word-plain signed_char b h = ground arith

pub limit-le : (t : CharType) → limit t ≤ 256
limit-le unsigned_char = omega arith
limit-le signed_char = omega arith

byte_at-drop : (m : List ℕ) (n k : ℕ) → byte_at m (n + k) ≡ byte_at (drop n m) k
byte_at-drop m zero k = ap (byte_at m) (omega arith)
byte_at-drop [] (suc n) k = refl
byte_at-drop (x ∷ m) (suc n) k = grind (arith, byte_at-drop m n k)

drop-nil : (n : ℕ) → drop {A = ℕ} n [] ≡ []
drop-nil zero = refl
drop-nil (suc n) = refl

drop-drop : (m : List ℕ) (n k : ℕ) → drop (n + k) m ≡ drop k (drop n m)
drop-drop m zero k = ap (λ j. drop j m) (omega arith)
drop-drop [] (suc n) k = drop-nil (suc n + k) ∙ sym (drop-nil k)
drop-drop (x ∷ m) (suc n) k = grind (arith, drop-drop m n k)

-- The bytes of a word, put together.
join :
    (a b c d : ℕ)
    → a < 256
    → b < 256
    → c < 256
    → d < 256
    → bit_or (bit_or (bit_or (shift_left a 0) (shift_left b 8)) (shift_left c 16)) (shift_left d 24)
      ≡ a + 256 * b + 65536 * c + 16777216 * d
join a b c d ha hb hc hd =
    let a' : shift_left a 0 ≡ a = omega arith in
    let b' : shift_left b 8 ≡ b * 2 ^ 8 = omega arith in
    let c' : shift_left c 16 ≡ c * 2 ^ 16 = omega arith in
    let d' : shift_left d 24 ≡ d * 2 ^ 24 = omega arith in
    let two = or-low 8 b a (omega arith) in
    let three = or-low 16 c (b * 2 ^ 8 + a) (omega arith) in
    let four = or-low 24 d (c * 2 ^ 16 + (b * 2 ^ 8 + a)) (omega arith) in
    ap₂ bit_or (ap₂ bit_or (ap₂ bit_or a' b' ∙ two) c' ∙ three) d' ∙ four ∙ omega arith

module _ (t : CharType) (m : List ℕ) where
  -- A character of the bytes from `n` on.
  read-at :
      (n k b : ℕ) (bs : List ℕ)
      → drop n m ≡ bs
      → byte_at bs k ≡ b
      → b < limit t
      → (i : ℕ) → i ≡ n + k
      → read t m i ≡ b
  unfolding read
  read-at n k b bs e at plain i place =
      ap (λ j. to_word t (byte_at m j)) place
      ∙ ap (to_word t) (byte_at-drop m n k ∙ ap (λ xs. byte_at xs k) e ∙ at)
      ∙ to_word-plain t b plain

  get_block-word :
      (i a b c d : ℕ) (bs : List ℕ)
      → drop (i * 4) m ≡ a ∷ b ∷ c ∷ d ∷ bs
      → a < limit t
      → b < limit t
      → c < limit t
      → d < limit t
      → get_block t m i ≡ a + 256 * b + 65536 * c + 16777216 * d
  unfolding get_block
  get_block-word i a b c d bs e ha hb hc hd =
      let at = λ (k x : ℕ) (here : byte_at (a ∷ b ∷ c ∷ d ∷ bs) k ≡ x) (hx : x < limit t).
        read-at (i * 4) k x (a ∷ b ∷ c ∷ d ∷ bs) e here hx in
      let low = limit-le t in
      ap₂ bit_or
        (ap₂ bit_or
          (ap₂ bit_or (ap (λ x. shift_left x 0) (at 0 a refl ha (0 + i * 4) (omega arith)))
            (ap (λ x. shift_left x 8) (at 1 b refl hb (1 + i * 4) (omega arith))))
          (ap (λ x. shift_left x 16) (at 2 c refl hc (2 + i * 4) (omega arith))))
        (ap (λ x. shift_left x 24) (at 3 d refl hd (3 + i * 4) (omega arith)))
      ∙ join a b c d (omega arith) (omega arith) (omega arith) (omega arith)

  -- What the switch makes of the bytes behind the last block.
  mix_tail-absorb :
      (i h : ℕ) (bs : List ℕ)
      → drop (i * 4) m ≡ bs
      → length bs < 4
      → All (λ b. b < limit t) bs
      → mix_tail t m (i * 4) (length bs) h ≡ absorb bs h
  unfolding mix_tail absorb
  mix_tail-absorb i h [] e short plain = refl
  mix_tail-absorb i h (a ∷ []) e short plain =
      ap (λ x. bit_xor h (scramble x))
        (ap (bit_xor 0) (read-at (i * 4) 0 a (a ∷ []) e refl plain.0 (i * 4 + 0) refl) ∙ zero-xor a)
  mix_tail-absorb i h (a ∷ b ∷ []) e short plain =
      let at = λ (k x : ℕ) (here : byte_at (a ∷ b ∷ []) k ≡ x) (hx : x < limit t).
        read-at (i * 4) k x (a ∷ b ∷ []) e here hx (i * 4 + k) refl in
      let low = limit-le t in
      let word : shift_left b 8 ≡ b * 2 ^ 8 = omega arith in
      ap (λ x. bit_xor h (scramble x))
        (ap₂ bit_xor
            (ap (λ x. bit_xor 0 (shift_left x 8)) (at 1 b refl plain.1.0) ∙ zero-xor _ ∙ word)
            (at 0 a refl plain.0)
          ∙ xor-fields 8 b a (omega arith)
          ∙ omega arith)
  mix_tail-absorb i h (a ∷ b ∷ c ∷ []) e short plain =
      let at = λ (k x : ℕ) (here : byte_at (a ∷ b ∷ c ∷ []) k ≡ x) (hx : x < limit t).
        read-at (i * 4) k x (a ∷ b ∷ c ∷ []) e here hx (i * 4 + k) refl in
      let low = limit-le t in
      let word : shift_left b 8 ≡ b * 2 ^ 8 = omega arith in
      let high : shift_left c 16 ≡ c * 2 ^ 16 = omega arith in
      let shape : c * 2 ^ 16 + b * 2 ^ 8 ≡ (c * 2 ^ 8 + b) * 2 ^ 8 = omega arith in
      ap (λ x. bit_xor h (scramble x))
        (ap₂ bit_xor
            (ap₂ bit_xor
                (ap (λ x. bit_xor 0 (shift_left x 16)) (at 2 c refl plain.1.1.0)
                  ∙ zero-xor _
                  ∙ high)
                (ap (λ x. shift_left x 8) (at 1 b refl plain.1.0) ∙ word)
              ∙ xor-fields 16 c (b * 2 ^ 8) (omega arith)
              ∙ shape)
            (at 0 a refl plain.0)
          ∙ xor-fields 8 (c * 2 ^ 8 + b) a (omega arith)
          ∙ omega arith)
  mix_tail-absorb i h (a ∷ b ∷ c ∷ d ∷ bs) e short plain = absurd (omega arith)

  -- The loop and what comes behind it, from a block on.
  from_block :
      (i left len h : ℕ) (bs : List ℕ)
      → drop (i * 4) m ≡ bs
      → len ≡ i * 4 + length bs
      → left ≡ length bs / 4
      → All (λ b. b < limit t) bs
      → finalize t m len (mix_blocks t m left i h) ≡ final_mix (bit_xor (absorb bs h) len)
  unfolding mix_blocks absorb finalize
  from_block i zero len h bs e size rounds plain =
      let behind : len - len % 4 ≡ i * 4 = omega arith in
      let left_over : len % 4 ≡ length bs = omega arith in
      ap (λ x. final_mix (bit_xor x len))
        (ap₂ (λ n r. mix_tail t m n r h) behind left_over
          ∙ mix_tail-absorb i h bs e (omega arith) plain)
  from_block i (suc left) len h [] e size rounds plain = absurd (omega arith)
  from_block i (suc left) len h (a ∷ []) e size rounds plain = absurd (omega arith)
  from_block i (suc left) len h (a ∷ b ∷ []) e size rounds plain = absurd (omega arith)
  from_block i (suc left) len h (a ∷ b ∷ c ∷ []) e size rounds plain = absurd (omega arith)
  from_block i (suc left) len h (a ∷ b ∷ c ∷ d ∷ bs) e size rounds (ha, (hb, (hc, (hd, plain)))) =
      let word = get_block-word i a b c d bs e ha hb hc hd in
      let next : drop ((i + 1) * 4) m ≡ bs =
        ap (λ n. drop n m) (omega arith) ∙ drop-drop m (i * 4) 4 ∙ ap (drop 4) e in
      ap (λ k. finalize t m len (mix_blocks t m left (i + 1) (mix_block h k))) word
      ∙ from_block (i + 1) left len (mix_block h (a + 256 * b + 65536 * c + 16777216 * d)) bs next
          (omega arith) (omega arith) plain

-- hash.h takes the bytes in this order: with an unsigned character any, with a signed one those below
-- 128.
pub hash_murmur-by_bytes :
    (t : CharType) (bs : List ℕ) (seed : ℕ)
    → All (λ b. b < limit t) bs
    → hash_murmur t bs (length bs) seed ≡ by_bytes bs seed
unfolding hash_murmur by_bytes
hash_murmur-by_bytes t bs seed plain =
    from_block t bs 0 (length bs / 4) (length bs) seed bs refl (omega arith) refl plain
