-- ===== src/Hash/Signed.antt =====
-- With a signed character, a byte from 128 on hides the three behind it in its block.
use Prim.Native.Nat.{bit_or, bit_xor}
use nxdb.Common.{
  ℕ, zero, suc, ◌+◌, ◌-◌, ◌*◌, ◌/◌, ◌%◌, ◌^◌, ◌≤◌, ◌<◌, ◌≡◌, ◌⊎◌, inl, inr, refl, sym, ap, ap₂, ◌∙◌,
  arith, List, [], ◌∷◌, ◌++◌, length, length-append, byte_at,
}
use nxdb.Hash.{
  CharType, signed_char, shift_left, to_word, read, get_block, mix_block, mix_blocks, final_mix,
  mix_tail, finalize, hash_murmur,
}
use nxdb.Hash.Bits.{or-hidden}

byte_at-outside :
    (pre xs ys post : List ℕ) (j : ℕ)
    → length xs ≡ length ys
    → (j < length pre) ⊎ (length pre + length xs ≤ j)
    → byte_at (pre ++ (xs ++ post)) j ≡ byte_at (pre ++ (ys ++ post)) j
byte_at-outside (p ∷ pre) xs ys post zero same out = refl
byte_at-outside (p ∷ pre) xs ys post (suc j) same (inl h) =
    byte_at-outside pre xs ys post j same (inl (omega arith))
byte_at-outside (p ∷ pre) xs ys post (suc j) same (inr h) =
    byte_at-outside pre xs ys post j same (inr (omega arith))
byte_at-outside [] xs ys post j same (inl h) = absurd (omega arith)
byte_at-outside [] [] [] post j same (inr h) = refl
byte_at-outside [] [] (y ∷ ys) post j same (inr h) = absurd (omega arith)
byte_at-outside [] (x ∷ xs) [] post j same (inr h) = absurd (omega arith)
byte_at-outside [] (x ∷ xs) (y ∷ ys) post zero same (inr h) = absurd (omega arith)
byte_at-outside [] (x ∷ xs) (y ∷ ys) post (suc j) same (inr h) =
    byte_at-outside [] xs ys post j (omega arith) (inr (omega arith))

byte_at-middle : (pre : List ℕ) (a : ℕ) (post : List ℕ) → byte_at (pre ++ a ∷ post) (length pre) ≡ a
byte_at-middle [] a post = refl
byte_at-middle (p ∷ pre) a post = byte_at-middle pre a post

hide :
    (a b c d : ℕ)
    → a < 256
    → let word = a + (2 ^ 32 - 256) in
      bit_or
        (bit_or (bit_or (shift_left word 0) (shift_left b 8)) (shift_left c 16))
        (shift_left d 24)
      ≡ word
hide a b c d h =
    let word = a + (2 ^ 32 - 256) in
    let first : shift_left word 0 ≡ word = omega arith in
    let second : shift_left b 8 ≡ b % 2 ^ 24 * 2 ^ 8 = omega arith in
    let third : shift_left c 16 ≡ c * 2 ^ 8 % 2 ^ 24 * 2 ^ 8 = omega arith in
    let fourth : shift_left d 24 ≡ d * 2 ^ 16 % 2 ^ 24 * 2 ^ 8 = omega arith in
    ap₂ bit_or
      (ap₂ bit_or (ap₂ bit_or first second ∙ or-hidden a b h) third ∙ or-hidden a (c * 2 ^ 8) h)
      fourth
    ∙ or-hidden a (d * 2 ^ 16) h

get_block-hidden :
    (m : List ℕ) (i a : ℕ)
    → byte_at m (i * 4) ≡ a
    → 128 ≤ a
    → a < 256
    → get_block signed_char m i ≡ a + (2 ^ 32 - 256)
unfolding get_block read
get_block-hidden m i a at negative small =
    let place : 0 + i * 4 ≡ i * 4 = omega arith in
    let word : read signed_char m (0 + i * 4) ≡ a + (2 ^ 32 - 256) =
      ap (λ j. to_word signed_char (byte_at m j)) place
      ∙ (ap (to_word signed_char) at ∙ extended) in
    ap
      (λ x.
        bit_or
          (bit_or (bit_or (shift_left x 0) (shift_left (read signed_char m (1 + i * 4)) 8))
            (shift_left (read signed_char m (2 + i * 4)) 16))
          (shift_left (read signed_char m (3 + i * 4)) 24))
      word
    ∙ hide a _ _ _ small
  where
    extended : to_word signed_char a ≡ a + (2 ^ 32 - 256)
    extended = ground arith

trichotomy : (m n : ℕ) → (m < n) ⊎ ((m ≡ n) ⊎ (n < m))
trichotomy zero zero = inr (inl refl)
trichotomy zero (suc n) = inl (omega arith)
trichotomy (suc m) zero = inr (inr (omega arith))
trichotomy (suc m) (suc n) = elim (trichotomy m n) [
  | inl h ↦ inl (omega arith)
  | inr (inl h) ↦ inr (inl (omega arith))
  | inr (inr h) ↦ inr (inr (omega arith))
]

module _ (t : CharType) (m m' : List ℕ) where
  get_block-same :
      (i : ℕ)
      → ((k : ℕ) → k < 4 → byte_at m (k + i * 4) ≡ byte_at m' (k + i * 4))
      → get_block t m i ≡ get_block t m' i
  unfolding get_block read
  get_block-same i same =
      let word = λ (k : ℕ) (h : k < 4). ap (to_word t) (same k h) in
      ap₂ bit_or
        (ap₂ bit_or
          (ap₂ bit_or (ap (λ x. shift_left x 0) (word 0 (omega arith)))
            (ap (λ x. shift_left x 8) (word 1 (omega arith))))
          (ap (λ x. shift_left x 16) (word 2 (omega arith))))
        (ap (λ x. shift_left x 24) (word 3 (omega arith)))

  mix_blocks-same :
      (left i h : ℕ)
      → ((j : ℕ) → get_block t m j ≡ get_block t m' j)
      → mix_blocks t m left i h ≡ mix_blocks t m' left i h
  unfolding mix_blocks
  mix_blocks-same zero i h same = refl
  mix_blocks-same (suc left) i h same =
      ap (λ w. mix_blocks t m left (i + 1) (mix_block h w)) (same i)
      ∙ mix_blocks-same left (i + 1) (mix_block h (get_block t m' i)) same

  mix_tail-same :
      (tail r h : ℕ)
      → ((k : ℕ) → byte_at m (tail + k) ≡ byte_at m' (tail + k))
      → mix_tail t m tail r h ≡ mix_tail t m' tail r h
  unfolding mix_tail read
  mix_tail-same tail r h same = rw (mix_tail, same 0, same 1, same 2) refl

module _ (pre post : List ℕ) (a b c d b' c' d' : ℕ) (whole : length pre % 4 ≡ 0)
    (negative : 128 ≤ a) (small : a < 256) where
  abbrev text : List ℕ
  text = pre ++ a ∷ b ∷ c ∷ d ∷ post

  abbrev text' : List ℕ
  text' = pre ++ a ∷ b' ∷ c' ∷ d' ∷ post

  outside : (j : ℕ) → (j < length pre) ⊎ (length pre + 4 ≤ j) → byte_at text j ≡ byte_at text' j
  outside j out = byte_at-outside pre (a ∷ b ∷ c ∷ d ∷ []) (a ∷ b' ∷ c' ∷ d' ∷ []) post j refl out

  blocks : (j : ℕ) → get_block signed_char text j ≡ get_block signed_char text' j
  blocks j = elim (trichotomy (j * 4) (length pre)) [
    | inl below ↦
        get_block-same signed_char text text' j (λ k h. outside (k + j * 4) (inl (omega arith)))
    | inr (inl here) ↦
        get_block-hidden text j a (ap (byte_at text) here ∙ byte_at-middle pre a (b ∷ c ∷ d ∷ post))
          negative small
        ∙ sym (
            get_block-hidden text' j a
              (ap (byte_at text') here ∙ byte_at-middle pre a (b' ∷ c' ∷ d' ∷ post)) negative small)
    | inr (inr above) ↦
        get_block-same signed_char text text' j (λ k h. outside (k + j * 4) (inr (omega arith)))
  ]

  -- Behind a byte from 128 on at the start of a block, the other three bytes of the block do not
  -- change the hash of a text of signed characters.
  pub hidden_bytes :
      (seed : ℕ)
      → hash_murmur signed_char text (length text) seed
        ≡ hash_murmur signed_char text' (length text') seed
  unfolding hash_murmur finalize
  hidden_bytes seed =
      let size = length-append {0} pre (a ∷ b ∷ c ∷ d ∷ post) in
      let size' = length-append {0} pre (a ∷ b' ∷ c' ∷ d' ∷ post) in
      let len = length text in
      let same_size : len ≡ length text' = omega arith in
      let tail = len - len % 4 in
      let behind : length pre + 4 ≤ tail = omega arith in
      let h = mix_blocks signed_char text (len / 4) 0 seed in
      let h' = mix_blocks signed_char text' (len / 4) 0 seed in
      let looped : h ≡ h' = mix_blocks-same signed_char text text' (len / 4) 0 seed blocks in
      ap (λ x. final_mix (bit_xor x len))
        (mix_tail-same signed_char text text' tail (len % 4) h
            (λ k. outside (tail + k) (inr (omega arith)))
          ∙ ap (mix_tail signed_char text' tail (len % 4)) looped)
      ∙ ap (λ n. hash_murmur signed_char text' n seed) same_size
