-- ===== src/Hash/Change.antt =====
-- Bytes of one length that differ within one block have different hashes.
use Prim.Native.Nat.{bit_xor}
use nxdb.Common.{
  ℕ, ◌+◌, ◌*◌, ◌%◌, ◌^◌, ◌≤◌, ◌<◌, ◌≡◌, ◌≢◌, ◌⊎◌, inl, inr, refl, sym, ap, ◌∙◌, arith, List, [],
  ◌∷◌, ◌++◌, All, All-append, length, length-append, append-nil,
}
use nxdb.Hash.{scramble, mix_block, CharType, hash_murmur}
use nxdb.Hash.Bits.{xor-lt}
use nxdb.Hash.Steps.{
  xor-inj_left, xor-inj_right, final_mix-lt, final_mix-inj, scramble-inj, scramble-lt, mix_block-lt,
  mix_block-inj_state, mix_block-inj_word,
}
use nxdb.Hash.Reference.{absorb, by_bytes, limit, limit-le, hash_murmur-by_bytes}

abbrev AreBytes : List ℕ → Type 0
AreBytes bs = All (λ b. b < 256) bs

absorb-lt : (bs : List ℕ) (h : ℕ) → h < 2 ^ 32 → absorb bs h < 2 ^ 32
unfolding absorb
absorb-lt [] h hh = hh
absorb-lt (a ∷ []) h hh = xor-lt h (scramble a) hh (scramble-lt a)
absorb-lt (a ∷ b ∷ []) h hh = xor-lt h _ hh (scramble-lt (a + 256 * b))
absorb-lt (a ∷ b ∷ c ∷ []) h hh = xor-lt h _ hh (scramble-lt (a + 256 * b + 65536 * c))
absorb-lt (a ∷ b ∷ c ∷ d ∷ bs) h hh =
    absorb-lt bs (mix_block h (a + 256 * b + 65536 * c + 16777216 * d)) (mix_block-lt h _)

-- Different words before the same bytes stay different.
absorb-inj :
    (bs : List ℕ) (h h' : ℕ) → h < 2 ^ 32 → h' < 2 ^ 32 → absorb bs h ≡ absorb bs h' → h ≡ h'
unfolding absorb
absorb-inj [] h h' hh hh' e = e
absorb-inj (a ∷ []) h h' hh hh' e = xor-inj_left h h' (scramble a) e
absorb-inj (a ∷ b ∷ []) h h' hh hh' e = xor-inj_left h h' (scramble (a + 256 * b)) e
absorb-inj (a ∷ b ∷ c ∷ []) h h' hh hh' e = xor-inj_left h h' (scramble (a + 256 * b + 65536 * c)) e
absorb-inj (a ∷ b ∷ c ∷ d ∷ bs) h h' hh hh' e =
    let k = a + 256 * b + 65536 * c + 16777216 * d in
    mix_block-inj_state h h' k hh hh'
      (absorb-inj bs (mix_block h k) (mix_block h' k) (mix_block-lt h k) (mix_block-lt h' k) e)

-- Whole blocks come first.
absorb-append :
    (pre bs : List ℕ) (h : ℕ) → length pre % 4 ≡ 0 → absorb (pre ++ bs) h ≡ absorb bs (absorb pre h)
unfolding absorb
absorb-append [] bs h whole = refl
absorb-append (a ∷ []) bs h whole = absurd (omega arith)
absorb-append (a ∷ b ∷ []) bs h whole = absurd (omega arith)
absorb-append (a ∷ b ∷ c ∷ []) bs h whole = absurd (omega arith)
absorb-append (a ∷ b ∷ c ∷ d ∷ pre) bs h whole =
    absorb-append pre bs (mix_block h (a + 256 * b + 65536 * c + 16777216 * d)) (omega arith)

-- What the last bytes were.
tail_inj :
    (xs ys : List ℕ) (h : ℕ)
    → length xs ≡ length ys
    → length xs < 4
    → AreBytes xs
    → AreBytes ys
    → absorb xs h ≡ absorb ys h
    → xs ≡ ys
unfolding absorb
tail_inj [] [] h same short bx by e = refl
tail_inj (a ∷ []) (a' ∷ []) h same short bx by e =
    let word = scramble-inj a a' (omega arith) (omega arith) (xor-inj_right _ _ h e) in cc
tail_inj (a ∷ b ∷ []) (a' ∷ b' ∷ []) h same short bx by e =
    let word =
      scramble-inj (a + 256 * b) (a' + 256 * b') (omega arith) (omega arith)
        (xor-inj_right _ _ h e) in
    let first : a ≡ a' = omega arith in let second : b ≡ b' = omega arith in cc
tail_inj (a ∷ b ∷ c ∷ []) (a' ∷ b' ∷ c' ∷ []) h same short bx by e =
    let word =
      scramble-inj (a + 256 * b + 65536 * c) (a' + 256 * b' + 65536 * c') (omega arith)
        (omega arith) (xor-inj_right _ _ h e) in
    let first : a ≡ a' = omega arith in
    let second : b ≡ b' = omega arith in let third : c ≡ c' = omega arith in cc
tail_inj xs ys h same short bx by e = absurd (omega arith)

-- What a block in front of the same bytes was.
block_inj :
    (xs ys post : List ℕ) (h : ℕ)
    → length xs ≡ 4
    → length ys ≡ 4
    → h < 2 ^ 32
    → AreBytes xs
    → AreBytes ys
    → absorb (xs ++ post) h ≡ absorb (ys ++ post) h
    → xs ≡ ys
unfolding absorb
block_inj (a ∷ b ∷ c ∷ d ∷ []) (a' ∷ b' ∷ c' ∷ d' ∷ []) post h lx ly hh bx by e =
    let k = a + 256 * b + 65536 * c + 16777216 * d in
    let k' = a' + 256 * b' + 65536 * c' + 16777216 * d' in
    let mixed =
      absorb-inj post (mix_block h k) (mix_block h k') (mix_block-lt h k) (mix_block-lt h k') e in
    let word = mix_block-inj_word h k k' hh (omega arith) (omega arith) mixed in
    let first : a ≡ a' = omega arith in
    let second : b ≡ b' = omega arith in
    let third : c ≡ c' = omega arith in let fourth : d ≡ d' = omega arith in cc
block_inj xs ys post h lx ly hh bx by e = absurd (omega arith)

All-le : (m n : ℕ) (bs : List ℕ) → m ≤ n → All (λ b. b < m) bs → All (λ b. b < n) bs
All-le m n [] h plain = tt
All-le m n (b ∷ bs) h plain = (omega arith, All-le m n bs h plain.1)

-- The bytes that the hash reads come back from it, but for the block.
changed_inj :
    (pre xs ys post : List ℕ) (seed : ℕ)
    → seed < 2 ^ 32
    → length pre % 4 ≡ 0
    → length xs ≡ length ys
    → (length xs ≡ 4) ⊎ ((length xs < 4) × (post ≡ []))
    → length (pre ++ (xs ++ post)) < 2 ^ 32
    → AreBytes xs
    → AreBytes ys
    → by_bytes (pre ++ (xs ++ post)) seed ≡ by_bytes (pre ++ (ys ++ post)) seed
    → xs ≡ ys
unfolding by_bytes
changed_inj pre xs ys post seed hs whole same place short bx by e =
    let left = pre ++ (xs ++ post) in
    let right = pre ++ (ys ++ post) in
    let sizes : length left ≡ length right = omega (
      arith,
      length-append {0} pre (xs ++ post),
      length-append {0} pre (ys ++ post),
      length-append {0} xs post,
      length-append {0} ys post,
    ) in
    let short' : length right < 2 ^ 32 = omega arith in
    let start = absorb pre seed in
    let hstart : start < 2 ^ 32 = absorb-lt pre seed hs in
    let mixed =
      final_mix-inj (bit_xor (absorb left seed) (length left))
        (bit_xor (absorb right seed) (length right)) (xor-lt _ _ (absorb-lt left seed hs) short)
        (xor-lt _ _ (absorb-lt right seed hs) short') e in
    let words : absorb left seed ≡ absorb right seed =
      xor-inj_left (absorb left seed) (absorb right seed) (length left)
        (mixed ∙ ap (bit_xor (absorb right seed)) (sym sizes)) in
    let behind : absorb (xs ++ post) start ≡ absorb (ys ++ post) start =
      sym (absorb-append pre (xs ++ post) seed whole)
      ∙ words
      ∙ absorb-append pre (ys ++ post) seed whole in
    elim place [
      | inl four ↦ block_inj xs ys post start four (omega arith) hstart bx by behind
      | inr (less, last) ↦
          let xs-end : xs ++ post ≡ xs = ap (λ p. xs ++ p) last ∙ append-nil xs in
          let ys-end : ys ++ post ≡ ys = ap (λ p. ys ++ p) last ∙ append-nil ys in
          tail_inj xs ys start same less bx by
            (ap (λ bs. absorb bs start) (sym xs-end) ∙ behind ∙ ap (λ bs. absorb bs start) ys-end)
    ]

-- Of two lists of bytes that differ within one of the blocks of four, or within the bytes behind the
-- last of them, and that have one length below 2 ^ 32, the hashes with the same seed differ. With a
-- signed character the bytes are below 128.
pub one_block_changed :
    (t : CharType) (pre xs ys post : List ℕ) (seed : ℕ)
    → seed < 2 ^ 32
    → length pre % 4 ≡ 0
    → length xs ≡ length ys
    → (length xs ≡ 4) ⊎ ((length xs < 4) × (post ≡ []))
    → length (pre ++ (xs ++ post)) < 2 ^ 32
    → All (λ b. b < limit t) pre
    → All (λ b. b < limit t) xs
    → All (λ b. b < limit t) ys
    → All (λ b. b < limit t) post
    → xs ≢ ys
    → hash_murmur t (pre ++ (xs ++ post)) (length (pre ++ (xs ++ post))) seed
      ≢ hash_murmur t (pre ++ (ys ++ post)) (length (pre ++ (ys ++ post))) seed
one_block_changed t pre xs ys post seed hs whole same place short hpre hxs hys hpost differ e =
    let small : ℕ → Type 0 = λ b. b < limit t in
    let left =
      hash_murmur-by_bytes t (pre ++ (xs ++ post)) seed
        (All-append small pre (xs ++ post) hpre (All-append small xs post hxs hpost)) in
    let right =
      hash_murmur-by_bytes t (pre ++ (ys ++ post)) seed
        (All-append small pre (ys ++ post) hpre (All-append small ys post hys hpost)) in
    differ (
      changed_inj pre xs ys post seed hs whole same place short
        (All-le (limit t) 256 xs (limit-le t) hxs) (All-le (limit t) 256 ys (limit-le t) hys)
        (sym left ∙ e ∙ right))

pub hash_murmur-lt :
    (t : CharType) (bs : List ℕ) (seed : ℕ)
    → seed < 2 ^ 32
    → length bs < 2 ^ 32
    → All (λ b. b < limit t) bs
    → hash_murmur t bs (length bs) seed < 2 ^ 32
unfolding by_bytes
hash_murmur-lt t bs seed hs short plain =
    let bound =
      final_mix-lt (bit_xor (absorb bs seed) (length bs))
        (xor-lt _ _ (absorb-lt bs seed hs) short) in
    omega (arith, hash_murmur-by_bytes t bs seed plain)
