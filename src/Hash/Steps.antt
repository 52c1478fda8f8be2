-- ===== src/Hash/Steps.antt =====
-- Each step of the hash can be undone.
use Prim.Native.Nat.{bit_or, bit_xor}
use nxdb.Common.{ℕ, ◌+◌, ◌*◌, ◌/◌, ◌%◌, ◌^◌, ◌<◌, ◌≡◌, refl, sym, ap, ◌∙◌, arith}
use nxdb.Hash.{shift_left, rotate_left_32, scramble, mix_block, final_mix}
use nxdb.Hash.Bits.{xor-cancel, xor_comm, xor-shift, xor-lt, or-fields}

pub xor-inj_left : (a b c : ℕ) → bit_xor a c ≡ bit_xor b c → a ≡ b
xor-inj_left a b c e = sym (xor-cancel a c) ∙ ap (λ x. bit_xor x c) e ∙ xor-cancel b c

pub xor-inj_right : (a b c : ℕ) → bit_xor c a ≡ bit_xor c b → a ≡ b
xor-inj_right a b c e = xor-inj_left a b c (xor_comm a c ∙ e ∙ xor_comm c b)

pub rotate_left-sum :
    (x : ℕ)
    → x < 2 ^ 32
    → (rotate_left_32 x 15 ≡ x % 2 ^ 17 * 2 ^ 15 + x / 2 ^ 17)
      × (rotate_left_32 x 13 ≡ x % 2 ^ 19 * 2 ^ 13 + x / 2 ^ 19)
unfolding rotate_left_32
rotate_left-sum x h =
    let low15 : shift_left x 15 ≡ x % 2 ^ 17 * 2 ^ 15 = omega arith in
    let low13 : shift_left x 13 ≡ x % 2 ^ 19 * 2 ^ 13 = omega arith in
    (
      ap (λ y. bit_or y (x / 2 ^ 17)) low15 ∙ or-fields 15 (x % 2 ^ 17) (x / 2 ^ 17) (omega arith),
      ap (λ y. bit_or y (x / 2 ^ 19)) low13 ∙ or-fields 13 (x % 2 ^ 19) (x / 2 ^ 19) (omega arith),
    )

-- The odd factors have inverses.
undo_c1 : (x : ℕ) → x < 2 ^ 32 → (x * 0xcc9e_2d51 % 2 ^ 32) * 0xdee1_3bb1 % 2 ^ 32 ≡ x
undo_c1 x h = omega arith

undo_c2 : (x : ℕ) → x < 2 ^ 32 → (x * 0x1b87_3593 % 2 ^ 32) * 0x56ed_309b % 2 ^ 32 ≡ x
undo_c2 x h = omega arith

undo_five :
    (x y : ℕ)
    → x < 2 ^ 32
    → y < 2 ^ 32
    → (x * 5 + 0xe654_6b64) % 2 ^ 32 ≡ (y * 5 + 0xe654_6b64) % 2 ^ 32
    → x ≡ y
undo_five x y hx hy e = omega arith

undo_f1 : (x : ℕ) → x < 2 ^ 32 → (x * 0x85eb_ca6b % 2 ^ 32) * 0xa5cb_9243 % 2 ^ 32 ≡ x
undo_f1 x h = omega arith

undo_f2 : (x : ℕ) → x < 2 ^ 32 → (x * 0xc2b2_ae35 % 2 ^ 32) * 0x7ed1_b41d % 2 ^ 32 ≡ x
undo_f2 x h = omega arith

-- `x ^ (x >> k)`, read from the top: what is above `j` bits follows from what is above `j + k`.
peel :
    (x m k : ℕ)
    → bit_xor x (x / 2 ^ k) ≡ m
    → (j : ℕ) → x / 2 ^ j ≡ bit_xor (m / 2 ^ j) (x / 2 ^ k / 2 ^ j)
peel x m k e j =
    sym (xor-cancel (x / 2 ^ j) (x / 2 ^ k / 2 ^ j))
    ∙ ap (λ y. bit_xor y (x / 2 ^ k / 2 ^ j))
        (sym (xor-shift j x (x / 2 ^ k)) ∙ ap (λ y. y / 2 ^ j) e)

module _ (k x y : ℕ) (e : bit_xor x (x / 2 ^ k) ≡ bit_xor y (y / 2 ^ k)) where
  -- If the two agree above `j + k` bits, they agree above `j`.
  lower : (j : ℕ) → x / 2 ^ k / 2 ^ j ≡ y / 2 ^ k / 2 ^ j → x / 2 ^ j ≡ y / 2 ^ j
  lower j same =
      peel x (bit_xor y (y / 2 ^ k)) k e j
      ∙ ap (bit_xor (bit_xor y (y / 2 ^ k) / 2 ^ j)) same
      ∙ sym (peel y (bit_xor y (y / 2 ^ k)) k refl j)

  lowest : x / 2 ^ k ≡ y / 2 ^ k → x ≡ y
  lowest same = xor-inj_left x y (x / 2 ^ k) (e ∙ ap (bit_xor y) (sym same))

shift16-inj :
    (x y : ℕ) → x < 2 ^ 32 → y < 2 ^ 32 → bit_xor x (x / 2 ^ 16) ≡ bit_xor y (y / 2 ^ 16) → x ≡ y
shift16-inj x y hx hy e =
    let above : x / 2 ^ 16 / 2 ^ 16 ≡ y / 2 ^ 16 / 2 ^ 16 = omega arith in
    lowest 16 x y e (lower 16 x y e 16 above)

shift13-inj :
    (x y : ℕ) → x < 2 ^ 32 → y < 2 ^ 32 → bit_xor x (x / 2 ^ 13) ≡ bit_xor y (y / 2 ^ 13) → x ≡ y
shift13-inj x y hx hy e =
    let above : x / 2 ^ 13 / 2 ^ 26 ≡ y / 2 ^ 13 / 2 ^ 26 = omega arith in
    let high = lower 13 x y e 26 above in
    let middle : x / 2 ^ 13 / 2 ^ 13 ≡ y / 2 ^ 13 / 2 ^ 13 = omega arith in
    lowest 13 x y e (lower 13 x y e 13 middle)

pub final_mix-inj : (x y : ℕ) → x < 2 ^ 32 → y < 2 ^ 32 → final_mix x ≡ final_mix y → x ≡ y
unfolding final_mix
final_mix-inj x y hx hy e =
    let x₁ = bit_xor x (x / 2 ^ 16) in
    let y₁ = bit_xor y (y / 2 ^ 16) in
    let hx₁ : x₁ < 2 ^ 32 = xor-lt x (x / 2 ^ 16) hx (omega arith) in
    let hy₁ : y₁ < 2 ^ 32 = xor-lt y (y / 2 ^ 16) hy (omega arith) in
    let x₂ = x₁ * 0x85eb_ca6b % 2 ^ 32 in
    let y₂ = y₁ * 0x85eb_ca6b % 2 ^ 32 in
    let x₃ = bit_xor x₂ (x₂ / 2 ^ 13) in
    let y₃ = bit_xor y₂ (y₂ / 2 ^ 13) in
    let hx₃ : x₃ < 2 ^ 32 = xor-lt x₂ (x₂ / 2 ^ 13) (omega arith) (omega arith) in
    let hy₃ : y₃ < 2 ^ 32 = xor-lt y₂ (y₂ / 2 ^ 13) (omega arith) (omega arith) in
    let e₄ =
      shift16-inj (x₃ * 0xc2b2_ae35 % 2 ^ 32) (y₃ * 0xc2b2_ae35 % 2 ^ 32) (omega arith)
        (omega arith) e in
    let e₃ : x₃ ≡ y₃ =
      sym (undo_f2 x₃ hx₃) ∙ ap (λ n. n * 0x7ed1_b41d % 2 ^ 32) e₄ ∙ undo_f2 y₃ hy₃ in
    let e₂ = shift13-inj x₂ y₂ (omega arith) (omega arith) e₃ in
    let e₁ : x₁ ≡ y₁ =
      sym (undo_f1 x₁ hx₁) ∙ ap (λ n. n * 0xa5cb_9243 % 2 ^ 32) e₂ ∙ undo_f1 y₁ hy₁ in
    shift16-inj x y hx hy e₁

rotate_left_32-inj :
    (x y : ℕ)
    → x < 2 ^ 32
    → y < 2 ^ 32
    → (rotate_left_32 x 15 ≡ rotate_left_32 y 15 → x ≡ y)
      × (rotate_left_32 x 13 ≡ rotate_left_32 y 13 → x ≡ y)
rotate_left_32-inj x y hx hy =
    let (x15, x13) = rotate_left-sum x hx in
    let (y15, y13) = rotate_left-sum y hy in (λ e. omega arith, λ e. omega arith)

rotate_left_32-lt :
    (x : ℕ) → x < 2 ^ 32 → (rotate_left_32 x 15 < 2 ^ 32) × (rotate_left_32 x 13 < 2 ^ 32)
rotate_left_32-lt x hx = let (x15, x13) = rotate_left-sum x hx in (omega arith, omega arith)

pub scramble-inj : (x y : ℕ) → x < 2 ^ 32 → y < 2 ^ 32 → scramble x ≡ scramble y → x ≡ y
unfolding scramble
scramble-inj x y hx hy e =
    let x₁ = x * 0xcc9e_2d51 % 2 ^ 32 in
    let y₁ = y * 0xcc9e_2d51 % 2 ^ 32 in
    let hx₁ : x₁ < 2 ^ 32 = omega arith in
    let hy₁ : y₁ < 2 ^ 32 = omega arith in
    let turned : rotate_left_32 x₁ 15 ≡ rotate_left_32 y₁ 15 =
      sym (undo_c2 _ (rotate_left_32-lt x₁ hx₁).0)
      ∙ ap (λ n. n * 0x56ed_309b % 2 ^ 32) e
      ∙ undo_c2 _ (rotate_left_32-lt y₁ hy₁).0 in
    let e₁ = (rotate_left_32-inj x₁ y₁ hx₁ hy₁).0 turned in
    sym (undo_c1 x hx) ∙ ap (λ n. n * 0xdee1_3bb1 % 2 ^ 32) e₁ ∙ undo_c1 y hy

pub scramble-lt : (x : ℕ) → scramble x < 2 ^ 32
unfolding scramble
scramble-lt x = omega arith

pub mix_block-lt : (h k : ℕ) → mix_block h k < 2 ^ 32
unfolding mix_block
mix_block-lt h k = omega arith

-- Equal results come from equal inner words.
mix_block-inner :
    (h h' k k' : ℕ)
    → h < 2 ^ 32
    → h' < 2 ^ 32
    → mix_block h k ≡ mix_block h' k'
    → bit_xor h (scramble k) ≡ bit_xor h' (scramble k')
unfolding mix_block
mix_block-inner h h' k k' hh hh' e =
    let x = bit_xor h (scramble k) in
    let y = bit_xor h' (scramble k') in
    let hx : x < 2 ^ 32 = xor-lt h (scramble k) hh (scramble-lt k) in
    let hy : y < 2 ^ 32 = xor-lt h' (scramble k') hh' (scramble-lt k') in
    (rotate_left_32-inj x y hx hy).1
      (undo_five _ _ (rotate_left_32-lt x hx).1 (rotate_left_32-lt y hy).1 e)

pub mix_block-inj_state :
    (h h' k : ℕ) → h < 2 ^ 32 → h' < 2 ^ 32 → mix_block h k ≡ mix_block h' k → h ≡ h'
mix_block-inj_state h h' k hh hh' e =
    xor-inj_left h h' (scramble k) (mix_block-inner h h' k k hh hh' e)

pub mix_block-inj_word :
    (h k k' : ℕ) → h < 2 ^ 32 → k < 2 ^ 32 → k' < 2 ^ 32 → mix_block h k ≡ mix_block h k' → k ≡ k'
mix_block-inj_word h k k' hh hk hk' e =
    scramble-inj k k' hk hk' (xor-inj_right _ _ h (mix_block-inner h h k k' hh hh e))

pub final_mix-lt : (x : ℕ) → x < 2 ^ 32 → final_mix x < 2 ^ 32
unfolding final_mix
final_mix-lt x hx =
    let x₁ = bit_xor x (x / 2 ^ 16) in
    let x₂ = x₁ * 0x85eb_ca6b % 2 ^ 32 in
    let x₃ = bit_xor x₂ (x₂ / 2 ^ 13) in
    let x₄ = x₃ * 0xc2b2_ae35 % 2 ^ 32 in xor-lt x₄ (x₄ / 2 ^ 16) (omega arith) (omega arith)
