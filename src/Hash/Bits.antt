-- ===== src/Hash/Bits.antt =====
-- The laws of the exclusive or, and of the or of disjoint bits, that the hash needs.
use Prim.Native.Nat.{bit_or, bit_xor, max, differ, digits, bitwise, bit_or-bitwise, bit_xor-bitwise}
use native.Mathlib.Nat.{pow-suc, one-le-pow, div-div-eq-div-mul, div-one}
use nxdb.Common.{
  ℕ, zero, suc, ◌+◌, ◌-◌, ◌*◌, ◌/◌, ◌%◌, ◌^◌, ◌≤◌, ◌<◌, ◌≡◌, refl, sym, ap, ap₂, ◌∙◌, arith,
}

module _ (z : ℕ → ℕ) (f : ℕ → ℕ → ℕ) where
  enough_fuel : (n m a b : ℕ) → a ≤ n → a ≤ m → digits z f n a b ≡ digits z f m a b
  enough_fuel zero zero a b h k = refl
  enough_fuel zero (suc m) zero b h k = refl
  enough_fuel zero (suc m) (suc a) b h k = absurd (omega arith)
  enough_fuel (suc n) zero zero b h k = refl
  enough_fuel (suc n) zero (suc a) b h k = absurd (omega arith)
  enough_fuel (suc n) (suc m) zero b h k = refl
  enough_fuel (suc n) (suc m) (suc a) b h k =
      ap (λ d. d * 2 + f (suc a % 2) (b % 2))
        (enough_fuel n m (suc a / 2) (b / 2) (omega arith) (omega arith))

  low_digit :
      (a b : ℕ)
      → bitwise z f (suc a) b ≡ bitwise z f (suc a / 2) (b / 2) * 2 + f (suc a % 2) (b % 2)
  low_digit a b =
      ap (λ d. d * 2 + f (suc a % 2) (b % 2))
        (enough_fuel a (suc a / 2) (suc a / 2) (b / 2) (omega arith) (omega arith))

digit_sum : (x y : ℕ) → x < 2 → y < 2 → differ x y ≡ (x + y) % 2
digit_sum zero y hx hy = omega arith
digit_sum (suc zero) zero hx hy = refl
digit_sum (suc zero) (suc zero) hx hy = refl
digit_sum (suc zero) (suc (suc y)) hx hy = absurd (omega arith)
digit_sum (suc (suc x)) y hx hy = absurd (omega arith)

xor_step : (a b : ℕ) → bit_xor a b ≡ bit_xor (a / 2) (b / 2) * 2 + (a % 2 + b % 2) % 2
xor_step zero b = simp bit_xor-bitwise (omega arith)
xor_step (suc a) b =
    let digit = digit_sum (suc a % 2) (b % 2) (omega arith) (omega arith) in
    simp bit_xor-bitwise (low_digit (λ y. y) differ a b)
    ∙ ap (λ d. bit_xor (suc a / 2) (b / 2) * 2 + d) digit

or_step : (a b : ℕ) → bit_or a b ≡ bit_or (a / 2) (b / 2) * 2 + max (a % 2) (b % 2)
or_step zero b = simp bit_or-bitwise (omega arith)
or_step (suc a) b = simp bit_or-bitwise (low_digit (λ y. y) max a b)

pub zero-xor : (b : ℕ) → bit_xor 0 b ≡ b
zero-xor b = bit_xor-bitwise 0 b

pub zero-or : (b : ℕ) → bit_or 0 b ≡ b
zero-or b = bit_or-bitwise 0 b

or_zero_bounded : (n a : ℕ) → a ≤ n → bit_or a 0 ≡ a
or_zero_bounded zero zero h = refl
or_zero_bounded zero (suc a) h = absurd (omega arith)
or_zero_bounded (suc n) a h = omega (arith, or_step a 0, or_zero_bounded n (a / 2) (omega arith))

or_zero : (a : ℕ) → bit_or a 0 ≡ a
or_zero a = or_zero_bounded a a (omega arith)

cancel_bounded : (n a b : ℕ) → a ≤ n → b ≤ n → bit_xor (bit_xor a b) b ≡ a
cancel_bounded zero zero zero h k = refl
cancel_bounded zero zero (suc b) h k = absurd (omega arith)
cancel_bounded zero (suc a) b h k = absurd (omega arith)
cancel_bounded (suc n) a b h k =
    let inner = xor_step a b in
    let outer = xor_step (bit_xor a b) b in
    let half : bit_xor a b / 2 ≡ bit_xor (a / 2) (b / 2) = omega arith in
    let ih : bit_xor (bit_xor a b / 2) (b / 2) ≡ a / 2 =
      ap (λ x. bit_xor x (b / 2)) half
      ∙ cancel_bounded n (a / 2) (b / 2) (omega arith) (omega arith) in
    omega arith

-- A second exclusive or undoes the first.
pub xor-cancel : (a b : ℕ) → bit_xor (bit_xor a b) b ≡ a
xor-cancel a b = cancel_bounded (a + b) a b (omega arith) (omega arith)

comm_bounded : (n a b : ℕ) → a ≤ n → b ≤ n → bit_xor a b ≡ bit_xor b a
comm_bounded zero zero zero h k = refl
comm_bounded zero zero (suc b) h k = absurd (omega arith)
comm_bounded zero (suc a) b h k = absurd (omega arith)
comm_bounded (suc n) a b h k =
    omega (
      arith,
      xor_step a b,
      xor_step b a,
      comm_bounded n (a / 2) (b / 2) (omega arith) (omega arith),
    )

pub xor_comm : (a b : ℕ) → bit_xor a b ≡ bit_xor b a
xor_comm a b = comm_bounded (a + b) a b (omega arith) (omega arith)

shift_once : (k a : ℕ) → a / 2 ^ suc k ≡ a / 2 ^ k / 2
shift_once k a = ap (λ d. a / d) (pow-suc 2 k) ∙ sym (div-div-eq-div-mul a (2 ^ k) 2)

xor-half : (a b : ℕ) → bit_xor a b / 2 ≡ bit_xor (a / 2) (b / 2)
xor-half a b = omega (arith, xor_step a b)

-- Shifting both to the right.
pub xor-shift : (k a b : ℕ) → bit_xor a b / 2 ^ k ≡ bit_xor (a / 2 ^ k) (b / 2 ^ k)
xor-shift zero a b = div-one _ ∙ sym (ap₂ bit_xor (div-one a) (div-one b))
xor-shift (suc k) a b =
    shift_once k (bit_xor a b)
    ∙ ap (λ d. d / 2) (xor-shift k a b)
    ∙ xor-half (a / 2 ^ k) (b / 2 ^ k)
    ∙ sym (ap₂ bit_xor (shift_once k a) (shift_once k b))

pub xor-lt : (a b : ℕ) → a < 2 ^ 32 → b < 2 ^ 32 → bit_xor a b < 2 ^ 32
xor-lt a b ha hb =
    let a_high : a / 2 ^ 32 ≡ 0 = omega arith in
    let b_high : b / 2 ^ 32 ≡ 0 = omega arith in
    let high : bit_xor a b / 2 ^ 32 ≡ 0 =
      xor-shift 32 a b ∙ ap₂ bit_xor a_high b_high ∙ zero-xor 0 in
    omega arith

twice : (q k : ℕ) → q * 2 ^ suc k ≡ q * 2 ^ k * 2
twice q k = omega (arith, ap (λ (t : ℕ). q * t) (pow-suc 2 k))

-- `(q << k) | r` is a sum where `r` has at most `k` bits.
pub or-fields : (k q r : ℕ) → r < 2 ^ k → bit_or (q * 2 ^ k) r ≡ q * 2 ^ k + r
or-fields zero q r h = ground (arith, or_zero q)
or-fields (suc k) q r h = ground (
  arith,
  or_step (q * 2 ^ suc k) r,
  twice q k,
  pow-suc 2 k,
  or-fields k q (r / 2) (omega (arith, pow-suc 2 k)),
)

-- The same the other way round, `r | (q << k)`.
pub or-low : (k q r : ℕ) → r < 2 ^ k → bit_or r (q * 2 ^ k) ≡ q * 2 ^ k + r
or-low zero q r h =
    let none_left : r ≡ 0 = omega arith in
    ap (λ x. bit_or x (q * 1)) none_left ∙ zero-or (q * 1) ∙ omega arith
or-low (suc k) q r h = ground (
  arith,
  or_step r (q * 2 ^ suc k),
  twice q k,
  pow-suc 2 k,
  or-low k q (r / 2) (omega (arith, pow-suc 2 k)),
)

pub xor-fields : (k q r : ℕ) → r < 2 ^ k → bit_xor (q * 2 ^ k) r ≡ q * 2 ^ k + r
xor-fields zero q r h =
    let none_left : r ≡ 0 = omega arith in
    ap (λ x. bit_xor (q * 1) x) none_left ∙ (xor_comm (q * 1) 0 ∙ (zero-xor (q * 1) ∙ omega arith))
xor-fields (suc k) q r h = ground (
  arith,
  xor_step (q * 2 ^ suc k) r,
  twice q k,
  pow-suc 2 k,
  xor-fields k q (r / 2) (omega (arith, pow-suc 2 k)),
)

-- Low bits that the second number does not have.
or-above : (k q y r : ℕ) → r < 2 ^ k → bit_or (q * 2 ^ k + r) (y * 2 ^ k) ≡ bit_or q y * 2 ^ k + r
or-above zero q y r h =
    let none_left : q * 1 + r ≡ q = omega arith in
    let same : y * 1 ≡ y = omega arith in ap₂ bit_or none_left same ∙ omega arith
or-above (suc k) q y r h = ground (
  arith,
  or_step (q * 2 ^ suc k + r) (y * 2 ^ suc k),
  twice q k,
  twice y k,
  twice (bit_or q y) k,
  pow-suc 2 k,
  or-above k q y (r / 2) (omega (arith, pow-suc 2 k)),
)

-- A number of ones only takes in every other of its length.
or-ones : (k y : ℕ) → y < 2 ^ k → bit_or (2 ^ k - 1) y ≡ 2 ^ k - 1
or-ones zero y h = let none_left : y ≡ 0 = omega arith in ap (bit_or 0) none_left ∙ zero-or 0
or-ones (suc k) y h = ground (
  arith,
  or_step (2 ^ suc k - 1) y,
  one-le-pow k 2,
  pow-suc 2 k,
  or-ones k (y / 2) (omega (arith, pow-suc 2 k)),
)

-- All ones above eight bits hide what is shifted behind them.
pub or-hidden :
    (a y : ℕ) → a < 256 → bit_or (a + (2 ^ 32 - 256)) (y % 2 ^ 24 * 2 ^ 8) ≡ a + (2 ^ 32 - 256)
or-hidden a y h =
    let parts : a + (2 ^ 32 - 256) ≡ (2 ^ 24 - 1) * 2 ^ 8 + a = omega arith in
    ap (λ x. bit_or x (y % 2 ^ 24 * 2 ^ 8)) parts
    ∙ or-above 8 (2 ^ 24 - 1) (y % 2 ^ 24) a h
    ∙ ap (λ x. x * 2 ^ 8 + a) (or-ones 24 (y % 2 ^ 24) (omega arith))
    ∙ sym parts
