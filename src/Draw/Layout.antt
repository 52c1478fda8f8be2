-- ===== src/Draw/Layout.antt =====
-- common.h: the bytes of the packed structs. A pair of 12-bit fields takes three bytes.
use nxdb.Common.{ℕ, zero, suc, ◌+◌, ◌*◌, ◌/◌, ◌%◌, List, [], ◌∷◌, ◌++◌, Option, none, some, put_u32}
use nxdb.Draw.{PackedCommand, PackedVertex}

unfoldable pub put_u16 : ℕ → List ℕ
put_u16 n = n % 256 ∷ (n / 256) % 256 ∷ []

abbrev put_pair : ℕ → ℕ → List ℕ
put_pair a b = a % 256 ∷ (a / 256 % 16 + 16 * (b % 16)) ∷ (b / 16 % 256) ∷ []

unfoldable pub put_command : PackedCommand → List ℕ
unfolding put_u16
put_command c =
    put_pair c.x1 c.y1
    ++ (put_pair c.x2 c.y2
        ++ (put_u16 c.vtx_offset ++ (put_u16 c.idx_offset ++ put_u16 c.elem_count)))

unfoldable pub put_vertex : PackedVertex → List ℕ
unfolding put_u32
put_vertex v = put_pair v.pos_x v.pos_y ++ (put_pair v.uv_x v.uv_y ++ put_u32 v.col)

-- Reading at the cursor: the value and what is behind it. `none` is a read behind the memory.
abbrev pub Reader {ℓ} : Type ℓ → Type ℓ
Reader A = List ℕ → Option (A × List ℕ)

module _ {ℓ κ} {A : Type ℓ} {B : Type κ} where
  infixl 5 ◌>>=◌
  abbrev pub ◌>>=◌ : Reader A → (A → Reader B) → Reader B
  ◌>>=◌ r g m = elim (r m) [ none ↦ none | some (a, rest) ↦ g a rest ]

abbrev pub pure {ℓ} : {A : Type ℓ} → A → Reader A
pure a m = some (a, m)

unfoldable pub read_u16 : Reader ℕ
read_u16 (a ∷ b ∷ m) = some (a + 256 * b, m)
read_u16 _ = none

unfoldable pub read_u32 : Reader ℕ
read_u32 (a ∷ b ∷ c ∷ d ∷ m) = some (a + 256 * b + 65536 * c + 16777216 * d, m)
read_u32 _ = none

-- Two fields of 12 bits.
abbrev low_field : ℕ → ℕ → ℕ
low_field a b = a + 256 * (b % 16)

abbrev high_field : ℕ → ℕ → ℕ
high_field b c = b / 16 + 16 * c

unfoldable pub read_command : Reader PackedCommand
read_command (a ∷ b ∷ c ∷ d ∷ e ∷ f ∷ g ∷ h ∷ i ∷ j ∷ k ∷ l ∷ m) = some (
  record {
    x1 = low_field a b;
    y1 = high_field b c;
    x2 = low_field d e;
    y2 = high_field e f;
    vtx_offset = g + 256 * h;
    idx_offset = i + 256 * j;
    elem_count = k + 256 * l;
  },
  m,
)
read_command _ = none

unfoldable pub read_vertex : Reader PackedVertex
read_vertex (a ∷ b ∷ c ∷ d ∷ e ∷ f ∷ g ∷ h ∷ i ∷ j ∷ m) = some (
  record {
    pos_x = low_field a b;
    pos_y = high_field b c;
    uv_x = low_field d e;
    uv_y = high_field e f;
    col = g + 256 * h + 65536 * i + 16777216 * j;
  },
  m,
)
read_vertex _ = none

-- `n` values, one behind the other.
unfoldable pub read_many {ℓ} : {A : Type ℓ} → Reader A → ℕ → Reader (List A)
read_many read zero = pure []
read_many read (suc n) = read >>= λ a. read_many read n >>= λ rest. pure (a ∷ rest)
