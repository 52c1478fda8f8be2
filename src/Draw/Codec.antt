-- ===== src/Draw/Codec.antt =====
-- One list through the wire: what is read from the bytes of a list.
use nxdb.Common.{
  ℕ, suc, ◌%◌, ◌^◌, ◌<◌, ◌≡◌, refl, ap, ◌∙◌, List, [], ◌∷◌, ◌++◌, append_assoc, some, map, length,
  concat, All, arith, put_u32, lt→ltb,
}
use nxdb.Draw.{
  Floats, Point, Command, Vertex, DrawList, PackedCommand, PackedVertex, quantize, pack_command,
  unpack_command, clamp_vertex, pack_vertex, unpack_vertex,
}
use nxdb.Draw.Layout.{
  Reader, ◌>>=◌, put_u16, put_command, put_vertex, read_u16, read_u32, read_command, read_vertex,
  read_many,
}
use nxdb.Draw.Pack.{put_elements}
use nxdb.Draw.Unpack.{read_count, read_list}

-- A bind after a reading whose result is known.
pub >>=-some {ℓ κ} :
    {A : Type ℓ} {B : Type κ} (r : Reader A) (g : A → Reader B) (m : List ℕ) (a : A) (rest : List ℕ)
    → r m ≡ some (a, rest)
    → (r >>= g) m ≡ g a rest
>>=-some r g m a rest e = rw (◌>>=◌, e) refl

pub read_u32-put_u32 :
    (n : ℕ) (rest : List ℕ) → n < 2 ^ 32 → read_u32 (put_u32 n ++ rest) ≡ some (n, rest)
unfolding read_u32 put_u32
read_u32-put_u32 n rest h = ap (λ k. some (k, rest)) (omega arith)

read_u16-put_u16 : (n : ℕ) (rest : List ℕ) → read_u16 (put_u16 n ++ rest) ≡ some (n % 2 ^ 16, rest)
unfolding read_u16 put_u16
read_u16-put_u16 n rest = ap (λ k. some (k, rest)) (omega arith)

pub read_count-put_u32 :
    (n : ℕ) (rest : List ℕ) → n < 2 ^ 31 → read_count (put_u32 n ++ rest) ≡ some (n, rest)
unfolding read_count
read_count-put_u32 n rest h =
    >>=-some read_u32 _ (put_u32 n ++ rest) n rest (read_u32-put_u32 n rest (omega arith))
    ∙ rw (lt→ltb n (2 ^ 31) h) refl

-- Fields within their widths.
record FitsCommand (c : PackedCommand) : Type 0 where
  x1 : c.x1 < 2 ^ 12
  y1 : c.y1 < 2 ^ 12
  x2 : c.x2 < 2 ^ 12
  y2 : c.y2 < 2 ^ 12
  vtx_offset : c.vtx_offset < 2 ^ 16
  idx_offset : c.idx_offset < 2 ^ 16
  elem_count : c.elem_count < 2 ^ 16

record FitsVertex (v : PackedVertex) : Type 0 where
  pos_x : v.pos_x < 2 ^ 12
  pos_y : v.pos_y < 2 ^ 12
  uv_x : v.uv_x < 2 ^ 12
  uv_y : v.uv_y < 2 ^ 12
  col : v.col < 2 ^ 32

read_command-put_command :
    (c : PackedCommand) (rest : List ℕ)
    → FitsCommand c
    → read_command (put_command c ++ rest) ≡ some (c, rest)
unfolding read_command put_command
read_command-put_command c rest h = ap (λ d. some (d, rest)) (ground arith)

read_vertex-put_vertex :
    (v : PackedVertex) (rest : List ℕ)
    → FitsVertex v
    → read_vertex (put_vertex v ++ rest) ≡ some (v, rest)
unfolding read_vertex put_vertex
read_vertex-put_vertex v rest h = ap (λ d. some (d, rest)) (ground arith)

-- A counted loop reads back what was written one by one.
module _ {ℓ κ ι} {A : Type ℓ} {B : Type κ} (P : A → Type ι) (put : A → List ℕ) (value : A → B)
    (read : Reader B)
    (each : (a : A) (rest : List ℕ) → P a → read (put a ++ rest) ≡ some (value a, rest)) where
  read_many-concat :
      (xs : List A) (rest : List ℕ)
      → All P xs
      → read_many read (length xs) (concat (map put xs) ++ rest) ≡ some (map value xs, rest)
  unfolding read_many
  read_many-concat [] rest h = refl
  read_many-concat (x ∷ xs) rest h =
      ap (read_many read (suc (length xs))) (append_assoc (put x) (concat (map put xs)) rest)
      ∙ >>=-some read _ _ (value x) _ (each x (concat (map put xs) ++ rest) h.0)
      ∙ >>=-some (read_many read (length xs)) _ _ (map value xs) rest (read_many-concat xs rest h.1)

All-units {ℓ} : {A : Type ℓ} (xs : List A) → All (λ x. Unit {0}) xs
All-units [] = tt
All-units (x ∷ xs) = (tt, All-units xs)

-- A list whose sizes are `int`s and whose colours are 32 bits.
pub record IsDrawable (l : DrawList) : Type 0 where
  pub commands : length l.commands < 2 ^ 31
  pub vertices : length l.vertices < 2 ^ 31
  pub indices : length l.indices < 2 ^ 31
  pub colours : All (λ v. v.col < 2 ^ 32) l.vertices

module _ (f : Floats) (from to : Point) where
  pack_command-Fits : (c : Command) → FitsCommand (pack_command f from c)
  unfolding pack_command quantize
  pack_command-Fits c = omega arith

  pack_vertex-Fits :
      (v : Vertex) → v.col < 2 ^ 32 → FitsVertex (pack_vertex f from (clamp_vertex f from v))
  unfolding pack_vertex quantize clamp_vertex
  pack_vertex-Fits v h = omega arith

  -- What the viewer shows of a list: clip rectangles, positions and texture coordinates in 4096 steps,
  -- clamped to the display where the sender clamps them, and offsets, counts and indices in 16 bits.
  unfoldable pub shown_list : DrawList → DrawList
  shown_list l = record {
    commands = map (unpack_command f to) (map (pack_command f from) l.commands);
    vertices =
        map (unpack_vertex f to) (map (λ v. pack_vertex f from (clamp_vertex f from v)) l.vertices);
    indices = map (λ i. i % 2 ^ 16) l.indices;
  }

  pub read_list-put_elements :
      (l : DrawList) (rest : List ℕ)
      → IsDrawable l
      → read_list f to
          (length l.commands)
          (length l.vertices)
          (length l.indices)
          (put_elements f from l ++ rest)
        ≡ some (shown_list l, rest)
  unfolding put_elements read_list shown_list
  read_list-put_elements l rest d =
      let commands = concat (map (λ c. put_command (pack_command f from c)) l.commands) in
      let vertices =
        concat (map (λ v. put_vertex (pack_vertex f from (clamp_vertex f from v))) l.vertices) in
      let indices = concat (map put_u16 l.indices) in
      let seam : (commands ++ (vertices ++ indices)) ++ rest
          ≡ commands ++ (vertices ++ (indices ++ rest)) =
        append_assoc commands (vertices ++ indices) rest
        ∙ ap (◌++◌ commands) (append_assoc vertices indices rest) in
      ap (read_list f to (length l.commands) (length l.vertices) (length l.indices)) seam
      ∙ >>=-some (read_many read_command (length l.commands)) _ _
          (map (pack_command f from) l.commands) _
          (read_many-concat (λ c. Unit {0}) (λ c. put_command (pack_command f from c))
            (pack_command f from) read_command
            (λ c r h. read_command-put_command (pack_command f from c) r (pack_command-Fits c))
            l.commands _ (All-units l.commands))
      ∙ >>=-some (read_many read_vertex (length l.vertices)) _ _
          (map (λ v. pack_vertex f from (clamp_vertex f from v)) l.vertices) _
          (read_many-concat (λ v. v.col < 2 ^ 32)
            (λ v. put_vertex (pack_vertex f from (clamp_vertex f from v)))
            (λ v. pack_vertex f from (clamp_vertex f from v)) read_vertex
            (λ v r h. read_vertex-put_vertex _ r (pack_vertex-Fits v h)) l.vertices _ d.colours)
      ∙ >>=-some (read_many read_u16 (length l.indices)) _ _ (map (λ i. i % 2 ^ 16) l.indices) _ (
          read_many-concat (λ i. Unit {0}) put_u16 (λ i. i % 2 ^ 16) read_u16
            (λ i r h. read_u16-put_u16 i r) l.indices _ (All-units l.indices))
