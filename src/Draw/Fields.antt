-- ===== src/Draw/Fields.antt =====
-- The memory of a vertex, with one of its five words changed.
use nxdb.Common.{
  ℕ, ◌*◌, ◌%◌, ◌^◌, ◌<◌, ◌≡◌, ◌≢◌, refl, sym, ap, ◌∙◌, arith, inl, List, [], ◌∷◌, ◌++◌, map, concat,
  All, All-append, length, length-append, append_assoc, put_u32, get_u32, get_u32-put_u32,
  length-put_u32,
}
use nxdb.Hash.{unsigned_char, hash_murmur}
use nxdb.Hash.Change.{one_block_changed, hash_murmur-lt}
use nxdb.Draw.{Vertex}
use nxdb.Draw.Memory.{vertex_memory, hash_bytes}

-- The five words of a vertex.
pub data Field : Type 0 where
  pos_x pos_y uv_x uv_y colour : Field

unfoldable pub set_field : Field → ℕ → Vertex → Vertex
set_field pos_x n v = record v { pos = record (v.pos) { x = n } }
set_field pos_y n v = record v { pos = record (v.pos) { y = n } }
set_field uv_x n v = record v { uv = record (v.uv) { x = n } }
set_field uv_y n v = record v { uv = record (v.uv) { y = n } }
set_field colour n v = record v { col = n }

-- The memory before and behind a field.
before : Field → Vertex → List ℕ
before pos_x v = []
before pos_y v = put_u32 v.pos.x
before uv_x v = put_u32 v.pos.x ++ put_u32 v.pos.y
before uv_y v = put_u32 v.pos.x ++ (put_u32 v.pos.y ++ put_u32 v.uv.x)
before colour v = put_u32 v.pos.x ++ (put_u32 v.pos.y ++ (put_u32 v.uv.x ++ put_u32 v.uv.y))

behind : Field → Vertex → List ℕ
behind pos_x v = put_u32 v.pos.y ++ (put_u32 v.uv.x ++ (put_u32 v.uv.y ++ put_u32 v.col))
behind pos_y v = put_u32 v.uv.x ++ (put_u32 v.uv.y ++ put_u32 v.col)
behind uv_x v = put_u32 v.uv.y ++ put_u32 v.col
behind uv_y v = put_u32 v.col
behind colour v = []

abbrev AreBytes : List ℕ → Type 0
AreBytes bs = All (λ b. b < 256) bs

put_u32-AreBytes : (n : ℕ) → AreBytes (put_u32 n)
unfolding put_u32
put_u32-AreBytes n = omega arith

vertex_memory-set_field :
    (f : Field) (n : ℕ) (v : Vertex)
    → vertex_memory (set_field f n v) ≡ before f v ++ (put_u32 n ++ behind f v)
unfolding vertex_memory set_field before behind put_u32
vertex_memory-set_field pos_x n v = refl
vertex_memory-set_field pos_y n v = refl
vertex_memory-set_field uv_x n v = refl
vertex_memory-set_field uv_y n v = refl
vertex_memory-set_field colour n v = refl

before-whole : (f : Field) (v : Vertex) → length (before f v) % 4 ≡ 0
unfolding before put_u32
before-whole pos_x v = refl
before-whole _ v = refl

around-AreBytes : (f : Field) (v : Vertex) → AreBytes (before f v) × AreBytes (behind f v)
unfolding before behind put_u32
around-AreBytes pos_x v = (omega arith, omega arith)
around-AreBytes _ v = (omega arith, omega arith)

vertex_memory-AreBytes : (v : Vertex) → AreBytes (vertex_memory v)
unfolding vertex_memory put_u32
vertex_memory-AreBytes v = omega arith

length-vertex_memory : (v : Vertex) → length (vertex_memory v) ≡ 20
unfolding vertex_memory put_u32
length-vertex_memory v = refl

abbrev pub buffer : List Vertex → List ℕ
buffer vs = concat (map vertex_memory vs)

buffer-AreBytes : (vs : List Vertex) → AreBytes (buffer vs)
buffer-AreBytes [] = tt
buffer-AreBytes (v ∷ vs) =
    All-append (λ b. b < 256) (vertex_memory v) (buffer vs) (vertex_memory-AreBytes v)
      (buffer-AreBytes vs)

length-buffer : (vs : List Vertex) → length (buffer vs) ≡ 20 * length vs
length-buffer [] = refl
length-buffer (v ∷ vs) = omega (
  arith,
  length-append {0} (vertex_memory v) (buffer vs),
  length-vertex_memory v,
  length-buffer vs,
)

buffer-append : (vs ws : List Vertex) → buffer (vs ++ ws) ≡ buffer vs ++ buffer ws
buffer-append [] ws = refl
buffer-append (v ∷ vs) ws =
    ap (λ bs. vertex_memory v ++ bs) (buffer-append vs ws)
    ∙ sym (append_assoc (vertex_memory v) (buffer vs) (buffer ws))

put_u32-inj : (m n : ℕ) → m < 2 ^ 32 → n < 2 ^ 32 → put_u32 m ≡ put_u32 n → m ≡ n
put_u32-inj m n hm hn e =
    sym (get_u32-put_u32 m [] hm) ∙ ap (λ bs. get_u32 (bs ++ []) 0) e ∙ get_u32-put_u32 n [] hn

-- The buffer around a field of one of its vertices.
buffer-set_field :
    (vs ws : List Vertex) (f : Field) (n : ℕ) (v : Vertex)
    → buffer (vs ++ set_field f n v ∷ ws)
      ≡ (buffer vs ++ before f v) ++ (put_u32 n ++ (behind f v ++ buffer ws))
buffer-set_field vs ws f n v =
    buffer-append vs (set_field f n v ∷ ws)
    ∙ ap (λ bs. buffer vs ++ (bs ++ buffer ws)) (vertex_memory-set_field f n v)
    ∙ ap (λ bs. buffer vs ++ bs)
        (append_assoc (before f v) (put_u32 n ++ behind f v) (buffer ws)
          ∙ ap (λ bs. before f v ++ bs) (append_assoc (put_u32 n) (behind f v) (buffer ws)))
    ∙ sym (append_assoc (buffer vs) (before f v) (put_u32 n ++ (behind f v ++ buffer ws)))

hash_bytes-short :
    (bs : List ℕ) → length bs < 2 ^ 32 → hash_bytes bs ≡ hash_murmur unsigned_char bs (length bs) 0
hash_bytes-short bs short =
    let size : length bs % 2 ^ 32 ≡ length bs = omega arith in
    ap (λ n. hash_murmur unsigned_char bs n 0) size

pub hash_buffer-lt : (vs : List Vertex) → length vs < 2 ^ 27 → hash_bytes (buffer vs) < 2 ^ 32
hash_buffer-lt vs few =
    let short : length (buffer vs) < 2 ^ 32 = omega (arith, length-buffer vs) in
    let bound =
      hash_murmur-lt unsigned_char (buffer vs) 0 (omega arith) short (buffer-AreBytes vs) in
    omega (arith, hash_bytes-short (buffer vs) short)

-- Another value in one field of one vertex gives the buffer another hash.
pub field_changed :
    (vs ws : List Vertex) (f : Field) (m n : ℕ) (v : Vertex)
    → length (vs ++ v ∷ ws) < 2 ^ 27
    → m < 2 ^ 32
    → n < 2 ^ 32
    → m ≢ n
    → hash_bytes (buffer (vs ++ set_field f m v ∷ ws))
      ≢ hash_bytes (buffer (vs ++ set_field f n v ∷ ws))
field_changed vs ws f m n v few hm hn differ e =
    let pre = buffer vs ++ before f v in
    let post = behind f v ++ buffer ws in
    let around = around-AreBytes f v in
    let plain_pre =
      All-append (λ b. b < 256) (buffer vs) (before f v) (buffer-AreBytes vs) around.0 in
    let plain_post =
      All-append (λ b. b < 256) (behind f v) (buffer ws) around.1 (buffer-AreBytes ws) in
    let whole : length pre % 4 ≡ 0 =
      omega
        (arith, length-append {0} (buffer vs) (before f v), length-buffer vs, before-whole f v) in
    let sized = λ (k : ℕ). length-buffer (vs ++ set_field f k v ∷ ws) in
    let count = λ (k : ℕ). length-append {0} vs (set_field f k v ∷ ws) in
    let total = length-append {0} vs (v ∷ ws) in
    let shape = λ (k : ℕ). buffer-set_field vs ws f k v in
    let short_m : length (buffer (vs ++ set_field f m v ∷ ws)) < 2 ^ 32 =
      omega (arith, sized m, count m) in
    let short_n : length (buffer (vs ++ set_field f n v ∷ ws)) < 2 ^ 32 =
      omega (arith, sized n, count n) in
    let hash = λ (bs : List ℕ). hash_murmur unsigned_char bs (length bs) 0 in
    one_block_changed unsigned_char pre (put_u32 m) (put_u32 n) post 0 (omega arith) whole
      (length-put_u32 m ∙ sym (length-put_u32 n)) (inl (length-put_u32 m))
      (omega (arith, ap length (shape m))) plain_pre (put_u32-AreBytes m) (put_u32-AreBytes n)
      plain_post (λ same. differ (put_u32-inj m n hm hn same))
      (ap hash (sym (shape m))
        ∙ sym (hash_bytes-short _ short_m)
        ∙ e
        ∙ hash_bytes-short _ short_n
        ∙ ap hash (shape n))
