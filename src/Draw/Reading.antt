-- ===== src/Draw/Reading.antt =====
-- The readers of client/Source/pe/DrawData.cpp do not look behind what they need.
use nxdb.Common.{
  ℕ, zero, suc, ◌+◌, ◌^◌, ◌≡◌, ap, ◌∙◌, List, [], ◌∷◌, ◌++◌, Option, none, some, arith, ltb,
  Option-cases, inl, inr, Bool-cases, if◌then◌else◌,
}
use mathlib.Core.Option
use nxdb.Draw.{Floats, Point, DrawList}
use nxdb.Draw.Layout.{Reader, ◌>>=◌, pure, read_u16, read_u32, read_command, read_vertex, read_many}
use nxdb.Draw.Unpack.{
  read_count, is_blank, prev_at, read_list, choose_list, unpack_list, unpack_lists, unpack,
}

-- What a reader reads, it reads with more bytes behind, and leaves those.
abbrev IsLocal {ℓ} : {A : Type ℓ} → Reader A → Type ℓ
IsLocal {A = A} r =
    (m z : List ℕ) (a : A) (rest : List ℕ) → r m ≡ some (a, rest) → r (m ++ z) ≡ some (a, rest ++ z)

pure-IsLocal {ℓ} : {A : Type ℓ} (a : A) → IsLocal (pure a)
pure-IsLocal a m z b rest e = ground arith

bind-IsLocal {ℓ κ} :
    {A : Type ℓ} {B : Type κ} (r : Reader A) (g : A → Reader B)
    → IsLocal r
    → ((a : A) → IsLocal (g a))
    → IsLocal (r >>= g)
bind-IsLocal r g local_r local_g m z b rest e = elim (Option-cases (r m)) [
  | inl fails ↦ absurd (ground arith)
  | inr ((a, behind), reads) ↦
      let next : g a behind ≡ some (b, rest) = ground arith in
      rw (◌>>=◌, local_r m z a behind reads) (local_g a behind z b rest next)
]

read_u16-IsLocal : IsLocal read_u16
unfolding read_u16
read_u16-IsLocal (a ∷ b ∷ m) z v rest e = ground arith
read_u16-IsLocal m z v rest e = cc

read_u32-IsLocal : IsLocal read_u32
unfolding read_u32
read_u32-IsLocal (a ∷ b ∷ c ∷ d ∷ m) z v rest e = ground arith
read_u32-IsLocal m z v rest e = cc

read_command-IsLocal : IsLocal read_command
unfolding read_command
read_command-IsLocal (a ∷ b ∷ c ∷ d ∷ e ∷ f ∷ g ∷ h ∷ i ∷ j ∷ k ∷ l ∷ m) z v rest q = ground arith
read_command-IsLocal m z v rest q = cc

read_vertex-IsLocal : IsLocal read_vertex
unfolding read_vertex
read_vertex-IsLocal (a ∷ b ∷ c ∷ d ∷ e ∷ f ∷ g ∷ h ∷ i ∷ j ∷ m) z v rest q = ground arith
read_vertex-IsLocal m z v rest q = cc

read_many-IsLocal {ℓ} : {A : Type ℓ} (r : Reader A) → IsLocal r → (n : ℕ) → IsLocal (read_many r n)
unfolding read_many
read_many-IsLocal r local zero = pure-IsLocal []
read_many-IsLocal r local (suc n) = bind-IsLocal r _ local λ a.
    bind-IsLocal (read_many r n) _ (read_many-IsLocal r local n) λ rest. pure-IsLocal (a ∷ rest)

read_count-IsLocal : IsLocal read_count
unfolding read_count
read_count-IsLocal =
    bind-IsLocal read_u32 (λ n m. if ltb n (2 ^ 31) then some (n, m) else none) read_u32-IsLocal
      (λ n m z a rest e. ground arith)

module _ (f : Floats) (size : Point) where
  read_list-IsLocal : (a b c : ℕ) → IsLocal (read_list f size a b c)
  unfolding read_list
  read_list-IsLocal a b c =
      bind-IsLocal (read_many read_command a) _
        (read_many-IsLocal read_command read_command-IsLocal a)
        λ cs.
          bind-IsLocal (read_many read_vertex b) _
            (read_many-IsLocal read_vertex read_vertex-IsLocal b)
            λ vs.
              bind-IsLocal (read_many read_u16 c) _ (read_many-IsLocal read_u16 read_u16-IsLocal c)
                λ is. pure-IsLocal _

  choose_list-IsLocal :
      (prev : Option DrawList) (a b c : ℕ) → IsLocal (choose_list f size prev a b c)
  unfolding choose_list
  choose_list-IsLocal none a b c = read_list-IsLocal a b c
  choose_list-IsLocal (some l) a b c = elim (Bool-cases (is_blank a b c)) [
    | inl blank ↦ rw (choose_list, blank) (pure-IsLocal l)
    | inr full ↦ rw (choose_list, full) (read_list-IsLocal a b c)
  ]

  unpack_lists-IsLocal :
      (prev : Option (List DrawList)) (n i : ℕ) → IsLocal (unpack_lists f size prev n i)
  unfolding unpack_lists unpack_list
  unpack_lists-IsLocal prev zero i = pure-IsLocal []
  unpack_lists-IsLocal prev (suc n) i =
      bind-IsLocal (unpack_list f size prev i) _
        (bind-IsLocal read_count _ read_count-IsLocal λ a.
          bind-IsLocal read_count _ read_count-IsLocal λ b.
            bind-IsLocal read_count _ read_count-IsLocal
              λ c. choose_list-IsLocal (prev_at prev i) a b c)
        λ l.
          bind-IsLocal (unpack_lists f size prev n (i + 1)) _ (unpack_lists-IsLocal prev n (i + 1))
            λ ls. pure-IsLocal (l ∷ ls)

  read_all : Option (List DrawList) → Reader (ℕ × List DrawList)
  read_all prev = read_u32 >>= λ cursor. read_count >>= λ count. read_u32 >>= λ vtx.
      read_u32 >>= λ idx. unpack_lists f size prev count 0 >>= λ ls. pure (cursor, ls)

  read_all-IsLocal : (prev : Option (List DrawList)) → IsLocal (read_all prev)
  unfolding read_all
  read_all-IsLocal prev = bind-IsLocal read_u32 _ read_u32-IsLocal λ cursor.
      bind-IsLocal read_count _ read_count-IsLocal λ count.
        bind-IsLocal read_u32 _ read_u32-IsLocal λ vtx.
          bind-IsLocal read_u32 _ read_u32-IsLocal λ idx.
            bind-IsLocal (unpack_lists f size prev count 0) _ (unpack_lists-IsLocal prev count 0)
              λ ls. pure-IsLocal (cursor, ls)

  -- Draw data that is unpacked is unpacked the same with more memory behind it.
  pub unpack-append :
      (prev : Option (List DrawList)) (m z : List ℕ) (r : ℕ × List DrawList)
      → unpack f size prev m ≡ some r
      → unpack f size prev (m ++ z) ≡ some r
  unfolding unpack read_all
  unpack-append prev m z r e = elim (Option-cases (read_all prev m)) [
    | inl fails ↦ absurd (ground arith)
    | inr ((s, rest), reads) ↦
        let same : s ≡ r = ground arith in
        ap (Option.map (λ q. q.0)) (read_all-IsLocal prev m z s rest reads) ∙ ap some same
  ]
