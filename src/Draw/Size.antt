-- ===== src/Draw/Size.antt =====
-- How long the packed draw data is, against the buffer that it is packed into.
use nxdb.Common.{
  ℕ, ◌+◌, ◌*◌, ◌≤◌, ◌≡◌, refl, ap, Bool-cases, Option-cases, inl, inr, List, [], ◌∷◌, ◌++◌, some,
  map, length, length-append, concat, arith, get_elem?, set, ◌==◌, put_u32,
}
use nxdb.Draw.{Floats, Point, DrawList, DrawData, pack_command, pack_vertex, clamp_vertex}
use nxdb.Draw.Layout.{put_u16, put_command, put_vertex}
use nxdb.Draw.Pack.{
  Hashes, Packer, hash_draw_list, put_sizes, put_elements, put_list, pack_lists, put_header, pack,
}

-- 12 bytes for a command, 10 for a vertex, 2 for an index, and 12 for the sizes of each list.
unfoldable pub list_size : DrawList → ℕ
list_size l = 12 + 12 * length l.commands + 10 * length l.vertices + 2 * length l.indices

unfoldable pub lists_size : List DrawList → ℕ
lists_size [] = 0
lists_size (l ∷ ls) = list_size l + lists_size ls

length-concat-map {ℓ} :
    {A : Type ℓ} (put : A → List ℕ) (k : ℕ)
    → ((a : A) → length (put a) ≡ k)
    → (xs : List A) → length (concat (map put xs)) ≡ k * length xs
length-concat-map put k each [] = omega arith
length-concat-map put k each (x ∷ xs) =
    grind
      (arith, length-append (put x) (concat (map put xs)), each x, length-concat-map put k each xs)

length-put_sizes : (a b c : ℕ) → length (put_sizes a b c) ≡ 12
unfolding put_sizes put_u32
length-put_sizes a b c = refl

module _ (f : Floats) (size : Point) where
  length-put_list : (l : DrawList) → length (put_list f size l) ≡ list_size l
  unfolding put_list put_elements list_size put_command put_vertex put_u16 put_u32
  length-put_list l =
      let commands = concat (map (λ c. put_command (pack_command f size c)) l.commands) in
      let vertices =
        concat (map (λ v. put_vertex (pack_vertex f size (clamp_vertex f size v))) l.vertices) in
      let indices = concat (map put_u16 l.indices) in
      omega (
        arith,
        length-append (put_sizes (length l.commands) (length l.vertices) (length l.indices))
            (commands ++ (vertices ++ indices)),
        length-put_sizes (length l.commands) (length l.vertices) (length l.indices),
        length-append commands (vertices ++ indices),
        length-append vertices indices,
        length-concat-map (λ c. put_command (pack_command f size c)) 12 (λ c. refl) l.commands,
        length-concat-map (λ v. put_vertex (pack_vertex f size (clamp_vertex f size v))) 10
            (λ v. refl) l.vertices,
        length-concat-map put_u16 2 (λ i. refl) l.indices,
      )

module _ (f : Floats) (h : Hashes) (size : Point) where
  pack_lists-size :
      (i : ℕ) (ls : List DrawList) (hashes bytes hashes' : List ℕ) (ls' : List DrawList)
      → pack_lists f h size i ls hashes ≡ some (bytes, hashes', ls')
      → length bytes ≤ lists_size ls
  unfolding pack_lists lists_size list_size
  pack_lists-size i [] hashes bytes hashes' ls' e =
      let none_sent : [] ≡ bytes = ground arith in omega (arith, ap length none_sent)
  pack_lists-size i (l ∷ ls) hashes bytes hashes' ls' e = elim (Option-cases (get_elem? hashes i)) [
    | inl over ↦ absurd (ground arith)
    | inr (x, there) ↦ elim (Bool-cases (hash_draw_list h l == x)) [
      | inl same ↦ elim (Option-cases (pack_lists f h size (i + 1) ls hashes)) [
        | inl stuck ↦ absurd (ground arith)
        | inr ((b, hs, qs), rest) ↦
            let sent : put_sizes 0 0 0 ++ b ≡ bytes = ground arith in
            omega (
              arith,
              ap length sent,
              length-append (put_sizes 0 0 0) b,
              length-put_sizes 0 0 0,
              pack_lists-size (i + 1) ls hashes b hs qs rest,
            )
      ]
      | inr other ↦
          let new = set hashes i (hash_draw_list h l) in
          elim (Option-cases (pack_lists f h size (i + 1) ls new)) [
            | inl stuck ↦ absurd (ground arith)
            | inr ((b, hs, qs), rest) ↦
                let sent : put_list f size l ++ b ≡ bytes = ground arith in
                omega (
                  arith,
                  ap length sent,
                  length-append (put_list f size l) b,
                  length-put_list f size l,
                  pack_lists-size (i + 1) ls new b hs qs rest,
                )
          ]
    ]
  ]

  -- The packed draw data is 16 bytes and, for each list, at most 12, and 12 for a command, 10 for a vertex
  -- and 2 for an index.
  pub pack_size :
      (d e : DrawData) (p q : Packer) (bytes : List ℕ)
      → pack f h size d p ≡ some (bytes, q, e)
      → length bytes ≤ 16 + lists_size d.lists
  unfolding pack put_header put_u32
  pack_size d e p q bytes packs = elim (Option-cases (pack_lists f h size 0 d.lists p.hashes)) [
    | inl stuck ↦ absurd (ground arith)
    | inr ((b, hs, qs), rest) ↦
        let sent : put_header d ++ b ≡ bytes = ground arith in
        omega (
          arith,
          ap length sent,
          length-append (put_header d) b,
          pack_lists-size 0 d.lists p.hashes b hs qs rest,
        )
  ]
