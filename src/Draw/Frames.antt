-- ===== src/Draw/Frames.antt =====
-- Frame after frame: what a viewer shows that was there from the first frame on.
use nxdb.Common.{
  ℕ, suc, ◌+◌, subst, ◌≤◌, ◌<◌, ◌^◌, ◌≡◌, refl, sym, ap, ◌∙◌, List, [], ◌∷◌, ◌++◌, append_assoc,
  Option, none, some, map, length, length-append, All, arith, get_elem?-middle, put_u32,
}
use mathlib.Core.Option
use nxdb.Draw.{Floats, Point, DrawList, DrawData}
use nxdb.Draw.Pack.{Hashes, Packer, max_draw_lists, put_header, pack}
use nxdb.Draw.Unpack.{prev_at, read_count, unpack_lists, unpack}
use nxdb.Draw.Layout.{read_u32}
use nxdb.Draw.Codec.{>>=-some, read_u32-put_u32, read_count-put_u32, shown_list}
use nxdb.Draw.Sync.{IsShowable, AreHashes, Follows, Has, sends}

-- Draw data that the code can send: the header's fields are 32 bits, and there is a hash for each list.
pub record IsSendable (d : DrawData) : Type 0 where
  pub cursor : d.cursor < 2 ^ 32
  pub vtx_count : d.total_vtx_count < 2 ^ 32
  pub idx_count : d.total_idx_count < 2 ^ 32
  pub lists : All IsShowable d.lists
  pub room : length d.lists ≤ max_draw_lists

length-map {ℓ κ} :
    {A : Type ℓ} {B : Type κ} (g : A → B) (xs : List A) → length (map g xs) ≡ length xs
length-map g [] = refl
length-map g (x ∷ xs) = ap suc (length-map g xs)

module _ (f : Floats) (h : Hashes) (from to : Point) where
  -- The header is read, and the lists as far as the loop reads them.
  pub unpack-put_header :
      (prev : Option (List DrawList)) (d : DrawData) (bytes rest : List ℕ) (ls : List DrawList)
      → d.cursor < 2 ^ 32
      → d.total_vtx_count < 2 ^ 32
      → d.total_idx_count < 2 ^ 32
      → length d.lists < 2 ^ 31
      → unpack_lists f to prev (length d.lists) 0 (bytes ++ rest) ≡ some (ls, rest)
      → unpack f to prev ((put_header d ++ bytes) ++ rest) ≡ some (d.cursor, ls)
  unfolding unpack put_header
  unpack-put_header prev d bytes rest ls hc hv hi hn e =
      let a = put_u32 d.cursor in
      let b = put_u32 (length d.lists) in
      let c = put_u32 d.total_vtx_count in
      let g = put_u32 d.total_idx_count in
      let seam : ((a ++ (b ++ (c ++ g))) ++ bytes) ++ rest
          ≡ a ++ (b ++ (c ++ (g ++ (bytes ++ rest)))) =
        append_assoc (a ++ (b ++ (c ++ g))) bytes rest
        ∙ append_assoc a (b ++ (c ++ g)) (bytes ++ rest)
        ∙ ap (◌++◌ a) (append_assoc b (c ++ g) (bytes ++ rest))
        ∙ ap (λ r. a ++ (b ++ r)) (append_assoc c g (bytes ++ rest)) in
      ap (unpack f to prev) seam
      ∙ ap (Option.map (λ r. r.0)) (
          >>=-some read_u32 _ _ d.cursor _ (read_u32-put_u32 d.cursor _ hc)
          ∙ >>=-some read_count _ _ (length d.lists) _ (read_count-put_u32 (length d.lists) _ hn)
          ∙ >>=-some read_u32 _ _ d.total_vtx_count _ (read_u32-put_u32 d.total_vtx_count _ hv)
          ∙ >>=-some read_u32 _ _ d.total_idx_count _ (read_u32-put_u32 d.total_idx_count _ hi)
          ∙ >>=-some (unpack_lists f to prev (length d.lists) 0) _ _ ls rest e)

  shift :
      (done : List DrawList) (l : DrawList) (ls : List DrawList)
      → map (shown_list f from to) (done ++ l ∷ []) ++ map (shown_list f from to) ls
        ≡ map (shown_list f from to) done ++ map (shown_list f from to) (l ∷ ls)
  shift [] l ls = refl
  shift (d ∷ done) l ls = ap (◌∷◌ (shown_list f from to d)) (shift done l ls)

  -- The viewer that has just shown these lists has them.
  shown-Has :
      (done ls : List DrawList) (i : ℕ)
      → i ≡ length done
      → Has f h from to
          (some (map (shown_list f from to) done ++ map (shown_list f from to) ls))
          i
          ls
  unfolding prev_at
  shown-Has done [] i e = tt
  shown-Has done (l ∷ ls) i e = (
    get_elem?-middle i (map (shown_list f from to) done) (shown_list f from to l)
        (map (shown_list f from to) ls) (e ∙ sym (length-map (shown_list f from to) done)),
    subst (λ q. Has f h from to (some q) (i + 1) ls) (shift done l ls)
        (shown-Has (done ++ l ∷ []) ls (i + 1) (omega (arith, length-append done (l ∷ [])))),
  )

  -- Sender and viewer agree on the lists shown last.
  pub record Agree (os : List DrawList) (p : Packer) (prev : Option (List DrawList)) : Type 0 where
    pub long : length p.hashes ≡ max_draw_lists
    pub hashed : AreHashes f h from to os p.hashes
    pub has : Has f h from to prev 0 os

  -- One frame, and what the memory behind it holds: the viewer shows the lists, and the two agree again.
  pub frame_shown :
      (os : List DrawList) (p : Packer) (prev : Option (List DrawList)) (d : DrawData)
      (rest : List ℕ)
      → Agree os p prev
      → Follows f h from to os d.lists
      → IsSendable d
      → (bytes : List ℕ) × (q : Packer) × (e : DrawData) × (pack f h from d p ≡ some (bytes, q, e))
        × (unpack f to prev (bytes ++ rest) ≡ some (d.cursor, map (shown_list f from to) d.lists))
        × Agree d.lists q (some (map (shown_list f from to) d.lists))
  unfolding pack
  frame_shown os p prev d rest a new good =
      let s =
        sends f h from to os d.lists p.hashes [] 0 prev refl (omega (arith, a.long, good.room))
          a.hashed new a.has good.lists in
      (
        put_header d ++ s.bytes,
        record { hashes = s.hashes; num_prev = length d.lists },
        record d { lists = s.lists },
        rw (pack, s.packs) refl,
        unpack-put_header prev d s.bytes rest (map (shown_list f from to) d.lists) good.cursor
            good.vtx_count good.idx_count (omega (arith, good.room)) (s.reads rest),
        record { long = s.long ∙ a.long; hashed = s.hashed; has = shown-Has [] d.lists 0 refl },
      )

  -- Frames that are packed, sent and unpacked one after the other, each with the memory behind it: what
  -- the viewer shows.
  unfoldable pub watch :
      List (DrawData × List ℕ) → Packer → Option (List DrawList) → Option (List (ℕ × List DrawList))
  watch [] p prev = some []
  watch ((d, rest) ∷ ds) p prev = elim (pack f h from d p) [
    | none ↦ none
    | some (bytes, q, _) ↦ elim (unpack f to prev (bytes ++ rest)) [
      | none ↦ none
      | some (cursor, ls) ↦ Option.map (◌∷◌ (cursor, ls)) (watch ds q (some ls))
    ]
  ]

  -- Each frame can be sent and follows the one before it.
  abbrev pub Continues : List DrawList → List (DrawData × List ℕ) → Type 0
  Continues os [] = Unit
  Continues os ((d, rest) ∷ ds) =
      IsSendable d × Follows f h from to os d.lists × Continues d.lists ds

  -- A viewer that agrees with the sender shows every frame of a film, in which each frame can be sent and
  -- follows the one before it: the cursor, and each list as `shown_list` describes it.
  pub film_shown :
      (ds : List (DrawData × List ℕ)) (os : List DrawList) (p : Packer)
      (prev : Option (List DrawList))
      → Agree os p prev
      → Continues os ds
      → watch ds p prev ≡ some (map (λ e. (e.0.cursor, map (shown_list f from to) e.0.lists)) ds)
  unfolding watch
  film_shown [] os p prev a film = refl
  film_shown ((d, rest) ∷ ds) os p prev a film =
      let (bytes, q, e, packs, shows, agree) = frame_shown os p prev d rest a film.1 film.0 in
      rw
        (
          watch,
          packs,
          shows,
          film_shown ds d.lists q (some (map (shown_list f from to) d.lists)) agree film.2,
        )
        refl
