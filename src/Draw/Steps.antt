-- ===== src/Draw/Steps.antt =====
-- One round of the sender's loop over the lists, at a place of the array of hashes.
use nxdb.Common.{
  ℕ, ◌+◌, ◌≡◌, ◌≢◌, refl, sym, ap, ◌∙◌, true, false, List, [], ◌∷◌, ◌++◌, append_assoc, some, arith,
  length, set, get_elem?-middle, set-middle, ◌==◌,
}
use nxdb.Draw.{Floats, Point, DrawList}
use nxdb.Draw.Pack.{Hashes, hash_draw_list, put_sizes, put_list, clamp_list, pack_lists}

module _ (f : Floats) (h : Hashes) (size : Point) (i x : ℕ) (l : DrawList) (ls : List DrawList)
    (done hs bytes hashes : List ℕ) (lists : List DrawList) (place : i ≡ length done) where
  pub pack_same :
      hash_draw_list h l ≡ x
      → pack_lists f h size (i + 1) ls ((done ++ x ∷ []) ++ hs)
        ≡ some (bytes, (done ++ x ∷ []) ++ hashes, lists)
      → pack_lists f h size i (l ∷ ls) (done ++ x ∷ hs)
        ≡ some (put_sizes 0 0 0 ++ bytes, done ++ x ∷ hashes, l ∷ lists)
  unfolding pack_lists put_sizes
  pack_same same rest =
      let equal : (hash_draw_list h l == x) ≡ true = ground arith in
      let next : pack_lists f h size (i + 1) ls (done ++ x ∷ hs)
          ≡ some (bytes, done ++ x ∷ hashes, lists) =
        ap (pack_lists f h size (i + 1) ls) (sym (append_assoc done (x ∷ []) hs))
        ∙ rest
        ∙ ap (λ r. some (bytes, r, lists)) (append_assoc done (x ∷ []) hashes) in
      rw (pack_lists, get_elem?-middle i done x hs place, equal, next) refl

  pub pack_full :
      let n = hash_draw_list h l in
      n ≢ x
      → pack_lists f h size (i + 1) ls ((done ++ n ∷ []) ++ hs)
        ≡ some (bytes, (done ++ n ∷ []) ++ hashes, lists)
      → pack_lists f h size i (l ∷ ls) (done ++ x ∷ hs)
        ≡ some (put_list f size l ++ bytes, done ++ n ∷ hashes, clamp_list f size l ∷ lists)
  unfolding pack_lists put_list hash_draw_list clamp_list
  pack_full other rest =
      let n = hash_draw_list h l in
      let differs : (n == x) ≡ false = ground arith in
      let next : pack_lists f h size (i + 1) ls (set (done ++ x ∷ hs) i n)
          ≡ some (bytes, done ++ n ∷ hashes, lists) =
        ap (pack_lists f h size (i + 1) ls)
          (set-middle i done x n hs place ∙ sym (append_assoc done (n ∷ []) hs))
        ∙ rest
        ∙ ap (λ r. some (bytes, r, lists)) (append_assoc done (n ∷ []) hashes) in
      rw (pack_lists, get_elem?-middle i done x hs place, differs, next) refl
