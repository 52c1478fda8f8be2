-- ===== src/Draw/Joining.antt =====
-- A viewer that joins later: the sender's hashes are shared by all viewers.
use nxdb.Common.{
  ℕ, suc, ◌+◌, ◌≤◌, ◌<◌, ◌^◌, ◌≡◌, ◌≢◌, refl, sym, ap, ◌∙◌, Bool-cases, inl, inr, List, [], ◌∷◌,
  ◌++◌, append_assoc, none, some, map, length, length-append, arith, ◌==◌,
}
use nxdb.Draw.{Floats, Point, DrawList, DrawData}
use nxdb.Draw.Layout.{read_many}
use nxdb.Draw.Pack.{
  Hashes, Packer, max_draw_lists, hash_draw_list, put_sizes, put_list, clamp_list, pack_lists,
  put_header, pack,
}
use nxdb.Draw.Unpack.{prev_at, choose_list, read_list, unpack_list, unpack_lists, unpack}
use nxdb.Draw.Steps.{pack_same, pack_full}
use nxdb.Draw.Codec.{>>=-some}
use nxdb.Draw.Sync.{read_sizes}
use nxdb.Draw.Frames.{unpack-put_header}

abbrev pub blank_list : DrawList
blank_list = record { commands = []; vertices = []; indices = [] }

-- The three zeros for each list.
zeros : List DrawList → List ℕ
zeros [] = []
zeros (l ∷ ls) = put_sizes 0 0 0 ++ zeros ls

module _ (f : Floats) (h : Hashes) (from to : Point) where
  -- The lists from the place `i` on are packed, and then packed again.
  record Repacks (i : ℕ) (ls : List DrawList) (done hs : List ℕ) : Type 0 where
    bytes : List ℕ
    hashes : List ℕ
    lists : List DrawList
    first : pack_lists f h from i ls (done ++ hs) ≡ some (bytes, done ++ hashes, lists)
    second : pack_lists f h from i ls (done ++ hashes) ≡ some (zeros ls, done ++ hashes, ls)

  repacks :
      (ls : List DrawList) (hs done : List ℕ) (i : ℕ)
      → i ≡ length done
      → length ls ≤ length hs
      → Repacks i ls done hs
  unfolding pack_lists zeros
  repacks [] hs done i place room = record {
    bytes = [];
    hashes = hs;
    lists = [];
    first = refl;
    second = refl;
  }
  repacks (l ∷ ls) [] done i place room = absurd (omega arith)
  repacks (l ∷ ls) (x ∷ hs) done i place room =
      let n = hash_draw_list h l in
      let r =
        repacks ls hs (done ++ n ∷ []) (i + 1) (omega (arith, length-append done (n ∷ [])))
          (omega arith) in
      elim (Bool-cases (n == x)) [
        | inl equal ↦
            let same : n ≡ x = ground arith in
            record {
              bytes = put_sizes 0 0 0 ++ r.bytes;
              hashes = n ∷ r.hashes;
              lists = l ∷ r.lists;
              first =
                  ap (λ y. pack_lists f h from i (l ∷ ls) (done ++ y ∷ hs)) (sym same)
                  ∙ pack_same f h from i n l ls done hs r.bytes r.hashes r.lists place refl r.first;
              second =
                  pack_same f h from i n l ls done r.hashes (zeros ls) r.hashes ls place refl
                    r.second;
            }
        | inr differs ↦
            let other : n ≢ x = λ e. ground arith in
            record {
              bytes = put_list f from l ++ r.bytes;
              hashes = n ∷ r.hashes;
              lists = clamp_list f from l ∷ r.lists;
              first =
                  pack_full f h from i x l ls done hs r.bytes r.hashes r.lists place other r.first;
              second =
                  pack_same f h from i n l ls done r.hashes (zeros ls) r.hashes ls place refl
                    r.second;
            }
      ]

  unpack_zeros :
      (ls : List DrawList) (i : ℕ) (rest : List ℕ)
      → unpack_lists f to none (length ls) i (zeros ls ++ rest)
        ≡ some (map (λ l. blank_list) ls, rest)
  unfolding unpack_lists zeros choose_list read_list read_many prev_at
  unpack_zeros [] i rest = refl
  unpack_zeros (l ∷ ls) i rest =
      ap (unpack_lists f to none (suc (length ls)) i)
        (append_assoc (put_sizes 0 0 0) (zeros ls) rest)
      ∙ >>=-some (unpack_list f to none i) _ _ blank_list (zeros ls ++ rest) (
          read_sizes f h from to none i 0 0 0 (zeros ls ++ rest) (omega arith) (omega arith)
            (omega arith))
      ∙ >>=-some (unpack_lists f to none (length ls) (i + 1)) _ _ (map (λ l. blank_list) ls) rest
          (unpack_zeros ls (i + 1) rest)

  -- Draw data that is packed twice without a change, the second time for a viewer that has not shown
  -- anything yet: that viewer shows every list empty.
  pub repacked_blank :
      (d : DrawData) (p : Packer) (rest : List ℕ)
      → d.cursor < 2 ^ 32
      → d.total_vtx_count < 2 ^ 32
      → d.total_idx_count < 2 ^ 32
      → length d.lists ≤ max_draw_lists
      → length p.hashes ≡ max_draw_lists
      → (once : List ℕ) × (q : Packer) × (e : DrawData) × (twice : List ℕ) × (pack f h from d p
          ≡ some (once, q, e))
        × (pack f h from d q ≡ some (twice, q, d))
        × (unpack f to none (twice ++ rest) ≡ some (d.cursor, map (λ l. blank_list) d.lists))
  unfolding pack
  repacked_blank d p rest hc hv hi room long =
      let r = repacks d.lists p.hashes [] 0 refl (omega arith) in
      (
        put_header d ++ r.bytes,
        record { hashes = r.hashes; num_prev = length d.lists },
        record d { lists = r.lists },
        put_header d ++ zeros d.lists,
        rw (pack, r.first) refl,
        rw (pack, r.second) refl,
        unpack-put_header f h from to none d (zeros d.lists) rest (map (λ l. blank_list) d.lists) hc
            hv hi (omega arith) (unpack_zeros d.lists 0 rest),
      )
