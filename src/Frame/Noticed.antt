-- ===== src/Frame/Noticed.antt =====
-- A change of one field of one vertex: with the hash of hash.h it is packed and sent.
use nxdb.Common.{
  ℕ, ◌+◌, ◌%◌, ◌^◌, ◌<◌, ◌≡◌, ◌≢◌, refl, sym, ◌∙◌, arith, true, false, not, ◌||◌, List, [], ◌∷◌,
  ◌++◌, none, some, set, get_elem?, length, length-append, ◌==◌,
}
use nxdb.Draw.{Floats, Point, Command, Vertex, DrawList, DrawData}
use nxdb.Draw.Pack.{Hashes, hash_draw_list, pack_lists, put_list, clamp_list}
use nxdb.Draw.Memory.{murmur_hashes}
use nxdb.Draw.Fields.{Field, set_field, hash_buffer-lt, field_changed}
use nxdb.Frame.{Loop, Texture, add_hashes, calc_draw_data_hash, render}

-- A list with a value in a field of one of its vertices, and draw data with this list.
abbrev pub with_field : DrawList → List Vertex → List Vertex → Field → Vertex → ℕ → DrawList
with_field l vs ws f v n = record l { vertices = vs ++ set_field f n v ∷ ws }

abbrev pub with_list : DrawData → List DrawList → List DrawList → DrawList → DrawData
with_list d ls ms l = record d { lists = ls ++ l ∷ ms }

module _ (h : Hashes) where
  hash_draw_list-lt : (l : DrawList) → hash_draw_list h l < 2 ^ 32
  unfolding hash_draw_list
  hash_draw_list-lt l = omega arith

  add_hashes-inj_start :
      (ls : List DrawList) (a b : ℕ)
      → a < 2 ^ 32
      → b < 2 ^ 32
      → add_hashes h a ls ≡ add_hashes h b ls
      → a ≡ b
  unfolding add_hashes
  add_hashes-inj_start [] a b ha hb e = e
  add_hashes-inj_start (l ∷ ls) a b ha hb e =
      let next =
        add_hashes-inj_start ls ((a + hash_draw_list h l) % 2 ^ 32)
          ((b + hash_draw_list h l) % 2 ^ 32) (omega arith) (omega arith) e in
      omega arith

  -- Of two frames that differ in one list, the hashes are equal only if those of the list are.
  add_hashes-inj_list :
      (ls ms : List DrawList) (l l' : DrawList) (a : ℕ)
      → add_hashes h a (ls ++ l ∷ ms) ≡ add_hashes h a (ls ++ l' ∷ ms)
      → hash_draw_list h l ≡ hash_draw_list h l'
  unfolding add_hashes
  add_hashes-inj_list [] ms l l' a e =
      let next =
        add_hashes-inj_start ms ((a + hash_draw_list h l) % 2 ^ 32)
          ((a + hash_draw_list h l') % 2 ^ 32) (omega arith) (omega arith) e in
      omega (arith, hash_draw_list-lt l, hash_draw_list-lt l')
  add_hashes-inj_list (x ∷ ls) ms l l' a e =
      add_hashes-inj_list ls ms l l' ((a + hash_draw_list h x) % 2 ^ 32) e

module _ (f : Floats) (h : Hashes) (size : Point) (t : Texture) where
  -- Draw data with another hash is treated as after `queueRerender`.
  render-new :
      (d : DrawData) (l : Loop)
      → l.last_draw_data_hash ≢ calc_draw_data_hash h d
      → render f h size t d l ≡ render f h size t d (record l { rerender = true })
  unfolding render
  render-new d l new =
      let test : (l.rerender || not (l.last_draw_data_hash == calc_draw_data_hash h d)) ≡ true =
        ground (arith, new) in
      rw (render, test) refl

module _ (f : Floats) (h : Hashes) (size : Point) where
  pack_lists-new :
      (i x : ℕ) (l : DrawList) (ls : List DrawList) (hashes : List ℕ)
      → get_elem? hashes i ≡ some x
      → hash_draw_list h l ≢ x
      → pack_lists f h size i (l ∷ ls) hashes
        ≡ elim (pack_lists f h size (i + 1) ls (set hashes i (hash_draw_list h l))) [
          | none ↦ none
          | some (bytes, hashes', ls') ↦
              some (put_list f size l ++ bytes, hashes', clamp_list f size l ∷ ls')
        ]
  unfolding pack_lists
  pack_lists-new i x l ls hashes at new =
      let test : (hash_draw_list h l == x) ≡ false = ground (arith, new) in
      rw (pack_lists, at, test) refl

cancel_sum :
    (a b i c : ℕ) → a < 2 ^ 32 → b < 2 ^ 32 → (a + i + c) % 2 ^ 32 ≡ (b + i + c) % 2 ^ 32 → a ≡ b
cancel_sum a b i c ha hb e = omega arith

module _ (command_memory : Command → List ℕ) where
  abbrev hashes : Hashes
  hashes = murmur_hashes command_memory

  hash_draw_list-field :
      (l : DrawList) (vs ws : List Vertex) (f : Field) (v : Vertex) (m n : ℕ)
      → length (vs ++ v ∷ ws) < 2 ^ 27
      → m < 2 ^ 32
      → n < 2 ^ 32
      → m ≢ n
      → hash_draw_list hashes (with_field l vs ws f v m)
        ≢ hash_draw_list hashes (with_field l vs ws f v n)
  unfolding hash_draw_list murmur_hashes
  hash_draw_list-field l vs ws f v m n few hm hn differ e =
      field_changed vs ws f m n v few hm hn differ (
        cancel_sum _ _ (hashes.indices l.indices) (hashes.commands l.commands)
          (hash_buffer-lt (vs ++ set_field f m v ∷ ws) (as_few m))
          (hash_buffer-lt (vs ++ set_field f n v ∷ ws) (as_few n)) e)
    where
      as_few : (k : ℕ) → length (vs ++ set_field f k v ∷ ws) < 2 ^ 27
      as_few k =
          omega (arith, length-append {0} vs (set_field f k v ∷ ws), length-append {0} vs (v ∷ ws))

  -- Where a word of a vertex has another value than in the frame that was seen last, and the place of its
  -- list holds the hash that the list had: the frame is treated as after `queueRerender`, and the list is
  -- packed whole, whatever comes behind it.
  pub field_noticed :
      (f : Floats) (size : Point) (t : Texture) (d : DrawData) (ls ms rest : List DrawList)
      (l : DrawList) (vs ws : List Vertex) (field : Field) (v : Vertex) (m n i : ℕ) (loop : Loop)
      (places : List ℕ)
      → length (vs ++ v ∷ ws) < 2 ^ 27
      → m < 2 ^ 32
      → n < 2 ^ 32
      → m ≢ n
      → loop.last_draw_data_hash
        ≡ calc_draw_data_hash hashes (with_list d ls ms (with_field l vs ws field v m))
      → get_elem? places i ≡ some (hash_draw_list hashes (with_field l vs ws field v m))
      → let l' = with_field l vs ws field v n in
        (render f hashes size t (with_list d ls ms l') loop
          ≡ render f hashes size t (with_list d ls ms l') (record loop { rerender = true }))
        × (pack_lists f hashes size i (l' ∷ rest) places
            ≡ elim (pack_lists f hashes size
                (i + 1)
                rest
                (set places i (hash_draw_list hashes l'))) [
                  | none ↦ none
                  | some (bytes, places', rest') ↦
                      some (put_list f size l' ++ bytes, places', clamp_list f size l' ∷ rest')
                ])
  unfolding calc_draw_data_hash
  field_noticed f size t d ls ms rest l vs ws field v m n i loop places few hm hn differ seen at =
      let other = hash_draw_list-field l vs ws field v m n few hm hn differ in
      let l' = with_field l vs ws field v n in
      (
        render-new f hashes size t (with_list d ls ms l') loop (λ same. other (
            add_hashes-inj_list hashes ls ms (with_field l vs ws field v m) l' 0
              (sym seen ∙ same))),
        pack_lists-new f hashes size i (hash_draw_list hashes (with_field l vs ws field v m)) l'
            rest places at (λ same. other (sym same)),
      )
