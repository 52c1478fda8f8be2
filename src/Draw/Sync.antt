-- ===== src/Draw/Sync.antt =====
-- The sender's hashes and the viewer's copies of the last lists, frame by frame.
use nxdb.Common.{
  ℕ, suc, ◌+◌, ◌≤◌, ◌<◌, ◌^◌, ◌≡◌, ◌≢◌, refl, sym, ap, ◌∙◌, false, Bool-cases, inl, inr, List, [],
  ◌∷◌, ◌++◌, append_assoc, Option, none, some, map, length, All, arith, length-append, ◌==◌,
  put_u32,
}
use nxdb.Draw.{Floats, Point, DrawList}
use nxdb.Draw.Pack.{
  Hashes, hash_draw_list, put_sizes, put_elements, put_list, clamp_list, pack_lists,
}
use nxdb.Draw.Unpack.{is_blank, prev_at, read_count, choose_list, unpack_list, unpack_lists}
use nxdb.Draw.Steps.{pack_same, pack_full}
use nxdb.Draw.Codec.{>>=-some, read_count-put_u32, IsDrawable, shown_list, read_list-put_elements}

-- A list that the code sends: within its widths, and with an element at least.
pub record IsShowable (l : DrawList) : Type 0 where
  pub drawable : IsDrawable l
  pub filled : is_blank (length l.commands) (length l.vertices) (length l.indices) ≡ false

module _ (f : Floats) (h : Hashes) (from to : Point) where
  abbrev pub shown : DrawList → DrawList
  shown = shown_list f from to

  -- `hashes` are those of the lists that were sent last in their places, and 0 where none was.
  abbrev pub AreHashes : List DrawList → List ℕ → Type 0
  AreHashes [] hashes = All (λ x. x ≡ 0) hashes
  AreHashes (l ∷ ls) [] = ⊥
  AreHashes (l ∷ ls) (x ∷ hashes) = (x ≡ hash_draw_list h l) × AreHashes ls hashes

  -- The new lists `ls` have as many places as the old ones at least. A list with the hash of the old one
  -- in its place shows the same, and a list in a new place has another hash than 0.
  abbrev pub Follows : List DrawList → List DrawList → Type 0
  Follows [] [] = Unit
  Follows (o ∷ os) [] = ⊥
  Follows [] (l ∷ ls) = (hash_draw_list h l ≢ 0) × Follows [] ls
  Follows (o ∷ os) (l ∷ ls) =
      (hash_draw_list h l ≡ hash_draw_list h o → shown l ≡ shown o) × Follows os ls

  -- The viewer has the old lists from the place `i` on.
  abbrev pub Has : Option (List DrawList) → ℕ → List DrawList → Type 0
  Has prev i [] = Unit
  Has prev i (o ∷ os) = (prev_at prev i ≡ some (shown o)) × Has prev (i + 1) os

  pub read_sizes :
      (prev : Option (List DrawList)) (i a b c : ℕ) (rest : List ℕ)
      → a < 2 ^ 31
      → b < 2 ^ 31
      → c < 2 ^ 31
      → unpack_list f to prev i (put_sizes a b c ++ rest)
        ≡ choose_list f to (prev_at prev i) a b c rest
  unfolding unpack_list put_sizes
  read_sizes prev i a b c rest ha hb hc =
      ap (unpack_list f to prev i) (
        append_assoc (put_u32 a) (put_u32 b ++ put_u32 c) rest
        ∙ ap (◌++◌ (put_u32 a)) (append_assoc (put_u32 b) (put_u32 c) rest))
      ∙ >>=-some read_count _ _ a _ (read_count-put_u32 a _ ha)
      ∙ >>=-some read_count _ _ b _ (read_count-put_u32 b _ hb)
      ∙ >>=-some read_count _ _ c _ (read_count-put_u32 c rest hc)

  read_full :
      (prev : Option DrawList) (l : DrawList) (rest : List ℕ)
      → IsShowable l
      → choose_list f to prev
          (length l.commands)
          (length l.vertices)
          (length l.indices)
          (put_elements f from l ++ rest)
        ≡ some (shown l, rest)
  unfolding choose_list
  read_full none l rest s = read_list-put_elements f from to l rest s.drawable
  read_full (some o) l rest s = rw s.filled (read_list-put_elements f from to l rest s.drawable)

  -- A list that is sent in full, and one that is sent as three zeros.
  unpack_list-full :
      (prev : Option (List DrawList)) (i : ℕ) (l : DrawList) (rest : List ℕ)
      → IsShowable l
      → unpack_list f to prev i (put_list f from l ++ rest) ≡ some (shown l, rest)
  unfolding put_list
  unpack_list-full prev i l rest s =
      let a = length l.commands in
      let b = length l.vertices in
      let c = length l.indices in
      ap (unpack_list f to prev i) (append_assoc (put_sizes a b c) (put_elements f from l) rest)
      ∙ read_sizes prev i a b c _ s.drawable.commands s.drawable.vertices s.drawable.indices
      ∙ read_full (prev_at prev i) l rest s

  unpack_list-same :
      (prev : Option (List DrawList)) (i : ℕ) (o : DrawList) (rest : List ℕ)
      → prev_at prev i ≡ some o
      → unpack_list f to prev i (put_sizes 0 0 0 ++ rest) ≡ some (o, rest)
  unfolding choose_list
  unpack_list-same prev i o rest e =
      read_sizes prev i 0 0 0 rest (omega arith) (omega arith) (omega arith) ∙ rw e refl

  -- What the lists from the place `i` on are sent as, what the hashes are afterwards, and that the viewer
  -- reads the lists back.
  pub record Sends (i : ℕ) (ls : List DrawList) (done hs : List ℕ) (prev : Option (List DrawList))
      : Type 0 where
    pub bytes : List ℕ
    pub hashes : List ℕ
    pub lists : List DrawList
    pub packs : pack_lists f h from i ls (done ++ hs) ≡ some (bytes, done ++ hashes, lists)
    pub hashed : AreHashes ls hashes
    pub long : length hashes ≡ length hs
    pub reads :
        (rest : List ℕ)
        → unpack_lists f to prev (length ls) i (bytes ++ rest) ≡ some (map shown ls, rest)

  module _ (i x : ℕ) (l : DrawList) (ls : List DrawList) (done hs : List ℕ)
      (prev : Option (List DrawList)) (place : i ≡ length done) where
    read_next :
        (front bytes : List ℕ)
        → ((rest : List ℕ) → unpack_list f to prev i (front ++ rest) ≡ some (shown l, rest))
        → ((rest : List ℕ)
            → unpack_lists f to prev (length ls) (i + 1) (bytes ++ rest)
              ≡ some (map shown ls, rest))
        → (rest : List ℕ)
        → unpack_lists f to prev (suc (length ls)) i ((front ++ bytes) ++ rest)
          ≡ some (map shown (l ∷ ls), rest)
    unfolding unpack_lists
    read_next front bytes one more rest =
        ap (unpack_lists f to prev (suc (length ls)) i) (append_assoc front bytes rest)
        ∙ >>=-some (unpack_list f to prev i) _ _ (shown l) _ (one (bytes ++ rest))
        ∙ >>=-some (unpack_lists f to prev (length ls) (i + 1)) _ _ (map shown ls) rest (more rest)

    same_next :
        hash_draw_list h l ≡ x
        → prev_at prev i ≡ some (shown l)
        → Sends (i + 1) ls (done ++ x ∷ []) hs prev
        → Sends i (l ∷ ls) done (x ∷ hs) prev
    unfolding pack_lists
    same_next same there s = record {
      bytes = put_sizes 0 0 0 ++ s.bytes;
      hashes = x ∷ s.hashes;
      lists = l ∷ s.lists;
      packs = pack_same f h from i x l ls done hs s.bytes s.hashes s.lists place same s.packs;
      hashed = (sym same, s.hashed);
      long = omega (arith, s.long);
      reads =
          read_next (put_sizes 0 0 0) s.bytes (λ rest. unpack_list-same prev i (shown l) rest there)
            s.reads;
    }

    full_next :
        hash_draw_list h l ≢ x
        → IsShowable l
        → Sends (i + 1) ls (done ++ hash_draw_list h l ∷ []) hs prev
        → Sends i (l ∷ ls) done (x ∷ hs) prev
    unfolding pack_lists
    full_next other good s = record {
      bytes = put_list f from l ++ s.bytes;
      hashes = hash_draw_list h l ∷ s.hashes;
      lists = clamp_list f from l ∷ s.lists;
      packs = pack_full f h from i x l ls done hs s.bytes s.hashes s.lists place other s.packs;
      hashed = (refl, s.hashed);
      long = omega (arith, s.long);
      reads =
          read_next (put_list f from l) s.bytes (λ rest. unpack_list-full prev i l rest good)
            s.reads;
    }

  at_next : (i x : ℕ) (done : List ℕ) → i ≡ length done → i + 1 ≡ length (done ++ x ∷ [])
  at_next i x done e = omega (arith, length-append done (x ∷ []))

  -- The lists from a place on, by the old lists from there on.
  pub sends :
      (os ls : List DrawList) (hs done : List ℕ) (i : ℕ) (prev : Option (List DrawList))
      → i ≡ length done
      → length ls ≤ length hs
      → AreHashes os hs
      → Follows os ls
      → Has prev i os
      → All IsShowable ls
      → Sends i ls done hs prev
  unfolding pack_lists unpack_lists
  sends [] [] hs done i prev place room old new has good = record {
    bytes = [];
    hashes = hs;
    lists = [];
    packs = refl;
    hashed = old;
    long = refl;
    reads = λ rest. refl;
  }
  sends (o ∷ os) [] hs done i prev place room old new has good = elim new [ ]
  sends os (l ∷ ls) [] done i prev place room old new has good = absurd (omega arith)
  sends [] (l ∷ ls) (x ∷ hs) done i prev place room old new has good =
      full_next i x l ls done hs prev place (λ e. new.0 (e ∙ old.0)) good.0
        (sends [] ls hs (done ++ hash_draw_list h l ∷ []) (i + 1) prev (at_next i _ done place)
          (omega arith) old.1 new.1 tt good.1)
  sends (o ∷ os) (l ∷ ls) (x ∷ hs) done i prev place room old new has good =
      elim (Bool-cases (hash_draw_list h l == x)) [
        | inl equal ↦
            let same : hash_draw_list h l ≡ x = ground arith in
            same_next i x l ls done hs prev place same
              (has.0 ∙ ap some (sym (new.0 (same ∙ old.0))))
              (sends os ls hs (done ++ x ∷ []) (i + 1) prev (at_next i x done place) (omega arith)
                old.1 new.1 has.1 good.1)
        | inr differs ↦
            let other : hash_draw_list h l ≢ x = λ e. ground arith in
            full_next i x l ls done hs prev place other good.0 (
              sends os ls hs (done ++ hash_draw_list h l ∷ []) (i + 1) prev (at_next i _ done place)
                (omega arith) old.1 new.1 has.1 good.1)
      ]
