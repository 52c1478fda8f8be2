-- ===== src/Frame/Settling.antt =====
-- Frames after each other: when a second frame is sent.
use nxdb.Common.{
  ℕ, ◌+◌, ◌%◌, ◌^◌, ◌≡◌, refl, sym, ap, ap₂, subst, ◌∙◌, Bool, true, false, not, ◌||◌, Bool-cases,
  inl, inr, List, [], Option, Option-cases, none, some, map, arith, leb, length, ◌==◌,
}
use mathlib.Core.List.{Perm, Permᴰ}
use mathlib.Core.Logic.{∥∥₁_elim}
use nxdb.Wire.{Packet}
use nxdb.Draw.{Floats, Point, DrawList, DrawData}
use nxdb.Draw.Pack.{Hashes, hash_draw_list, pack}
use nxdb.Frame.{Loop, Texture, draw_data_capacity, add_hashes, calc_draw_data_hash, render}

module _ (h : Hashes) where
  add_hashes-Perm :
      {xs ys : List DrawList}
      → Permᴰ xs ys
      → (hash : ℕ) → add_hashes h hash xs ≡ add_hashes h hash ys
  unfolding add_hashes
  add_hashes-Perm Permᴰ.nil hash = refl
  add_hashes-Perm (Permᴰ.cons {a} {b} {l₁} {l₂} e p) hash =
      ap (λ x. add_hashes h ((hash + hash_draw_list h x) % 2 ^ 32) l₁) e
      ∙ add_hashes-Perm p ((hash + hash_draw_list h b) % 2 ^ 32)
  add_hashes-Perm (Permᴰ.swap {a} {b} {l = l} e₁ e₂) hash =
      ap (λ n. add_hashes h n l) (swap_sums (hash_draw_list h a) (hash_draw_list h b))
      ∙ ap₂
          (λ x y.
            add_hashes h (((hash + hash_draw_list h x) % 2 ^ 32 + hash_draw_list h y) % 2 ^ 32) l)
          e₂ e₁
    where
      swap_sums :
          (x y : ℕ) → ((hash + x) % 2 ^ 32 + y) % 2 ^ 32 ≡ ((hash + y) % 2 ^ 32 + x) % 2 ^ 32
      swap_sums x y = omega arith
  add_hashes-Perm (Permᴰ.trans p q) hash = add_hashes-Perm p hash ∙ add_hashes-Perm q hash

  -- The order of the lists does not matter to the hash.
  calc_draw_data_hash-Perm :
      (d e : DrawData) → Perm d.lists e.lists → calc_draw_data_hash h d ≡ calc_draw_data_hash h e
  unfolding calc_draw_data_hash
  calc_draw_data_hash-Perm d e p = ∥∥₁_elim p (hlevel) (λ q. add_hashes-Perm q 0)

or_left : (a b : Bool) → (a || b) ≡ false → a ≡ false
or_left false b e = refl
or_left true b e = e

module _ (f : Floats) (h : Hashes) (size : Point) (t : Texture) where
  -- A loop that has seen draw data with this hash.
  render-settled :
      (d : DrawData) (l : Loop)
      → l.rerender ≡ false
      → l.last_draw_data_hash ≡ calc_draw_data_hash h d
      → render f h size t d l ≡ some (map (λ c. []) l.clients, l)
  unfolding render
  render-settled d l calm seen =
      let quiet : (l.rerender || not (l.last_draw_data_hash == calc_draw_data_hash h d)) ≡ false =
        ground (arith, calm, seen) in
      rw (render, quiet)
        (ap (λ n. some (map (λ c. []) l.clients, record l { last_draw_data_hash = n })) (sym seen))

  -- What a render leaves behind, where it comes to its end.
  Settles : ℕ → Option (List (List Packet) × Loop) → Type 0
  Settles hash none = Unit
  Settles hash (some (sent, l)) = (l.rerender ≡ false) × (l.last_draw_data_hash ≡ hash)

  render-Settles :
      (d : DrawData) (l : Loop) → Settles (calc_draw_data_hash h d) (render f h size t d l)
  unfolding render Settles
  render-Settles d l =
      elim (Bool-cases (l.rerender || not (l.last_draw_data_hash == calc_draw_data_hash h d))) [
        | inl changed ↦ elim (Option-cases (pack f h size d l.packer)) [
          | inl fails ↦ rw (render, changed, fails) tt
          | inr ((bytes, p, d'), packs) ↦
              elim (Bool-cases (leb (length bytes) draw_data_capacity)) [
                | inl fits ↦ rw (render, changed, packs, fits) (refl, refl)
                | inr over ↦ rw (render, changed, packs, over) tt
              ]
        ]
        | inr same ↦ rw (render, same) (or_left l.rerender _ same, refl)
      ]

  -- After a render that writes nothing out of bounds, draw data of the same lists in any order is sent to
  -- nobody, and the state stays as it is.
  pub reordered_unseen :
      (d e : DrawData) (l l' : Loop) (sent : List (List Packet))
      → render f h size t d l ≡ some (sent, l')
      → Perm d.lists e.lists
      → render f h size t e l' ≡ some (map (λ c. []) l'.clients, l')
  unfolding Settles
  reordered_unseen d e l l' sent done p =
      let (calm, seen) = subst (Settles (calc_draw_data_hash h d)) done (render-Settles d l) in
      render-settled e l' calm (seen ∙ calc_draw_data_hash-Perm h d e p)
