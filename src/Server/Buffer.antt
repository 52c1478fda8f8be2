-- ===== src/Server/Buffer.antt =====
-- What stands in the receive buffer: the bytes that have come in and that no packet has used yet.
use nxdb.Common.{
  ℕ, zero, suc, ◌+◌, ◌≤◌, ◌<◌, ◌≡◌, refl, sym, ap, ◌∙◌, List, [], ◌∷◌, ◌++◌, arith, length, take,
  drop, get_or, get_u32, write_at, move_down, length-append, length-take, length-drop,
  take-append-drop, take-append, take-append_ge, take-drop, take_all, take-take,
}

pub get_or-append {ℓ} :
    {A : Type ℓ} (xs ys : List A) (i : ℕ) (d : A)
    → i < length xs
    → get_or (xs ++ ys) i d ≡ get_or xs i d
get_or-append [] ys i d h = absurd (omega arith)
get_or-append (x ∷ xs) ys zero d h = refl
get_or-append (x ∷ xs) ys (suc i) d h = get_or-append xs ys i d (omega arith)

-- A word within the front part is not touched by what follows it.
pub get_u32-append :
    (xs ys : List ℕ) (i : ℕ) → i + 4 ≤ length xs → get_u32 (xs ++ ys) i ≡ get_u32 xs i
unfolding get_u32
get_u32-append xs ys i h = omega (
  arith,
  get_or-append xs ys i 0 (omega arith),
  get_or-append xs ys (i + 1) 0 (omega arith),
  get_or-append xs ys (i + 2) 0 (omega arith),
  get_or-append xs ys (i + 3) 0 (omega arith),
)

pub get_u32-take :
    (m : List ℕ) (n i : ℕ) → n ≤ length m → i + 4 ≤ n → get_u32 m i ≡ get_u32 (take n m) i
get_u32-take m n i fits h =
    ap (λ b. get_u32 b i) (sym (take-append-drop n m))
    ∙ get_u32-append (take n m) (drop n m) i (omega (arith, length-take n m))

module _ (m : List ℕ) (n : ℕ) (fits : n ≤ length m) where
  pub length-front : length (take n m) ≡ n
  length-front = omega (arith, length-take n m)

  pub take-write_at : (bs : List ℕ) → take (n + length bs) (write_at m n bs) ≡ take n m ++ bs
  unfolding write_at
  take-write_at bs =
      take-append_ge (n + length bs) (length bs) (take n m) (bs ++ drop (n + length bs) m)
        (omega (arith, length-front))
      ∙ ap (◌++◌ (take n m))
          (take-append (length bs) bs _ (omega arith) ∙ take_all (length bs) bs (omega arith))

  pub length-write_at :
      (bs : List ℕ) → n + length bs ≤ length m → length (write_at m n bs) ≡ length m
  unfolding write_at
  length-write_at bs h = omega (
    arith,
    length-append (take n m) (bs ++ drop (n + length bs) m),
    length-append bs (drop (n + length bs) m),
    length-drop (n + length bs) m,
    length-front,
  )

  pub take-move_down :
      (from k : ℕ) → from + k ≡ n → take k (move_down m from k) ≡ drop from (take n m)
  unfolding move_down
  take-move_down from k e =
      take-append k (take k (drop from m)) (drop k m)
        (omega (arith, length-take k (drop from m), length-drop from m))
      ∙ take-take k k (drop from m) (omega arith)
      ∙ take-drop k from n m (sym e)

  pub length-move_down : (from k : ℕ) → from + k ≡ n → length (move_down m from k) ≡ length m
  unfolding move_down
  length-move_down from k e = omega (
    arith,
    length-append (take k (drop from m)) (drop k m),
    length-take k (drop from m),
    length-drop from m,
    length-drop k m,
  )

  -- The body of a packet that has come in whole, read from the memory behind the header.
  pub take-drop_front :
      (from k : ℕ) → from + k ≤ n → take k (drop from m) ≡ take k (drop from (take n m))
  take-drop_front from k h =
      take-drop k from (from + k) m refl
      ∙ ap (drop from) (sym (take-take (from + k) n m h))
      ∙ sym (take-drop k from (from + k) (take n m) refl)
