-- ===== src/Viewer/Link/Pieces.antt =====
-- The calls that one packet is sent with.
use nxdb.Common.{
  ℕ, zero, suc, ◌+◌, ◌-◌, ◌*◌, ◌≤◌, ◌<◌, ◌≡◌, refl, sym, ap, ◌∙◌, Bool, true, Bool-cases, inl, inr,
  List, [], ◌∷◌, ◌++◌, Option, some, arith, All, ◌==◌, length, take, drop, concat, length-take,
  length-drop, take-append-drop, drop_all,
}
use nxdb.Wire.{Packet, header}
use nxdb.Viewer.Link.{Link, send_size, write_once, send_rest, send_packet}

-- Pieces of a body: none is empty or longer than 0x3000 bytes, they are as few as can be, and together
-- they are the body.
pub record Cuts (pieces : List (List ℕ)) (body : List ℕ) : Type 0 where
  pub whole : concat pieces ≡ body
  pub sizes : All (λ b. (0 < length b) × (length b ≤ 0x3000)) pieces
  pub few : length pieces * 0x3000 < length body + 0x3000

send_size-bounds :
    (left : ℕ)
    → 0 < left
    → (0 < send_size left) × (send_size left ≤ left) × (send_size left ≤ 0x3000)
unfolding send_size
send_size-bounds left some_left = ground arith

drop-drop {κ} : {A : Type κ} (n m : ℕ) (xs : List A) → drop m (drop n xs) ≡ drop (n + m) xs
drop-drop zero m xs = ap (λ k. drop k xs) (omega arith)
drop-drop (suc n) m [] = drop_all m [] (omega arith) ∙ sym (drop_all (suc n + m) [] (omega arith))
drop-drop (suc n) m (x ∷ xs) =
    let shift : suc (n + m) ≡ suc n + m = omega arith in
    drop-drop n m xs ∙ ap (λ k. drop k (x ∷ xs)) shift

Cuts-nil : (rest : List ℕ) → length rest ≡ 0 → Cuts [] rest
Cuts-nil [] h = record { whole = refl; sizes = tt; few = omega arith }
Cuts-nil (b ∷ rest) h = absurd (omega arith)

-- A first piece and the pieces of what is behind it.
Cuts-cons :
    (n : ℕ) (pieces : List (List ℕ)) (rest : List ℕ)
    → 0 < n
    → n ≡ send_size (length rest)
    → 0 < length rest
    → Cuts pieces (drop n rest)
    → Cuts (take n rest ∷ pieces) rest
unfolding send_size
Cuts-cons n pieces rest moves size more c =
    let before = length-take n rest in
    let behind = length-drop n rest in
    record {
      whole = ap (◌++◌ (take n rest)) c.whole ∙ take-append-drop n rest;
      sizes = ((ground arith, ground arith), c.sizes);
      few = ground (arith, c.few);
    }

module _ {ℓ} {K : Type ℓ} (write : List ℕ → K → Bool × K) where
  -- One call after the other.
  unfoldable pub write_all : List (List ℕ) → Link K → Link K
  write_all [] l = l
  write_all (b ∷ bs) l = write_all bs (write_once write b l)

  abbrev pub Sent : List ℕ → Link K → Option (Link K) → Type ℓ
  Sent rest l result =
      (pieces : List (List ℕ)) × Cuts pieces rest × (result ≡ some (write_all pieces l))

  send_rest-Sent :
      (fuel : ℕ) (body rest : List ℕ) (left : ℕ) (l : Link K)
      → left ≤ fuel
      → left ≤ length body
      → drop (length body - left) body ≡ rest
      → Sent rest l (send_rest write fuel body left l)
  unfolding send_rest write_all
  send_rest-Sent zero body rest left l enough inside e =
      let size : length rest ≡ 0 =
        omega (arith, ap length e, length-drop (length body - left) body) in
      let done : (left == 0) ≡ true = ground arith in ([], Cuts-nil rest size, rw done refl)
  send_rest-Sent (suc fuel) body rest left l enough inside e =
      let size : length rest ≡ left =
        omega (arith, ap length e, length-drop (length body - left) body) in
      elim (Bool-cases (left == 0)) [
        | inl done ↦ ([], Cuts-nil rest (ground arith), rw done refl)
        | inr more ↦
            let some_left : 0 < left = ground arith in
            let (moves, less, _) = send_size-bounds left some_left in
            let piece = take (send_size left) (drop (length body - left) body) in
            let behind : drop (length body - (left - send_size left)) body
                ≡ drop (send_size left) rest =
              ap (λ k. drop k body) (omega arith)
              ∙ sym (drop-drop (length body - left) (send_size left) body)
              ∙ ap (drop (send_size left)) e in
            let (pieces, cuts, same) =
              send_rest-Sent fuel body (drop (send_size left) rest) (left - send_size left)
                (write_once write piece l) (omega arith) (omega arith) behind in
            (
              take (send_size left) rest ∷ pieces,
              Cuts-cons (send_size left) pieces rest moves (ap send_size (sym size)) (omega arith)
                  cuts,
              rw more same
                  ∙ ap (λ q. some (write_all pieces (write_once write (take (send_size left) q) l)))
                      e,
            )
      ]

  -- Whatever the socket answers, `sendPacketImpl` comes to its end. It writes the header, and then the
  -- body in pieces: none is empty or longer than 0x3000 bytes, they are as few as can be, and together
  -- they are the body.
  pub send_packet_lem :
      (p : Packet) (l : Link K)
      → (pieces : List (List ℕ)) × Cuts pieces p.body
        × (send_packet write p l ≡ some (write_all (header p.type (length p.body) ∷ pieces) l))
  unfolding send_packet write_all
  send_packet_lem p l =
      let start : drop (length p.body - length p.body) p.body ≡ p.body =
        let none_before : length p.body - length p.body ≡ 0 = omega arith in
        ap (λ k. drop k p.body) none_before in
      send_rest-Sent (length p.body) p.body p.body (length p.body)
        (write_once write (header p.type (length p.body)) l) (omega arith) (omega arith) start
