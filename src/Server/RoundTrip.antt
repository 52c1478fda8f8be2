-- ===== src/Server/RoundTrip.antt =====
-- The reading of a packet against `sendPacketImpl`, which writes it.
use nxdb.Common.{
  ℕ, ◌+◌, ◌^◌, ◌≤◌, ◌<◌, ◌≡◌, refl, sym, ap, ◌∙◌, List, ◌++◌, none, some, arith, length, take, drop,
  get_u32, put_u32, length-append, take-append, drop-append, take_all, drop-append_ge,
  take-append-drop, leb, le→leb, leb→le, Bool-cases, ◌⊎◌, inl, inr, not_leb→lt, lt→not_leb,
}
use nxdb.Wire.{Packet, to_code, header, encode, IsNamed, of_code-to_code, to_code-lt, length-header}
use nxdb.Server.Buffer.{get_u32-append}
use nxdb.Server.Framing.{next_packet}

-- A packet whose header can say what it is.
pub record IsSendable (p : Packet) : Type 0 where
  pub named : IsNamed p.type
  pub fits : length p.body < 2 ^ 32

pub length-encode : (p : Packet) → length (encode p) ≡ length p.body + 8
unfolding encode
length-encode p = omega (
  arith,
  length-append (header p.type (length p.body)) p.body,
  length-header p.type (length p.body),
)

module _ (p : Packet) (s : IsSendable p) (rest : List ℕ) where
  pub get_size : get_u32 (encode p ++ rest) 0 ≡ length p.body
  unfolding encode header get_u32 put_u32
  get_size = let h = s.fits in omega arith

  get_type : get_u32 (encode p ++ rest) 4 ≡ to_code p.type
  unfolding encode header get_u32 put_u32
  get_type = omega (arith, to_code-lt p.type s.named)

  drop_header : drop 8 (encode p ++ rest) ≡ p.body ++ rest
  unfolding encode header put_u32
  drop_header = refl

  -- Reading what `sendPacketImpl` wrote gives the packet back and leaves what follows it.
  next_packet-encode : next_packet (encode p ++ rest) ≡ some (p, rest)
  unfolding next_packet
  next_packet-encode =
      rw
        (
          le→leb 8 (length (encode p ++ rest)) (omega (arith, long)),
          le→leb _ _ enough,
          get_size,
          get_type,
          of_code-to_code p.type s.named,
          drop_header,
          take-append (length p.body) p.body rest (omega arith),
          take_all (length p.body) p.body (omega arith),
          drop-append_ge (length p.body + 8) 0 (encode p) rest (omega (arith, length-encode p)),
        )
        refl
    where
      long : length (encode p ++ rest) ≡ length p.body + 8 + length rest
      long = omega (arith, length-append (encode p) rest, length-encode p)

      enough : get_u32 (encode p ++ rest) 0 + 8 ≤ length (encode p ++ rest)
      enough = omega (arith, long, get_size)

too_short :
    (p : Packet) (xs ys zs : List ℕ)
    → IsSendable p
    → xs ++ ys ≡ encode p ++ zs
    → length xs < length (encode p)
    → next_packet xs ≡ none
unfolding next_packet
too_short p xs ys zs s e short = elim (Bool-cases (leb 8 (length xs))) [
  | inl full ↦
      let size : get_u32 xs 0 ≡ length p.body =
        sym (get_u32-append xs ys 0 (omega (arith, leb→le 8 (length xs) full)))
        ∙ ap (λ b. get_u32 b 0) e
        ∙ get_size p s zs in
      rw (full, lt→not_leb (get_u32 xs 0 + 8) (length xs) (omega (arith, size, length-encode p)))
  | inr few ↦ rw few
]

-- What has come in of a stream of packets: all of the first, or too little to read it.
pub split_stream :
    (p : Packet) (xs ys zs : List ℕ)
    → IsSendable p
    → xs ++ ys ≡ encode p ++ zs
    → (length xs < length (encode p)) × (next_packet xs ≡ none)
      ⊎ ((rest : List ℕ) × (next_packet xs ≡ some (p, rest)) × (rest ++ ys ≡ zs))
split_stream p xs ys zs s e = elim (Bool-cases (leb (length (encode p)) (length xs))) [
  | inl whole ↦
      let in_xs = leb→le (length (encode p)) (length xs) whole in
      let front : take (length (encode p)) xs ≡ encode p =
        sym (take-append (length (encode p)) xs ys in_xs)
        ∙ ap (take (length (encode p))) e
        ∙ take-append (length (encode p)) (encode p) zs (omega arith)
        ∙ take_all (length (encode p)) (encode p) (omega arith) in
      let rest = drop (length (encode p)) xs in
      let joined : xs ≡ encode p ++ rest =
        sym (take-append-drop (length (encode p)) xs) ∙ ap (λ b. b ++ rest) front in
      inr (
        rest,
        ap next_packet joined ∙ next_packet-encode p s rest,
        sym (drop-append (length (encode p)) xs ys in_xs)
            ∙ ap (drop (length (encode p))) e
            ∙ drop-append_ge (length (encode p)) 0 (encode p) zs (omega arith),
      )
  | inr partial ↦
      let short = not_leb→lt (length (encode p)) (length xs) partial in
      inl (short, too_short p xs ys zs s e short)
]
