-- ===== src/Viewer/Input/Changes.antt =====
-- Which changes of the clipboard `updateNetworkInput` notices, by the hash of client/Include/pe/Hash.h. A
-- `char` has a sign on the machines that the viewer runs on.
use nxdb.Common.{
  ℕ, ◌%◌, ◌^◌, ◌≤◌, ◌<◌, ◌≡◌, ◌≢◌, ◌⊎◌, sym, ap, ◌∙◌, arith, List, [], ◌∷◌, ◌++◌, All, some, length,
  length-append,
}
use nxdb.Wire.{set_clipboard_text}
use nxdb.Hash.{signed_char, hash_murmur, hash_text}
use nxdb.Hash.Change.{one_block_changed}
use nxdb.Hash.Signed.{hidden_bytes}
use nxdb.Viewer.Input.{send_clipboard}

-- `hashMurmur` of the viewer.
abbrev pub viewer_hash : List ℕ → ℕ
viewer_hash text = hash_text signed_char text 0

hash_text-short :
    (text : List ℕ)
    → length text < 2 ^ 32
    → viewer_hash text ≡ hash_murmur signed_char text (length text) 0
unfolding hash_text
hash_text-short text short =
    let size : length text % 2 ^ 32 ≡ length text = omega arith in
    ap (λ n. hash_murmur signed_char text n 0) size

-- A text of less than 512 characters of ASCII that takes the place of one of the same length, from
-- which it differs within one block of four, or behind the last of them, is sent.
pub change_sent :
    (pre xs ys post : List ℕ)
    → length pre % 4 ≡ 0
    → length xs ≡ length ys
    → (length xs ≡ 4) ⊎ ((length xs < 4) × (post ≡ []))
    → length (pre ++ (ys ++ post)) < 512
    → All (λ b. b < 128) pre
    → All (λ b. b < 128) xs
    → All (λ b. b < 128) ys
    → All (λ b. b < 128) post
    → xs ≢ ys
    → send_clipboard viewer_hash (viewer_hash (pre ++ (xs ++ post))) (some (pre ++ (ys ++ post)))
      ≡ some (record { type = set_clipboard_text; body = (pre ++ (ys ++ post)) ++ 0 ∷ [] } ∷ [])
unfolding send_clipboard
change_sent pre xs ys post whole same place short hpre hxs hys hpost differ =
    let sizes : length (pre ++ (xs ++ post)) ≡ length (pre ++ (ys ++ post)) = omega (
      arith,
      length-append {0} pre (xs ++ post),
      length-append {0} pre (ys ++ post),
      length-append {0} xs post,
      length-append {0} ys post,
    ) in
    let old = hash_text-short (pre ++ (xs ++ post)) (omega arith) in
    let new = hash_text-short (pre ++ (ys ++ post)) (omega arith) in
    let noticed : viewer_hash (pre ++ (ys ++ post)) ≢ viewer_hash (pre ++ (xs ++ post)) = λ e.
      one_block_changed signed_char pre xs ys post 0 (omega arith) whole same place (omega arith)
        hpre hxs hys hpost differ (sym old ∙ (sym e ∙ new)) in
    ground (arith, noticed)

-- A text that takes the place of another, from which it differs only in the three bytes that follow a
-- byte from 128 on at the start of a block of four, is not sent.
pub change_missed :
    (pre post : List ℕ) (a b c d b' c' d' : ℕ)
    → length pre % 4 ≡ 0
    → 128 ≤ a
    → a < 256
    → length (pre ++ a ∷ b ∷ c ∷ d ∷ post) < 2 ^ 32
    → send_clipboard viewer_hash
        (viewer_hash (pre ++ a ∷ b ∷ c ∷ d ∷ post))
        (some (pre ++ a ∷ b' ∷ c' ∷ d' ∷ post))
      ≡ some []
unfolding send_clipboard
change_missed pre post a b c d b' c' d' whole negative small short =
    let size = length-append {0} pre (a ∷ b ∷ c ∷ d ∷ post) in
    let size' = length-append {0} pre (a ∷ b' ∷ c' ∷ d' ∷ post) in
    let same : viewer_hash (pre ++ a ∷ b' ∷ c' ∷ d' ∷ post)
        ≡ viewer_hash (pre ++ a ∷ b ∷ c ∷ d ∷ post) =
      hash_text-short (pre ++ a ∷ b' ∷ c' ∷ d' ∷ post) (omega arith)
      ∙ sym (hidden_bytes pre post a b c d b' c' d' whole negative small 0)
      ∙ sym (hash_text-short (pre ++ a ∷ b ∷ c ∷ d ∷ post) short) in
    ground (arith, same)
