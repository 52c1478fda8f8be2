-- ===== src/Frame/Rate/Average.antt =====
-- What the measured difference is after ten frames.
use nxdb.Common.{
  ℕ, ◌+◌, ◌-◌, ◌/◌, ◌^◌, ◌≤◌, ◌<◌, ◌≡◌, refl, sym, ap, ◌∙◌, List, [], ◌∷◌, ◌++◌, arith, length,
  take, drop, write_at, length-append, length-take, length-drop, take-append-drop, append-nil,
  append_assoc,
}
use nxdb.MemoryMap.{word}
use nxdb.Frame.Rate.{Meter, slot, measure, measure_all, add_diffs, avg_diff}

total : List ℕ → ℕ
total [] = 0
total (g ∷ gaps) = g + total gaps

-- The ticks of frames with these gaps, after a frame at `last`.
ticks_from : ℕ → List ℕ → List ℕ
ticks_from last [] = []
ticks_from last (g ∷ gaps) = (last + g) ∷ ticks_from (last + g) gaps

total-append : (gs hs : List ℕ) → total (gs ++ hs) ≡ total gs + total hs
unfolding total
total-append [] hs = omega arith
total-append (g ∷ gs) hs = omega (arith, total-append gs hs)

ticks_from-append :
    (last : ℕ) (gs hs : List ℕ)
    → ticks_from last (gs ++ hs) ≡ ticks_from last gs ++ ticks_from (last + total gs) hs
unfolding ticks_from total
ticks_from-append last [] hs = ap (λ t. ticks_from t hs) (omega arith)
ticks_from-append last (g ∷ gs) hs = ap (◌∷◌ (last + g)) (
    ticks_from-append (last + g) gs hs
    ∙ ap (λ t. ticks_from (last + g) gs ++ ticks_from t hs) (omega arith))

measure_all-append :
    (ts us : List ℕ) (m : Meter) → measure_all (ts ++ us) m ≡ measure_all us (measure_all ts m)
unfolding measure_all
measure_all-append [] us m = refl
measure_all-append (t ∷ ts) us m = measure_all-append ts us (measure t m)

add_diffs-total :
    (ds : List ℕ) (sum : ℕ) → sum + total ds < 2 ^ 64 → add_diffs sum ds ≡ sum + total ds
unfolding add_diffs total
add_diffs-total [] sum h = omega arith
add_diffs-total (d ∷ ds) sum h =
    let small : word (sum + d) ≡ sum + d = omega arith in
    ap (λ n. add_diffs n ds) small ∙ (add_diffs-total ds (sum + d) (omega arith) ∙ omega arith)

write_at-middle :
    (pre : List ℕ) (x g : ℕ) (post : List ℕ)
    → write_at (pre ++ x ∷ post) (length pre) (g ∷ []) ≡ (pre ++ g ∷ []) ++ post
unfolding write_at
write_at-middle [] x g post = refl
write_at-middle (p ∷ pre) x g post = grind (arith, write_at-middle pre x g post)

-- What frames with these gaps leave behind that do not go over the end of the array.
record Filled (m : Meter) (diffs : List ℕ) (count last : ℕ) : Type 0 where
  filled_diffs : m.diffs ≡ diffs
  filled_slot : slot m.count ≡ slot count
  filled_tick : m.last_tick ≡ last

slot-lt : (n : ℕ) → n < 10 → slot n ≡ n
unfolding slot
slot-lt n h = ground arith

slot-10 : slot 10 ≡ slot 0
unfolding slot
slot-10 = refl

slot-bound : (n : ℕ) → slot n < 10
unfolding slot
slot-bound n = ground arith

fill :
    (gs pre mid post : List ℕ) (m : Meter) (last : ℕ)
    → Filled m (pre ++ (mid ++ post)) (length pre) last
    → length mid ≡ length gs
    → length pre + length gs ≤ 10
    → last + total gs < 2 ^ 64
    → Filled
        (measure_all (ticks_from last gs) m)
        (pre ++ (gs ++ post))
        (length pre + length gs)
        (last + total gs)
unfolding measure_all ticks_from total measure
fill [] pre [] post m last f same within bound = record {
  filled_diffs = f.filled_diffs;
  filled_slot = f.filled_slot ∙ ap slot (omega arith);
  filled_tick = f.filled_tick ∙ omega arith;
}
fill [] pre (x ∷ mid) post m last f same within bound = absurd (omega (arith, same))
fill (g ∷ gs) pre [] post m last f same within bound = absurd (omega (arith, same))
fill (g ∷ gs) pre (x ∷ mid) post m last f same within bound =
    let here : slot m.count ≡ length pre = f.filled_slot ∙ slot-lt (length pre) (omega arith) in
    let tick = f.filled_tick in
    let gap : word (last + g + 2 ^ 64 - m.last_tick) ≡ g = omega arith in
    let longer : length (pre ++ g ∷ []) ≡ length pre + 1 = length-append pre (g ∷ []) in
    let next : Filled (measure (last + g) m) ((pre ++ g ∷ []) ++ (mid ++ post))
        (length (pre ++ g ∷ [])) (last + g) =
      record {
        filled_diffs = rw (f.filled_diffs, here, gap) (write_at-middle pre x g (mid ++ post));
        filled_slot = ap slot (ap (λ n. n + 1) here ∙ sym longer);
        filled_tick = refl;
      } in
    let rest =
      fill gs (pre ++ g ∷ []) mid post (measure (last + g) m) (last + g) next (omega arith)
        (omega arith) (omega arith) in
    record {
      filled_diffs = rest.filled_diffs ∙ append_assoc pre (g ∷ []) (gs ++ post);
      filled_slot = rest.filled_slot ∙ ap slot (omega arith);
      filled_tick = rest.filled_tick ∙ omega arith;
    }

-- Ten frames fill the array from the slot on and, over its end, up to the slot.
filled_ring :
    (m : Meter) (gaps : List ℕ)
    → length m.diffs ≡ 10
    → length gaps ≡ 10
    → m.last_tick + total gaps < 2 ^ 64
    → (measure_all (ticks_from m.last_tick gaps) m).diffs
      ≡ drop (10 - slot m.count) gaps ++ (take (10 - slot m.count) gaps ++ [])
filled_ring m gaps ten ten' bound =
    let i = slot m.count in
    let i_lt : i < 10 = slot-bound m.count in
    let front = take (10 - i) gaps in
    let back = drop (10 - i) gaps in
    let whole : front ++ back ≡ gaps = take-append-drop (10 - i) gaps in
    let sums : total front + total back ≡ total gaps =
      sym (total-append front back) ∙ ap total whole in
    let front_length : length front ≡ 10 - i = length-take (10 - i) gaps ∙ omega arith in
    let back_length : length back ≡ i = length-drop (10 - i) gaps ∙ omega arith in
    let pre_length : length (take i m.diffs) ≡ i = length-take i m.diffs ∙ omega arith in
    let mid_length : length (drop i m.diffs) ≡ 10 - i = length-drop i m.diffs ∙ omega arith in
    let first : Filled m (take i m.diffs ++ (drop i m.diffs ++ [])) (length (take i m.diffs))
        m.last_tick =
      record {
        filled_diffs = sym (
            ap (λ ds. take i m.diffs ++ ds) (append-nil (drop i m.diffs))
            ∙ take-append-drop i m.diffs);
        filled_slot = sym (ap slot pre_length ∙ slot-lt i i_lt);
        filled_tick = refl;
      } in
    let half =
      fill front (take i m.diffs) (drop i m.diffs) [] m m.last_tick first (omega arith)
        (omega arith) (omega arith) in
    let wrapped : slot (length (take i m.diffs) + length front) ≡ slot 0 =
      (let full : length (take i m.diffs) + length front ≡ 10 = omega arith in ap slot full)
      ∙ slot-10 in
    let second : Filled (measure_all (ticks_from m.last_tick front) m)
        ([] ++ (take i m.diffs ++ (front ++ []))) 0 (m.last_tick + total front) =
      record {
        filled_diffs = half.filled_diffs;
        filled_slot = half.filled_slot ∙ wrapped;
        filled_tick = half.filled_tick;
      } in
    let done =
      fill back [] (take i m.diffs) (front ++ []) (measure_all (ticks_from m.last_tick front) m)
        (m.last_tick + total front) second (omega arith) (omega arith) (omega arith) in
    ap (λ gs. (measure_all (ticks_from m.last_tick gs) m).diffs) (sym whole)
    ∙ (ap (λ ts. (measure_all ts m).diffs) (ticks_from-append m.last_tick front back)
        ∙ (ap Meter.diffs (
              measure_all-append (ticks_from m.last_tick front)
                (ticks_from (m.last_tick + total front) back) m)
            ∙ done.filled_diffs))

-- After ten frames, in the order of their ticks and before the end of the ticks, the measured
-- difference is a tenth of the time that they took, wherever in the array the first one was written.
avg_diff_lem :
    (m : Meter) (gaps : List ℕ)
    → length m.diffs ≡ 10
    → length gaps ≡ 10
    → m.last_tick + total gaps < 2 ^ 64
    → avg_diff (measure_all (ticks_from m.last_tick gaps) m) ≡ total gaps / 10
unfolding avg_diff
avg_diff_lem m gaps ten ten' bound =
    let i = slot m.count in
    let front = take (10 - i) gaps in
    let back = drop (10 - i) gaps in
    let sums : total (back ++ (front ++ [])) ≡ total gaps =
      let parts = total-append front back in
      let other = total-append back (front ++ []) in
      let plain : total (front ++ []) ≡ total front = ap total (append-nil front) in
      let whole : total (front ++ back) ≡ total gaps = ap total (take-append-drop (10 - i) gaps) in
      omega arith in
    ap (λ ds. add_diffs 0 ds / 10) (filled_ring m gaps ten ten' bound)
    ∙ ap (λ n. n / 10) (add_diffs-total (back ++ (front ++ [])) 0 (omega arith) ∙ omega arith)
