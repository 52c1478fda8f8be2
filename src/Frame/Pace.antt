-- ===== src/Frame/Pace.antt =====
-- How long a round waits for the next frame.
use nxdb.Common.{
  ℕ, ◌+◌, ◌-◌, ◌*◌, ◌/◌, ◌%◌, ◌^◌, ◌≤◌, ◌<◌, ◌≡◌, refl, ◌∙◌, ap, Option, none, some, arith, leb,
  ltb, if◌then◌else◌, Bool-cases, leb→le, not_leb→lt, lt→ltb, inl, inr,
}
use nxdb.MemoryMap.{word}
use nxdb.Frame.{sleep_time}

abbrev sleep_of : ℕ → Option ℕ
sleep_of ns = if ltb ns 1_000_000_000 then some ns else none

-- The ticks that are left of the frame, which wrap around where there are none.
abbrev left : ℕ → ℕ → ℕ
left frame_time diff = word (frame_time + 2 ^ 64 - diff)

ns_early :
    (frame_time diff : ℕ)
    → diff ≤ frame_time
    → frame_time < 19_200_000
    → left frame_time diff * 625 % 2 ^ 64 / 12 ≡ (frame_time - diff) * 625 / 12
ns_early frame_time diff early short = omega arith

ns_late :
    (frame_time diff : ℕ)
    → frame_time < diff
    → frame_time < 19_200_000
    → diff ≤ 2 ^ 54
    → 1_000_000_000 ≤ left frame_time diff * 625 % 2 ^ 64 / 12
ns_late frame_time diff late short bound = omega arith

sleep_of_short :
    (frame_time diff : ℕ)
    → frame_time < 19_200_000
    → sleep_of ((frame_time - diff) * 625 / 12) ≡ some ((frame_time - diff) * 625 / 12)
sleep_of_short frame_time diff short =
    let under : (frame_time - diff) * 625 / 12 < 1_000_000_000 = omega arith in
    rw (lt→ltb _ _ under) refl

sleep_of_long : (ns : ℕ) → 1_000_000_000 ≤ ns → sleep_of ns ≡ none
sleep_of_long ns over = ground arith

-- With a tick of 625 / 12 nanoseconds, computed in 64 bits, and a frame of less than a second: a round that
-- is not longer than the frame is followed by a sleep of the ticks that are left, and one that is
-- longer, by up to 2 ^ 54 ticks, by none.
pub sleep_time_lem :
    (ticks_to_ns : ℕ → ℕ) (frame_time last diff : ℕ)
    → ((t : ℕ) → ticks_to_ns t ≡ t * 625 % 2 ^ 64 / 12)
    → frame_time < 19_200_000
    → last < 2 ^ 64
    → diff ≤ 2 ^ 54
    → sleep_time ticks_to_ns frame_time last (word (last + diff))
      ≡ (if leb diff frame_time then some ((frame_time - diff) * 625 / 12) else none)
unfolding sleep_time
sleep_time_lem ticks_to_ns frame_time last diff law short in_words bound =
    let same : word (word (last + diff) + 2 ^ 64 - last) ≡ diff = omega arith in
    let start : sleep_time ticks_to_ns frame_time last (word (last + diff))
        ≡ sleep_of (ticks_to_ns (left frame_time diff)) =
      rw (sleep_time, same) refl in
    elim (Bool-cases (leb diff frame_time)) [
      | inl early ↦
          let ns : ticks_to_ns (left frame_time diff) ≡ (frame_time - diff) * 625 / 12 =
            law (left frame_time diff) ∙ ns_early frame_time diff (leb→le _ _ early) short in
          start ∙ ap sleep_of ns ∙ rw early (sleep_of_short frame_time diff short)
      | inr late ↦
          let ns = law (left frame_time diff) in
          start
          ∙ ap sleep_of ns
          ∙ rw late (sleep_of_long _ (ns_late frame_time diff (not_leb→lt _ _ late) short bound))
    ]
