-- ===== src/Frame/Rate.antt =====
-- sysmodule/source/nxdb/ImGuiLoop.cpp: how `render` measures the ticks between the frames that it sends.
-- The quotient for the log, which is commented out, is left out.
pub mod Average
mod Examples
use nxdb.Common.{ℕ, ◌+◌, ◌-◌, ◌/◌, ◌^◌, List, [], ◌∷◌, leb, if◌then◌else◌, write_at}
use nxdb.MemoryMap.{word}

-- The statics of the measurement.
pub record Meter : Type 0 where
  pub diffs : List ℕ
  pub count : ℕ
  pub last_tick : ℕ

-- Where the next difference goes.
unfoldable pub slot : ℕ → ℕ
slot count = if leb 10 count then 0 else count

-- A frame at the tick `now`.
unfoldable pub measure : ℕ → Meter → Meter
measure now m = record {
  diffs = write_at m.diffs (slot m.count) (word (now + 2 ^ 64 - m.last_tick) ∷ []);
  count = slot m.count + 1;
  last_tick = now;
}

-- Frames at these ticks.
unfoldable pub measure_all : List ℕ → Meter → Meter
measure_all [] m = m
measure_all (now ∷ ticks) m = measure_all ticks (measure now m)

-- The loop over the differences, from a sum on.
unfoldable pub add_diffs : ℕ → List ℕ → ℕ
add_diffs sum [] = sum
add_diffs sum (d ∷ ds) = add_diffs (word (sum + d)) ds

-- `avgDiff`.
unfoldable pub avg_diff : Meter → ℕ
avg_diff m = add_diffs 0 m.diffs / 10
