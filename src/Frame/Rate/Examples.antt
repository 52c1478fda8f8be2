-- ===== src/Frame/Rate/Examples.antt =====
-- Tests of the measurement.
use nxdb.Common.{◌≡◌, refl, List, [], ◌∷◌, ℕ, write_at}
use nxdb.Frame.Rate.{Meter, slot, measure}

abbrev old : List ℕ
old = 9 ∷ 9 ∷ 9 ∷ 9 ∷ 9 ∷ 9 ∷ 9 ∷ 9 ∷ 9 ∷ 9 ∷ []

abbrev meter : Meter
meter = record { diffs = old; count = 7; last_tick = 100 }

-- The array is full, so the next difference is its first.
from_the_start :
    measure 103 (record meter { count = 10 })
    ≡ record { diffs = 3 ∷ 9 ∷ 9 ∷ 9 ∷ 9 ∷ 9 ∷ 9 ∷ 9 ∷ 9 ∷ 9 ∷ []; count = 1; last_tick = 103 }
unfolding measure slot write_at
from_the_start = refl
