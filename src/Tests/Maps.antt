-- ===== src/Tests/Maps.antt =====
-- Maps below and above the size at which the index is built.
use rir.Prelude.{ℕ, zero, suc, ◌+◌, ◌≡◌, refl, true, false}
use rir.Prelude.Eq.{nat_eq}
use rir.SmallMap.{SmallMap, scan, new, check_size, push, locate, set, at}
use rir.SmallMap.Laws.{IsMap, new-IsMap}
use rir.SmallMap.Contract.{Holds, overridden, set-Holds}

abbrev filled : ℕ → SmallMap ℕ ℕ
filled zero = new
filled (suc n) = set (filled n) n (n + 100)

filled-IsMap : (n : ℕ) → IsMap (filled n)
filled-IsMap zero = new-IsMap
filled-IsMap (suc n) = (set-Holds (filled n) n (n + 100) (filled-IsMap n)).0

filled_big : (filled 9).big ≡ true
unfolding new set check_size push locate scan
filled_big = refl

filled_small : (filled 8).big ≡ false
unfolding new set check_size push locate scan
filled_small = refl

-- The ninth key switches to the index.
set_example : Holds (set (filled 8) 8 7) (overridden (at (filled 8)) 8 7)
set_example = set-Holds (filled 8) 8 7 (filled-IsMap 8)
