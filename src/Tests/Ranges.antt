-- ===== src/Tests/Ranges.antt =====
-- Ranges merged, and narrowed on a branch. The int n is 2^31 + n.
use rir.Prelude.{
  ℕ, ◌+◌, ◌<◌, ◌≡◌, refl, Bool, true, false, Option, none, some, [], ◌∷◌, arith, ◌==◌, eq_of_some,
  if◌then◌else◌,
}
use rir.Prelude.Eq.{nat_eq}
use rir.SmallMap.Scan.{or_else}
use rir.Range.{
  Range, RangeAnalysisState, get, merge, covers, first_cover, pos_range, one_range, zero_range,
  above0_range, int_zero, rhs_range, binop_range, sub_int, add_int,
}
use rir.Range.Comparison.{lt, lte}
use rir.Range.Cover.{IsWithin, Known, range_of, merge_lem}
use rir.Range.Cover.Known.{above0_known, zero_known}
use rir.Range.Branch.{rhs_excludes_zero}
use rir.Range.Transfer.{get_range, apply_cond}
use rir.Range.Sound.{Claims, Models, apply_cond_sound}

-- The difference of two ints from 0 on is taken to be from 0 on.
sub_run : binop_range sub_int pos_range pos_range ≡ pos_range
unfolding binop_range sub_int get first_cover covers
sub_run = refl

-- The sum of 1 and an int from 1 on is taken to be 0, when the overflow wraps.
add_run : binop_range add_int one_range above0_range ≡ zero_range
unfolding binop_range add_int get first_cover covers
add_run = refl

abbrev int_two : ℕ
int_two = int_zero + 2

merge_lem_example :
    let m = merge (range_of zero_known) (range_of above0_known) in
    IsWithin (range_of zero_known).begin (range_of zero_known).end m
    × IsWithin (range_of above0_known).begin (range_of above0_known).end m
    × ((t : Known)
        → IsWithin (range_of zero_known).begin (range_of zero_known).end (range_of t)
        → IsWithin (range_of above0_known).begin (range_of above0_known).end (range_of t)
        → IsWithin m.begin m.end (range_of t))
merge_lem_example = merge_lem zero_known above0_known

rhs_excludes_zero_example : int_zero < (rhs_range lte int_zero int_zero int_zero int_two).begin
rhs_excludes_zero_example = rhs_excludes_zero int_zero int_two (omega arith)

abbrev left : RangeAnalysisState
left = record { range = (1, zero_range) ∷ (2, pos_range) ∷ []; seen = 5 ∷ [] }

abbrev right : RangeAnalysisState
right = record { range = (1, one_range) ∷ (3, one_range) ∷ []; seen = 5 ∷ [] }

-- A run in which the value 2 is 1 and every other one is 0, and what is known of it.
abbrev run : ℕ → ℕ
run v = if 2 == v then int_zero + 1 else int_zero

abbrev constants : ℕ → Option Range
constants v = none

abbrev before : RangeAnalysisState
before = record { range = (2, pos_range) ∷ []; seen = [] }

known_or_not :
    (b : Bool) (r : Range)
    → or_else (if b then some pos_range else none) none ≡ some r
    → Claims r (if b then int_zero + 1 else int_zero)
known_or_not true r h = rw⁻¹ (eq_of_some h) ((omega arith, omega arith), omega arith)
known_or_not false r h = absurd (cc)

before-Models : Models constants run before
unfolding get_range
before-Models v r h = known_or_not (2 == v) r h

apply_cond_sound_example : Models constants run (apply_cond constants lt false 3 2 true before).1
apply_cond_sound_example =
    apply_cond_sound constants run lt false 3 2 before refl before-Models (omega arith)
      (omega arith) (omega arith)
