-- ===== src/Tests/Sets.antt =====
-- Tests of EnumSet (rir/src/utils/EnumSet.h), over an enum of four values in a byte.
use rir.Prelude.{◌≡◌, refl, not, ◌&&◌, ◌||◌, none, some, [], ◌∷◌, arith, dec_lt}
use rir.Prelude.Bits.{bit_above, complement}
use rir.EnumSet
use rir.EnumSet.{Enum, IsEnum}
use rir.EnumSet.Laws.{set_algebra, max_lem, IsWithin, IsMaxBelow}

abbrev four : Enum
four = record { first = 0; last = 3; digits = 8 }

four-IsEnum : IsEnum four
four-IsEnum = omega arith

iterate_run : EnumSet.elements four 13 ≡ 0 ∷ 2 ∷ 3 ∷ []
unfolding EnumSet.elements
iterate_run = refl

negation_run : EnumSet.negation four 5 ≡ 10
unfolding EnumSet.negation complement
negation_run = refl

-- The greatest element of {0, 2, 3} is 3, but `max` finds 2; of {3} it finds nothing.
max_run : (EnumSet.max four 13 ≡ some 2) × (EnumSet.max four 8 ≡ none)
unfolding EnumSet.max
max_run = (refl, refl)

set_algebra_example :
    (EnumSet.contains four (EnumSet.union 5 6) 1
      ≡ (EnumSet.contains four 5 1 || EnumSet.contains four 6 1))
    × (EnumSet.contains four (EnumSet.intersection 5 6) 1
        ≡ (EnumSet.contains four 5 1 && EnumSet.contains four 6 1))
    × (EnumSet.contains four (EnumSet.negation four 5) 1 ≡ not (EnumSet.contains four 5 1))
    × (EnumSet.contains four (EnumSet.difference four 5 6) 1
        ≡ (EnumSet.contains four 5 1 && not (EnumSet.contains four 6 1)))
set_algebra_example =
    set_algebra four four-IsEnum 5 6 1 (omega arith) (omega arith) (omega arith) (omega arith)

five-IsWithin : IsWithin four four-IsEnum 5
five-IsWithin i h = (
  omega arith,
  elim (dec_lt i 4) [
    | yes p ↦ omega arith
    | no p ↦ absurd (cc (h, bit_above 4 5 i (omega arith) (omega arith)))
  ],
)

max_lem_example : IsMaxBelow four four-IsEnum 3 13 (EnumSet.max four 13)
max_lem_example = max_lem four four-IsEnum 13
