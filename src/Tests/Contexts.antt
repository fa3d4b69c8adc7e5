-- ===== src/Tests/Contexts.antt =====
-- Tests of the contexts (rir/src/runtime/Context.h and Context.cpp).
use rir.Prelude.{ℕ, ◌<◌, ◌≡◌, ◌↔◌, ◌⊎◌, refl, true, false, some, arith}
use rir.Prelude.Bits.{bit, bit-two_pow, popcount}
use rir.EnumSet
use rir.Context.{
  Context, IsContext, no_explicitly_missing_args, not_too_many_arguments, smaller, equal, less,
  join, meet, to_i, of_i, is_improving, set_specialization_level,
}
use rir.Context.Smaller.{IsSmaller, smaller_iff, smaller-IsSmaller, IsSmaller-refl}
use rir.Context.Lattice.{meet_least, join_greatest}
use rir.Context.Order.{IsDispatchable, keys, less-eq-lex, less_strict_total, less_not_asymmetric}
use rir.Context.Improving.{is_improving_blind}
use rir.Prelude.Lex.{lex}

-- The minimal context, and one with an eager first argument and no explicitly missing one.
abbrev pub plain : Context
plain = record { flags = 6; type_flags = 0; missing = 1 }

abbrev pub rich : Context
rich = record { flags = 7; type_flags = 1; missing = 1 }

pub smaller_run :
    (smaller rich plain ≡ true) × (smaller plain rich ≡ false) × (less rich plain ≡ true)
unfolding smaller less equal EnumSet.includes EnumSet.contains EnumSet.count popcount
smaller_run = (refl, refl, refl)

level_run : set_specialization_level rich 1 ≡ record { flags = 6; type_flags = 1; missing = 0 }
unfolding set_specialization_level rir.Context.all_args_flags EnumSet.intersection EnumSet.union
    EnumSet.set
level_run = refl

pub plain-IsDispatchable : IsDispatchable plain
plain-IsDispatchable = record { valid = omega arith; bounded_args = unfold bit in refl }

pub rich-IsDispatchable : IsDispatchable rich
rich-IsDispatchable = record { valid = omega arith; bounded_args = unfold bit in refl }

rich-IsSmaller : IsSmaller rich plain
rich-IsSmaller = smaller-IsSmaller rich plain smaller_run.0

smaller_iff_example : (smaller rich plain ≡ true) ↔ IsSmaller rich plain
smaller_iff_example = smaller_iff rich plain

meet_least_example :
    IsSmaller rich (meet rich plain)
    × IsSmaller plain (meet rich plain)
    × IsSmaller (meet rich plain) plain
meet_least_example =
    meet_least rich plain plain plain-IsDispatchable.valid plain-IsDispatchable.bounded_args
      rich-IsSmaller (IsSmaller-refl plain)

join_run : join rich plain ≡ some rich
unfolding join EnumSet.union EnumSet.contains
join_run = refl

join_greatest_example :
    (c : Context) × (join rich plain ≡ some c)
    × IsSmaller rich c
    × IsSmaller c rich
    × IsSmaller c plain
join_greatest_example =
    join_greatest rich plain rich rich-IsDispatchable.bounded_args plain-IsDispatchable.bounded_args
      (IsSmaller-refl rich) rich-IsSmaller

less-eq-lex_example : less rich plain ≡ lex (keys rich) (keys plain)
less-eq-lex_example = less-eq-lex rich plain rich-IsDispatchable plain-IsDispatchable

less_strict_total_example :
    (less rich rich ≡ false)
    × (less rich plain ≡ true → less plain rich ≡ true → less rich rich ≡ true)
    × ((rich ≡ plain) ⊎ ((less rich plain ≡ true) ⊎ (less plain rich ≡ true)))
less_strict_total_example =
    less_strict_total rich plain rich rich-IsDispatchable plain-IsDispatchable rich-IsDispatchable

-- Two contexts without flags, for calls with one and with two missing arguments.
abbrev one_missing : Context
one_missing = record { flags = 0; type_flags = 0; missing = 1 }

abbrev two_missing : Context
two_missing = record { flags = 0; type_flags = 0; missing = 2 }

less_not_asymmetric_example :
    (less one_missing two_missing ≡ true) × (less two_missing one_missing ≡ true)
unfolding bit
less_not_asymmetric_example =
    less_not_asymmetric one_missing two_missing refl refl (omega arith) refl refl

-- The first argument is known to be a simple real.
abbrev real_arg : Context
real_arg = record { flags = 6; type_flags = 16777216; missing = 1 }

real_bits : (i : ℕ) → i < 24 → bit 16777216 i ≡ true → bit 0 i ≡ true
real_bits i h p = absurd (ground (arith, bit-two_pow 24 i))

is_improving_blind_example : is_improving real_arg plain false false ≡ 0
is_improving_blind_example =
    is_improving_blind real_arg plain false false (omega arith) (omega arith) refl (λ i p. p)
      real_bits
