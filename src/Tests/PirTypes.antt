-- ===== src/Tests/PirTypes.antt =====
-- Types of values in PIR at concrete inputs.
use rir.Prelude.{ℕ, ◌^◌, ◌≡◌, refl, true, false, not, ◌&&◌, [], ◌∷◌, ◌==◌, arith, if◌then◌else◌}
use rir.Prelude.Bits.{bit, bit-two_pow, complement}
use rir.EnumSet
use rir.Context
use rir.Context.{Context, is_fact}
use rir.TypeFeedback.{ObservedValues, StateBeforeLastForce}
use rir.PirType.{
  PirType, is_super, union, intersection, not_missing, is_void, is_rtype, includes_flag,
  maybe_promise_wrapped, make, ensure_missing_invariant, type_maybe_missing,
}
use rir.PirType.Flags.{IsType}
use rir.PirType.Join.{is_super-union}
use rir.PirType.Meet.{is_super-intersection}
use rir.PirType.Effective.{Effective}
use rir.PirType.Observed.{SexpType, merge_observed, from_context}
use rir.PirType.Observed.SexpType.{intsxp, promsxp, realsxp}
use rir.PirType.Named.{any, not_lazy, not_object}
use rir.PirType.Any.{is_super-any, bit-any}
use rir.PirType.Included.{Included, HasFlags, merge_observed_includes}

-- Scalar integers, maybe NA; lazy reals; integers or the missing value; the expanded dots.
abbrev integers : PirType
integers = record { flags = 640; t = 64 }

abbrev lazy_reals : PirType
lazy_reals = record { flags = 518; t = 128 }

abbrev optional_integers : PirType
optional_integers = record { flags = 768; t = 65600 }

abbrev expanded : PirType
expanded = record { flags = 640; t = 2 ^ 23 }

integers-IsType : IsType integers
unfolding bit
integers-IsType = record {
  flags_lt = omega arith;
  t_lt = omega arith;
  kind = refl;
  laziness = λ h. ground (arith, h);
}

lazy_reals-IsType : IsType lazy_reals
unfolding bit
lazy_reals-IsType = record {
  flags_lt = omega arith;
  t_lt = omega arith;
  kind = refl;
  laziness = λ h. refl;
}

optional_integers-IsType : IsType optional_integers
unfolding bit
optional_integers-IsType = record {
  flags_lt = omega arith;
  t_lt = omega arith;
  kind = refl;
  laziness = λ h. ground (arith, h);
}

expanded-IsType : IsType expanded
unfolding bit
expanded-IsType = record {
  flags_lt = omega arith;
  t_lt = omega arith;
  kind = refl;
  laziness = λ h. ground (arith, h);
}

is_super-union_example :
    is_super integers (union optional_integers lazy_reals)
    ≡ (is_super integers optional_integers && is_super integers lazy_reals)
is_super-union_example =
    is_super-union optional_integers lazy_reals optional_integers-IsType lazy_reals-IsType integers
      integers-IsType

is_super-intersection_example :
    is_super (intersection optional_integers lazy_reals) integers
    ≡ (is_super optional_integers integers && is_super lazy_reals integers)
is_super-intersection_example =
    is_super-intersection optional_integers lazy_reals optional_integers-IsType lazy_reals-IsType
      integers integers-IsType

is_super-any_example : is_super any expanded ≡ not (bit (2 ^ 23) 23)
is_super-any_example =
    is_super-any expanded expanded-IsType (λ i h. ground (arith, bit-two_pow 23 i, h))

abbrev numbered : ℕ → SexpType
numbered n = if n == 13 then intsxp else if n == 14 then realsxp else promsxp

abbrev seen_reals : ObservedValues
seen_reals = record {
  num_types = 2;
  state_before_last_force = StateBeforeLastForce.value;
  not_scalar = true;
  attribs = true;
  object = false;
  not_fast_vecelt = false;
  seen = 14 ∷ 5 ∷ 0 ∷ [];
}

merge_observed_includes_example :
    Included (merge_observed numbered seen_reals integers) realsxp
    × HasFlags seen_reals (merge_observed numbered seen_reals integers)
    × IsType (merge_observed numbered seen_reals integers)
    × (is_super (merge_observed numbered seen_reals integers) integers ≡ true)
merge_observed_includes_example =
    merge_observed_includes numbered seen_reals integers 0 14 integers-IsType
      (λ i h. ground (arith, bit-any i, bit-two_pow 6 i, h)) (omega arith) refl

-- The first of two arguments is eager and no object.
abbrev eager_first : Context
eager_first = record { flags = 0; type_flags = 65; missing = 0 }

abbrev lone_real : PirType
lone_real = record { flags = 512; t = 128 }

-- The intersection with what the context promises is no longer lazy, but it may be in a promise.
from_context-run :
    ◌≡◌ {A = PirType}
      (from_context eager_first 0 2 false lazy_reals)
      (record { flags = 516; t = 128 })
unfolding from_context intersection not_lazy not_object not_missing is_void is_rtype includes_flag
    maybe_promise_wrapped make ensure_missing_invariant is_fact type_maybe_missing Context.includes
    complement EnumSet.union EnumSet.intersection EnumSet.negation EnumSet.any EnumSet.singleton
    EnumSet.includes_elem EnumSet.contains EnumSet.set EnumSet.reset EnumSet.empty
from_context-run = refl
