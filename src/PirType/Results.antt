-- ===== src/PirType/Results.antt =====
-- rir/src/compiler/pir/type.h: the other named types, and the types of subsets, elements,
-- collections and of values that were merged after a conversion.
use rir.Prelude.{
  ℕ, Bool, true, false, not, ◌&&◌, ◌||◌, [], ◌∷◌, ltb, if◌then◌else◌, ◌≡◌, refl, arith, Bool-cases,
  inl, inr,
}
use rir.EnumSet
use rir.PirType.{
  PirType, rtype_code, rtype_set, with_rtypes, make, of_set, of_rtype, top_rtype_flags,
  ensure_missing_invariant, maybe_promise_wrapped, type_maybe_not_fast_vecelt, not_missing, union,
  intersection, is_a, is_void, equal, is_rtype, is_super, default_rtype_flags,
}
use rir.PirType.RType.{
  nil, list, logical, integer, real, str, vec, cplx, closure, special, builtin, prom, code, env,
  expanded_dots,
}
use rir.PirType.Flags.{IsType}
use rir.PirType.Order.{Covers_refl, is_super_iff}
use rir.PirType.Narrow.{Narrows}
use rir.PirType.Join.{union-IsType}
use rir.PirType.Meet.{intersection-lower, intersection-IsType}
use rir.Prelude.Bits.{bit, complement}
use rir.PirType.Named.{
  fresh, not_object, scalar, or_na_or_nan, or_not_scalar, or_promise_wrapped, or_lazy,
  or_attribs_or_obj, forced, simple_scalar, or_rtypes, num, val, the_missing_value,
}

unfoldable pub closure_type : PirType
closure_type = or_attribs_or_obj (of_rtype closure)

unfoldable pub special_type : PirType
special_type = or_attribs_or_obj (of_rtype special)

unfoldable pub builtin_type : PirType
builtin_type = or_attribs_or_obj (of_rtype builtin)

unfoldable pub function_type : PirType
unfolding closure_type
function_type = or_rtypes closure_type (special ∷ builtin ∷ [])

unfoldable pub env_type : PirType
env_type = or_attribs_or_obj (of_rtype env)

unfoldable pub simple_scalar_string : PirType
simple_scalar_string = simple_scalar (of_rtype str)

unfoldable pub any_simple_scalar : PirType
any_simple_scalar = simple_scalar (or_rtypes (of_rtype integer) (real ∷ logical ∷ []))

unfoldable pub simple_vector : PirType
simple_vector = of_rtype vec

unfoldable pub promise_wrapped_val : PirType
promise_wrapped_val = or_promise_wrapped val

unfoldable pub val_or_lazy : PirType
val_or_lazy = or_lazy val

unfoldable pub is_the_missing_value : PirType → Bool
is_the_missing_value a = if not (is_rtype a) then false else equal a the_missing_value

unfoldable pub maybe_reference_counted : PirType → Bool
maybe_reference_counted a =
    is_rtype a
    && EnumSet.intersects a.t (with_rtypes 0 (logical ∷ integer ∷ real ∷ str ∷ vec ∷ cplx ∷ []))

-- Type of `<a>[<idx>]`
unfoldable pub subset_type : PirType → PirType → PirType
subset_type a idx =
    if is_a a (or_attribs_or_obj (of_rtype nil))
    then of_rtype nil
    else if is_a a (or_attribs_or_obj (or_rtypes num (str ∷ list ∷ code ∷ [])))
    then if is_a idx (scalar (of_rtype str))
      then or_na_or_nan (or_attribs_or_obj (scalar a))
      else or_na_or_nan (or_not_scalar a)
    else if is_a a (of_rtype vec)
    then of_rtype vec
    else if is_a a (or_attribs_or_obj (of_rtype vec))
    then or_attribs_or_obj (of_rtype vec)
    else if not (type_maybe_not_fast_vecelt a) && not (is_a (of_rtype prom) a)
    then not_missing val
    else val

-- Type of `<a>[[<idx>]]`
unfoldable pub extract_type : PirType → PirType → PirType
extract_type a idx =
    if is_a a (or_attribs_or_obj (of_rtype nil))
    then of_rtype nil
    else if is_a a (or_attribs_or_obj (or_rtypes num (str ∷ list ∷ [])))
    then simple_scalar a
    else if is_a a (of_rtype vec)
    then not_missing val
    else if not (type_maybe_not_fast_vecelt a) && not (is_a (of_rtype prom) a)
    then not_missing val
    else val

-- Type of `c(<a>, ...)` with a number of arguments
unfoldable pub collection_type : PirType → ℕ → PirType
collection_type a num_args =
    if is_a a (of_rtype nil)
    then of_rtype nil
    else if is_a a (or_rtypes num (str ∷ nil ∷ []))
    then if ltb 1 num_args then or_na_or_nan (or_not_scalar a) else a
    else if EnumSet.contains rtype_set a.t (rtype_code prom)
        || EnumSet.contains rtype_set a.t (rtype_code expanded_dots)
    then val
    else or_rtypes (or_na_or_nan (or_not_scalar (not_object (forced a)))) (vec ∷ [])

-- The branches of `fixup` in `mergeWithConversion`, and what they leave of the union.
unfoldable pub merge_with_conversion : PirType → PirType → PirType
merge_with_conversion a b =
    let res = union a b in
    let is_int = or_rtypes fresh (integer ∷ []) in
    let is_real = or_rtypes fresh (real ∷ []) in
    let is_intish = or_rtypes fresh (integer ∷ logical ∷ []) in
    let is_num = or_rtypes fresh (real ∷ integer ∷ logical ∷ []) in
    if is_void a || is_void b
    then res
    else if is_a a is_intish && is_a b is_int
    then intersection res is_int
    else if is_a a is_num && is_a b is_real
    then intersection res is_real
    else if is_a b is_intish && is_a a is_int
    then intersection res is_int
    else if is_a b is_num && is_a a is_real
    then intersection res is_real
    else res

abbrev is_int : PirType
is_int = or_rtypes fresh (integer ∷ [])

abbrev is_real : PirType
is_real = or_rtypes fresh (real ∷ [])

is_int-eq : ◌≡◌ {A = PirType} is_int (record { flags = 766; t = 64 })
unfolding or_rtypes fresh top_rtype_flags union of_rtype of_set default_rtype_flags not_missing make
    ensure_missing_invariant maybe_promise_wrapped complement EnumSet.union EnumSet.intersection
    EnumSet.negation EnumSet.any EnumSet.singleton EnumSet.includes_elem EnumSet.set EnumSet.reset
is_int-eq = refl

is_real-eq : ◌≡◌ {A = PirType} is_real (record { flags = 766; t = 128 })
unfolding or_rtypes fresh top_rtype_flags union of_rtype of_set default_rtype_flags not_missing make
    ensure_missing_invariant maybe_promise_wrapped complement EnumSet.union EnumSet.intersection
    EnumSet.negation EnumSet.any EnumSet.singleton EnumSet.includes_elem EnumSet.set EnumSet.reset
is_real-eq = refl

is_int-IsType : IsType is_int
unfolding bit
is_int-IsType =
    rw is_int-eq
      (record { flags_lt = omega arith; t_lt = omega arith; kind = refl; laziness = λ h. refl })

is_real-IsType : IsType is_real
unfolding bit
is_real-IsType =
    rw is_real-eq
      (record { flags_lt = omega arith; t_lt = omega arith; kind = refl; laziness = λ h. refl })

-- A branch of `fixup`.
fixup-Narrows :
    (res bound rest : PirType) (test : Bool)
    → IsType res
    → IsType bound
    → Narrows res rest
    → Narrows res (if test then intersection res bound else rest)
fixup-Narrows res bound rest true v w c = record {
  valid = intersection-IsType res bound v w;
  covered = (intersection-lower res bound v w).0;
}
fixup-Narrows res bound rest false v w c = c

-- `mergeWithConversion` gives a type below the union of its operands.
pub merge_with_conversion_narrows :
    (a b : PirType)
    → IsType a
    → IsType b
    → IsType (merge_with_conversion a b) × (is_super (union a b) (merge_with_conversion a b) ≡ true)
unfolding merge_with_conversion
merge_with_conversion_narrows a b v w =
    let u = union-IsType a b v w in
    let r = union a b in
    let is_intish = or_rtypes fresh (integer ∷ logical ∷ []) in
    let is_num = or_rtypes fresh (real ∷ integer ∷ logical ∷ []) in
    let same : Narrows r r = record { valid = u; covered = Covers_refl r } in
    elim (Bool-cases (is_void a || is_void b)) [
      | inl y ↦ rw y (u, (is_super_iff r r u.kind u.kind).1 (Covers_refl r))
      | inr n ↦
          let k = fixup-Narrows r is_int _ (is_a a is_intish && is_a b is_int) u is_int-IsType (
            fixup-Narrows r is_real _ (is_a a is_num && is_a b is_real) u is_real-IsType (
              fixup-Narrows r is_int _ (is_a b is_intish && is_a a is_int) u is_int-IsType (
                fixup-Narrows r is_real r (is_a b is_num && is_a a is_real) u is_real-IsType
                  same))) in
          rw n (k.valid, (is_super_iff r _ u.kind k.valid.kind).1 k.covered)
    ]
