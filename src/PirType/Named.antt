-- ===== src/PirType/Named.antt =====
-- rir/src/compiler/pir/type.h: types with a property added or taken away, and the types with a
-- name.
use rir.Prelude.{Bool, not, ◌||◌, List, [], ◌∷◌, if◌then◌else◌}
use rir.EnumSet
use rir.PirType.{
  PirType, RType, rtype_set, with_flags, without_flags, with_rtypes, make, of_set, of_rtype,
  top_rtype_flags, optimistic_rtype_flags, ensure_missing_invariant, maybe_promise_wrapped, union,
  is_a,
}
use rir.PirType.RType.{
  nil, list, sym, chr, logical, integer, real, str, vec, cplx, raw, closure, special, builtin, prom,
  missing, unbound, code, env, ast, expressions, dots, other,
}
use rir.PirType.TypeFlag.{
  lazy, promise_wrapped, maybe_not_scalar, maybe_object, maybe_not_fast_vecelt, maybe_attrib,
  maybe_na_or_nan, maybe_missing,
}

-- The default constructor, and the types that are optimistic and empty.
unfoldable pub fresh : PirType
unfolding make top_rtype_flags
fresh = make 0 top_rtype_flags

unfoldable pub optimistic : PirType
unfolding optimistic_rtype_flags
optimistic = record { flags = optimistic_rtype_flags; t = 0 }

unfoldable pub voyd : PirType
voyd = record { flags = 0; t = 0 }

module _ (a : PirType) where
  unfoldable pub not_object : PirType
  not_object = make a.t (without_flags a.flags (maybe_object ∷ []))

  unfoldable pub not_na_or_nan : PirType
  not_na_or_nan = make a.t (without_flags a.flags (maybe_na_or_nan ∷ []))

  unfoldable pub scalar : PirType
  scalar = make a.t (without_flags a.flags (maybe_not_scalar ∷ []))

  unfoldable pub not_t : RType → PirType
  not_t r =
      make (EnumSet.intersection a.t (EnumSet.negation rtype_set (with_rtypes 0 (r ∷ [])))) a.flags

  unfoldable pub or_t : RType → PirType
  or_t r = make (with_rtypes a.t (r ∷ [])) a.flags

  unfoldable pub or_na_or_nan : PirType
  or_na_or_nan = make a.t (with_flags a.flags (maybe_na_or_nan ∷ []))

  unfoldable pub or_not_scalar : PirType
  or_not_scalar = make a.t (with_flags a.flags (maybe_not_scalar ∷ []))

  unfoldable pub or_promise_wrapped : PirType
  or_promise_wrapped =
      if maybe_promise_wrapped a then a else make a.t (with_flags a.flags (promise_wrapped ∷ []))

  unfoldable pub or_fully_promise_wrapped : PirType
  or_fully_promise_wrapped =
      if maybe_promise_wrapped a
      then a
      else make a.t (without_flags (with_flags a.flags (promise_wrapped ∷ [])) (maybe_missing ∷ []))

  unfoldable pub or_lazy : PirType
  or_lazy = make a.t (with_flags a.flags (lazy ∷ promise_wrapped ∷ []))

  unfoldable pub or_object : PirType
  or_object =
      make a.t (with_flags a.flags (maybe_object ∷ maybe_attrib ∷ maybe_not_fast_vecelt ∷ []))

  unfoldable pub or_not_fast_vecelt : PirType
  or_not_fast_vecelt = make a.t (with_flags a.flags (maybe_not_fast_vecelt ∷ maybe_attrib ∷ []))

  unfoldable pub or_attribs_or_obj : PirType
  or_attribs_or_obj =
      make a.t (with_flags a.flags (maybe_attrib ∷ maybe_not_fast_vecelt ∷ maybe_object ∷ []))

  unfoldable pub or_name_attrs : PirType
  or_name_attrs = make a.t (with_flags a.flags (maybe_attrib ∷ maybe_not_fast_vecelt ∷ []))

  unfoldable pub or_maybe_missing : PirType
  or_maybe_missing =
      let e =
        ensure_missing_invariant (record a { flags = with_flags a.flags (maybe_missing ∷ []) }) in
      make e.t e.flags

  unfoldable pub fast_vecelt : PirType
  fast_vecelt = make a.t (without_flags a.flags (maybe_object ∷ maybe_not_fast_vecelt ∷ []))

  unfoldable pub not_promise_wrapped : PirType
  not_promise_wrapped = make a.t (without_flags a.flags (lazy ∷ promise_wrapped ∷ []))

  unfoldable pub not_lazy : PirType
  not_lazy = make a.t (without_flags a.flags (lazy ∷ []))

  unfoldable pub forced : PirType
  forced =
      if not (maybe_promise_wrapped a)
      then a
      else let e =
          ensure_missing_invariant
            (record a { flags = without_flags a.flags (lazy ∷ promise_wrapped ∷ []) }) in
        make e.t e.flags

  unfoldable pub base_type : PirType
  base_type = of_set a.t

  unfoldable pub or_sexp_types : PirType → PirType
  or_sexp_types o = make (EnumSet.union a.t o.t) a.flags

unfoldable pub no_attribs_or_object : PirType → PirType
unfolding not_object
no_attribs_or_object a =
    not_object (make a.t (without_flags a.flags (maybe_not_fast_vecelt ∷ maybe_attrib ∷ [])))

unfoldable pub simple_scalar : PirType → PirType
unfolding scalar no_attribs_or_object
simple_scalar a = no_attribs_or_object (scalar a)

unfoldable pub or_fast_vecelt : PirType → PirType
unfolding or_attribs_or_obj fast_vecelt
or_fast_vecelt a = fast_vecelt (or_attribs_or_obj a)

-- `type | RType::r | …`: each element becomes a type.
unfoldable pub or_rtypes : PirType → List RType → PirType
unfolding union of_rtype
or_rtypes a [] = a
or_rtypes a (r ∷ rs) = or_rtypes (union a (of_rtype r)) rs

unfoldable pub int_real : PirType
int_real = or_rtypes (of_rtype integer) (real ∷ [])

unfoldable pub int_real_lgl : PirType
int_real_lgl = or_rtypes int_real (logical ∷ [])

unfoldable pub num : PirType
num = or_rtypes int_real_lgl (cplx ∷ [])

unfoldable pub atom_or_simple_vec : PirType
atom_or_simple_vec = or_rtypes num (sym ∷ chr ∷ str ∷ code ∷ [])

unfoldable pub vecs : PirType
vecs = or_rtypes num (str ∷ raw ∷ vec ∷ expressions ∷ [])

unfoldable pub pairlist : PirType
pairlist = or_rtypes (of_rtype list) (nil ∷ [])

unfoldable pub val : PirType
val = or_attribs_or_obj (
    or_na_or_nan (
      or_maybe_missing (
        or_rtypes (union vecs pairlist) (
          sym ∷ chr ∷ raw ∷ closure ∷ special ∷ builtin ∷ prom ∷ code ∷ env ∷ unbound ∷ ast ∷ dots
          ∷ other ∷ []))))

-- Any type of R, but no native type.
unfoldable pub any : PirType
any = or_lazy val

unfoldable pub the_missing_value : PirType
the_missing_value = or_maybe_missing (of_rtype missing)

unfoldable pub dots_arg : PirType
dots_arg = or_maybe_missing (not_promise_wrapped (or_rtypes fresh (dots ∷ [])))

unfoldable pub simple_scalar_int : PirType
simple_scalar_int = simple_scalar (of_rtype integer)

unfoldable pub simple_scalar_real : PirType
simple_scalar_real = simple_scalar (of_rtype real)

unfoldable pub simple_scalar_logical : PirType
simple_scalar_logical = simple_scalar (of_rtype logical)

unfoldable pub test : PirType
test = not_na_or_nan simple_scalar_logical

unfoldable pub unboxable : PirType → Bool
unboxable a = is_a a simple_scalar_logical || is_a a simple_scalar_int || is_a a simple_scalar_real
