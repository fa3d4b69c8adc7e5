-- ===== src/PirType/Observed.antt =====
-- rir/src/compiler/pir/type.cpp: a type widened by what was observed, and narrowed by what the
-- context of a call promises. The types of R values come as names; the numbering is R's.
use rir.Prelude.{
  ℕ, ◌+◌, ◌-◌, ◌^◌, ◌%◌, Bool, not, ◌&&◌, ◌||◌, Option, none, some, List, [], ◌∷◌, ltb, ◌==◌,
  if◌then◌else◌, map,
}
use rir.Prelude.Distinct.{take}
use rir.EnumSet
use rir.Context
use rir.Context.{Context, is_fact, no_explicitly_missing_args, Fact}
use rir.Context.Fact.{eager, not_obj, simple_int, simple_real}
use rir.TypeFeedback.{ObservedValues, max_types}
use rir.PirType.{
  PirType, RType, rtype_code, TypeFlag, flag_code, rtype_set, flag_set, intersection, is_void,
  not_missing,
}
use rir.PirType.RType.{
  nil, list, sym, chr, logical, integer, real, str, vec, cplx, raw, closure, special, builtin, code,
  env, ast, dots, other,
}
use rir.PirType.TypeFlag.{
  lazy, promise_wrapped, maybe_not_scalar, maybe_object, maybe_not_fast_vecelt, maybe_attrib,
  maybe_na_or_nan,
}
use rir.PirType.Named.{
  any, or_sexp_types, not_lazy, not_object, forced, simple_scalar_real, simple_scalar_int,
  or_maybe_missing, or_fully_promise_wrapped,
}

-- The types of R values that `merge` knows.
pub data SexpType : Type 0 where
  nilsxp symsxp listsxp closxp specialsxp builtinsxp envsxp promsxp exprsxp langsxp : SexpType
  charsxp lglsxp intsxp realsxp strsxp vecsxp rawsxp bcodesxp externalsxp cplxsxp : SexpType
  dotsxp anysxp extptrsxp weakrefsxp s4sxp : SexpType

-- The element that a case of `merge` sets; a promise is another case.
unfoldable pub rtype_of : SexpType → Option RType
rtype_of nilsxp = some nil
rtype_of symsxp = some sym
rtype_of listsxp = some list
rtype_of closxp = some closure
rtype_of specialsxp = some special
rtype_of builtinsxp = some builtin
rtype_of envsxp = some env
rtype_of promsxp = none
rtype_of exprsxp = some ast
rtype_of langsxp = some code
rtype_of charsxp = some chr
rtype_of lglsxp = some logical
rtype_of intsxp = some integer
rtype_of realsxp = some real
rtype_of strsxp = some str
rtype_of vecsxp = some vec
rtype_of rawsxp = some raw
rtype_of bcodesxp = some code
rtype_of externalsxp = some code
rtype_of cplxsxp = some cplx
rtype_of dotsxp = some dots
rtype_of anysxp = some other
rtype_of extptrsxp = some other
rtype_of weakrefsxp = some other
rtype_of s4sxp = some other

unfoldable pub set_flag : PirType → TypeFlag → PirType
set_flag a f = record a { flags = EnumSet.set flag_set a.flags (flag_code f) }

-- `merge(SEXPTYPE)`
unfoldable pub merge_type : SexpType → PirType → PirType
unfolding rtype_of set_flag
merge_type s a = elim (rtype_of s) [
  | some r ↦ record a { t = EnumSet.set rtype_set a.t (rtype_code r) }
  | none ↦ record (set_flag (set_flag a promise_wrapped) lazy) { t = any.t }
]

unfoldable pub merge_types : List SexpType → PirType → PirType
unfolding merge_type
merge_types [] a = a
merge_types (s ∷ seen) a = merge_types seen (merge_type s a)

-- `if (observed) flags_.set(f)`
unfoldable pub set_if : Bool → TypeFlag → PirType → PirType
unfolding set_flag
set_if b f a = if b then set_flag a f else a

-- The flags that `merge(const ObservedValues&)` sets.
unfoldable pub merge_flags : ObservedValues → PirType → PirType
unfolding set_if
merge_flags o a =
    set_flag
      (set_if o.not_fast_vecelt maybe_not_fast_vecelt (
        set_if o.object maybe_object
          (set_if o.not_scalar maybe_not_scalar (set_if o.attribs maybe_attrib a))))
      maybe_na_or_nan

-- `merge(const ObservedValues&)`; `numbered` gives the names of R's numbers.
unfoldable pub merge_observed : (ℕ → SexpType) → ObservedValues → PirType → PirType
unfolding merge_flags merge_types
merge_observed numbered o a =
    let b = merge_types (map numbered (take o.num_types o.seen)) (merge_flags o a) in
    if o.num_types == max_types then or_sexp_types b any else b

-- `fromContext`. The count of arguments is an `unsigned`.
module _ (c : Context) (arg nargs : ℕ) (after_force : Bool) where
  unfoldable pub passed_explicitly : Bool
  passed_explicitly =
      not after_force
      && Context.includes c no_explicitly_missing_args
      && ltb arg ((nargs + 2 ^ 32 - c.missing) % 2 ^ 32)

  -- `if (condition) type = type & other`
  abbrev pub narrow_if : Bool → PirType → PirType → PirType
  narrow_if b a bound = if b then intersection a bound else a

  unfoldable pub narrow_missing : PirType → PirType
  unfolding passed_explicitly
  narrow_missing a = narrow_if passed_explicitly a (not_missing a)

  unfoldable pub narrow_eager : PirType → PirType
  narrow_eager a = narrow_if (is_fact eager c arg) a (not_lazy a)

  unfoldable pub narrow_forced : PirType → PirType
  narrow_forced a = narrow_if after_force a (forced a)

  -- The checks of the value, which are made where it is known not to be lazy.
  unfoldable pub narrow_value : PirType → PirType
  narrow_value a =
      let b = intersection a (not_lazy a) in
      let d = narrow_if (is_fact not_obj c arg) b (not_object (not_missing b)) in
      let e =
        narrow_if (is_fact simple_real c arg) d
          (or_fully_promise_wrapped (or_maybe_missing simple_scalar_real)) in
      narrow_if (is_fact simple_int c arg) e
        (or_fully_promise_wrapped (or_maybe_missing simple_scalar_int))

  unfoldable pub narrowed : PirType → PirType
  unfolding narrow_missing narrow_eager narrow_forced narrow_value
  narrowed a =
      let b = narrow_forced (narrow_eager (narrow_missing a)) in
      if is_fact eager c arg || after_force then narrow_value b else b

  unfoldable pub from_context : PirType → PirType
  unfolding narrowed
  from_context a = if not (is_void (narrowed a)) then narrowed a else a
