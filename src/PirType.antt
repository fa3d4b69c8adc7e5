-- ===== src/PirType.antt =====
-- rir/src/compiler/pir/type.h: the types of values in PIR. A type is a set of flags and a set of
-- types of R or of native types: a word for each. Assertions on the kind of the operands are
-- hypotheses of the theorems, as a release build does not run them.
pub mod Named
pub mod Observed
pub mod Flags
pub mod Order
pub mod Join
pub mod Meet
pub mod Narrow
pub mod Taken
pub mod Promises
pub mod Effective
pub mod Any
pub mod Widen
pub mod Included
pub mod Results
use rir.Prelude.{
  ℕ, ◌+◌, ◌≡◌, Bool, true, false, not, ◌&&◌, ◌||◌, List, [], ◌∷◌, ◌==◌, if◌then◌else◌,
}
use rir.EnumSet
use rir.EnumSet.{Enum}

pub data RType : Type 0 where
  nil list sym chr logical integer real str vec cplx raw : RType
  closure special builtin prom missing unbound code env ast expressions : RType
  dots expanded_dots other : RType

abbrev pub rtype_code : RType → ℕ
rtype_code nil = 1
rtype_code list = 2
rtype_code sym = 3
rtype_code chr = 4
rtype_code logical = 5
rtype_code integer = 6
rtype_code real = 7
rtype_code str = 8
rtype_code vec = 9
rtype_code cplx = 10
rtype_code raw = 11
rtype_code closure = 12
rtype_code special = 13
rtype_code builtin = 14
rtype_code prom = 15
rtype_code missing = 16
rtype_code unbound = 17
rtype_code code = 18
rtype_code env = 19
rtype_code ast = 20
rtype_code expressions = 21
rtype_code dots = 22
rtype_code expanded_dots = 23
rtype_code other = 24

pub data TypeFlag : Type 0 where
  lazy promise_wrapped maybe_not_scalar maybe_object maybe_not_fast_vecelt : TypeFlag
  maybe_attrib maybe_na_or_nan maybe_missing rtype : TypeFlag

abbrev pub flag_code : TypeFlag → ℕ
flag_code lazy = 1
flag_code promise_wrapped = 2
flag_code maybe_not_scalar = 3
flag_code maybe_object = 4
flag_code maybe_not_fast_vecelt = 5
flag_code maybe_attrib = 6
flag_code maybe_na_or_nan = 7
flag_code maybe_missing = 8
flag_code rtype = 9

-- RTypeSet and FlagSet; a set of native types has 8 bits, and only unions, intersections and
-- comparisons of those occur.
abbrev pub rtype_set : Enum
rtype_set = record { first = 1; last = 24; digits = 32 }

abbrev pub flag_set : Enum
flag_set = record { first = 1; last = 9; digits = 16 }

pub record PirType : Type 0 where
  pub flags : ℕ
  pub t : ℕ

-- `set | elements`, and `set & ~(elements)`.
abbrev pub with_flags : ℕ → List TypeFlag → ℕ
with_flags s [] = s
with_flags s (f ∷ fs) = with_flags (EnumSet.union s (EnumSet.singleton flag_set (flag_code f))) fs

abbrev pub without_flags : ℕ → List TypeFlag → ℕ
without_flags s fs = EnumSet.intersection s (EnumSet.negation flag_set (with_flags 0 fs))

abbrev pub with_rtypes : ℕ → List RType → ℕ
with_rtypes s [] = s
with_rtypes s (r ∷ rs) =
    with_rtypes (EnumSet.union s (EnumSet.singleton rtype_set (rtype_code r))) rs

unfoldable pub includes_flag : PirType → TypeFlag → Bool
includes_flag a f = EnumSet.includes_elem flag_set a.flags (flag_code f)

unfoldable pub is_rtype : PirType → Bool
unfolding includes_flag
is_rtype a = includes_flag a rtype

unfoldable pub default_rtype_flags : ℕ
default_rtype_flags = with_flags 0 (maybe_not_scalar ∷ maybe_na_or_nan ∷ rtype ∷ [])

unfoldable pub top_rtype_flags : ℕ
top_rtype_flags = with_flags 0 (
    lazy ∷ promise_wrapped ∷ maybe_object ∷ maybe_not_fast_vecelt ∷ maybe_attrib ∷ maybe_not_scalar
    ∷ maybe_na_or_nan ∷ rtype ∷ [])

unfoldable pub optimistic_rtype_flags : ℕ
optimistic_rtype_flags = with_flags 0 (rtype ∷ [])

-- The flags and the set that `ensureMissingInvariant` leaves.
unfoldable pub ensure_missing_invariant : PirType → PirType
ensure_missing_invariant a =
    if not (EnumSet.includes_elem flag_set a.flags (flag_code lazy))
      && not (EnumSet.includes_elem flag_set a.flags (flag_code promise_wrapped))
      && (EnumSet.includes_elem rtype_set a.t (rtype_code missing)
          || EnumSet.includes_elem flag_set a.flags (flag_code maybe_missing))
    then record {
      flags = EnumSet.set flag_set a.flags (flag_code maybe_missing);
      t = EnumSet.set rtype_set a.t (rtype_code missing);
    }
    else a

-- The constructor from a set and flags, and those from a set or an element with default flags.
unfoldable pub make : ℕ → ℕ → PirType
unfolding ensure_missing_invariant
make t f = ensure_missing_invariant (record { flags = f; t = t })

unfoldable pub of_set : ℕ → PirType
unfolding make default_rtype_flags
of_set t = make t default_rtype_flags

unfoldable pub of_rtype : RType → PirType
unfolding of_set
of_rtype r = of_set (EnumSet.singleton rtype_set (rtype_code r))

-- The predicates. An assertion that the flags of objects, element access and attributes go
-- together is a hypothesis of well-formed types.
module _ (a : PirType) where
  unfoldable pub type_maybe_missing : Bool
  unfolding is_rtype includes_flag
  type_maybe_missing = is_rtype a && includes_flag a maybe_missing

  unfoldable pub maybe_lazy : Bool
  unfolding is_rtype includes_flag
  maybe_lazy = is_rtype a && includes_flag a lazy

  unfoldable pub maybe_promise_wrapped : Bool
  unfolding is_rtype includes_flag
  maybe_promise_wrapped = is_rtype a && (includes_flag a promise_wrapped || includes_flag a lazy)

  unfoldable pub type_maybe_na_or_nan : Bool
  unfolding is_rtype includes_flag
  type_maybe_na_or_nan = is_rtype a && includes_flag a maybe_na_or_nan

  unfoldable pub is_scalar : Bool
  unfolding is_rtype includes_flag
  is_scalar = not (is_rtype a) || not (includes_flag a maybe_not_scalar)

  unfoldable pub maybe_obj : Bool
  unfolding is_rtype includes_flag
  maybe_obj = is_rtype a && includes_flag a maybe_object

  unfoldable pub type_maybe_not_fast_vecelt : Bool
  unfolding is_rtype includes_flag
  type_maybe_not_fast_vecelt = is_rtype a && includes_flag a maybe_not_fast_vecelt

  unfoldable pub maybe_has_attrs : Bool
  unfolding is_rtype includes_flag
  maybe_has_attrs = is_rtype a && includes_flag a maybe_attrib

  unfoldable pub is_simple_scalar : Bool
  unfolding is_scalar maybe_has_attrs
  is_simple_scalar = is_scalar && not maybe_has_attrs

  unfoldable pub evaluates_to_missing : Bool
  unfolding is_rtype
  evaluates_to_missing = is_rtype a && (a.t == EnumSet.singleton rtype_set (rtype_code missing))

  unfoldable pub maybe_evaluates_to_missing : Bool
  unfolding is_rtype
  maybe_evaluates_to_missing =
      is_rtype a && EnumSet.includes_elem rtype_set a.t (rtype_code missing)

  unfoldable pub is_void : Bool
  unfolding is_rtype type_maybe_missing
  is_void = if is_rtype a then EnumSet.empty a.t && not type_maybe_missing else EnumSet.empty a.t

  unfoldable pub not_missing : PirType
  unfolding make maybe_promise_wrapped
  not_missing =
      make (if maybe_promise_wrapped then a.t else EnumSet.reset a.t (rtype_code missing))
        (without_flags a.flags (maybe_missing ∷ []))

unfoldable pub equal : PirType → PirType → Bool
equal a b = (a.flags == b.flags) && (a.t == b.t)

-- operator|
unfoldable pub union : PirType → PirType → PirType
union a b =
    let r : PirType = record {
      flags = EnumSet.union a.flags b.flags;
      t =
          if is_rtype a
          then EnumSet.union (not_missing a).t (not_missing b).t
          else EnumSet.union a.t b.t;
    } in
    if is_rtype r then ensure_missing_invariant r else r

-- operator&
unfoldable pub intersection : PirType → PirType → PirType
intersection a b =
    let r : PirType = record {
      flags = EnumSet.intersection a.flags b.flags;
      t =
          if is_rtype a
          then EnumSet.intersection (not_missing a).t (not_missing b).t
          else EnumSet.intersection a.t b.t;
    } in
    if is_rtype r then ensure_missing_invariant r else r

-- `a.isSuper(b)`, and `b.isA(a)`
unfoldable pub is_super : PirType → PirType → Bool
is_super a b =
    if (is_rtype a && not (is_rtype b)) || (not (is_rtype a) && is_rtype b)
    then false
    else if not (is_rtype a)
    then EnumSet.includes a.t b.t
    else if (not (maybe_lazy a) && maybe_lazy b)
        || (not (maybe_promise_wrapped a) && maybe_promise_wrapped b)
        || (not (maybe_obj a) && maybe_obj b)
        || (not (type_maybe_not_fast_vecelt a) && type_maybe_not_fast_vecelt b)
        || (not (maybe_has_attrs a) && maybe_has_attrs b)
        || (not (type_maybe_na_or_nan a) && type_maybe_na_or_nan b)
        || (is_scalar a && not (is_scalar b))
        || (not (type_maybe_missing a) && type_maybe_missing b)
    then false
    else EnumSet.includes (not_missing a).t (not_missing b).t

abbrev pub is_a : PirType → PirType → Bool
is_a b a = is_super a b

-- `maybe(type)`
unfoldable pub maybe : PirType → PirType → Bool
unfolding intersection is_void
maybe a b = not (is_void (intersection a b))
