-- ===== src/PirType/Flags.antt =====
-- rir/src/compiler/pir/type.h: the flags and members of a type as bits, and what each operation on
-- them leaves.
use native.Mathlib.Nat.{mod-eq_of_lt}
use rir.Prelude.{
  ℕ, ◌^◌, ◌≤◌, ◌<◌, ◌≡◌, ◌∙◌, refl, Bool, true, false, not, ◌&&◌, ◌||◌, List, [], ◌∷◌, ◌==◌,
  if◌then◌else◌, arith, Bool-cases, inl, inr, dec_lt, or_false, leb,
}
use rir.Prelude.Bits.{bit, bit-bit_or, bit-bit_and, bit-zero, bit_above, bit-two_pow, complement}
use rir.Prelude.Bits.Bound.{bit_or-lt, two_pow-lt, lt_of_bits}
use rir.EnumSet
use rir.EnumSet.{Enum, IsEnum}
use rir.EnumSet.Laws.{includes_elem-bit, bit-set, bit-reset, bit-negation}
use rir.PirType.{
  PirType, TypeFlag, flag_code, flag_set, rtype_set, includes_flag, is_rtype, maybe_lazy,
  maybe_promise_wrapped, maybe_obj, type_maybe_not_fast_vecelt, maybe_has_attrs,
  type_maybe_na_or_nan, is_scalar, type_maybe_missing, ensure_missing_invariant, make, not_missing,
  without_flags, with_flags,
}
use rir.PirType.TypeFlag.{
  lazy, promise_wrapped, maybe_not_scalar, maybe_object, maybe_not_fast_vecelt, maybe_attrib,
  maybe_na_or_nan, maybe_missing, rtype,
}

pub flag_set-IsEnum : IsEnum flag_set
flag_set-IsEnum = omega arith

pub rtype_set-IsEnum : IsEnum rtype_set
rtype_set-IsEnum = omega arith

pub flag_code-le : (f : TypeFlag) → flag_code f ≤ 9
flag_code-le f = ground arith

abbrev pub has : PirType → TypeFlag → Bool
has a f = bit a.flags (flag_code f)

-- The types of R values, in words of the width of the sets. A value that may be lazy may be in a
-- promise.
pub record IsType (a : PirType) : Type 0 where
  pub flags_lt : a.flags < 2 ^ 16
  pub t_lt : a.t < 2 ^ 32
  pub kind : has a rtype ≡ true
  pub laziness : has a lazy ≡ true → has a promise_wrapped ≡ true

pub includes_flag-has : (a : PirType) (f : TypeFlag) → includes_flag a f ≡ has a f
unfolding includes_flag
includes_flag-has a f =
    includes_elem-bit flag_set flag_set-IsEnum a.flags (flag_code f) (flag_code-le f)

abbrev pub wrapped : PirType → Bool
wrapped a = has a promise_wrapped || has a lazy

module _ (a : PirType) (v : has a rtype ≡ true) where
  pub is_rtype_lem : is_rtype a ≡ true
  unfolding is_rtype
  is_rtype_lem = includes_flag-has a rtype ∙ v

  pub predicates :
      (maybe_lazy a ≡ has a lazy)
      × (maybe_promise_wrapped a ≡ wrapped a)
      × (maybe_obj a ≡ has a maybe_object)
      × (type_maybe_not_fast_vecelt a ≡ has a maybe_not_fast_vecelt)
      × (maybe_has_attrs a ≡ has a maybe_attrib)
      × (type_maybe_na_or_nan a ≡ has a maybe_na_or_nan)
      × (is_scalar a ≡ not (has a maybe_not_scalar))
      × (type_maybe_missing a ≡ has a maybe_missing)
  unfolding maybe_lazy maybe_promise_wrapped maybe_obj type_maybe_not_fast_vecelt maybe_has_attrs
      type_maybe_na_or_nan is_scalar type_maybe_missing
  predicates = ground (
    arith,
    is_rtype_lem,
    includes_flag-has a lazy,
    includes_flag-has a promise_wrapped,
    includes_flag-has a maybe_object,
    includes_flag-has a maybe_not_fast_vecelt,
    includes_flag-has a maybe_attrib,
    includes_flag-has a maybe_na_or_nan,
    includes_flag-has a maybe_not_scalar,
    includes_flag-has a maybe_missing,
  )

-- The condition under which `ensureMissingInvariant` changes a type.
abbrev pub forces_missing : PirType → Bool
forces_missing a =
    not (has a lazy) && not (has a promise_wrapped) && (bit a.t 16 || has a maybe_missing)

pub bits-ensure :
    (a : PirType) (i : ℕ)
    → a.flags < 2 ^ 16
    → a.t < 2 ^ 32
    → (bit (ensure_missing_invariant a).flags i ≡ ((forces_missing a && 8 == i) || bit a.flags i))
      × (bit (ensure_missing_invariant a).t i ≡ ((forces_missing a && 16 == i) || bit a.t i))
unfolding ensure_missing_invariant
bits-ensure a i l u = ground (
  arith,
  includes_elem-bit flag_set flag_set-IsEnum a.flags 1 (omega arith),
  includes_elem-bit flag_set flag_set-IsEnum a.flags 2 (omega arith),
  includes_elem-bit flag_set flag_set-IsEnum a.flags 8 (omega arith),
  includes_elem-bit rtype_set rtype_set-IsEnum a.t 16 (omega arith),
  bit-set flag_set flag_set-IsEnum a.flags 8 i l (omega arith),
  bit-set rtype_set rtype_set-IsEnum a.t 16 i u (omega arith),
)

-- Whether a list of flags mentions the one with a number.
abbrev pub mentions : List TypeFlag → ℕ → Bool
mentions [] i = false
mentions (f ∷ fs) i = (flag_code f == i) || mentions fs i

pub bit-with_flags :
    (s : ℕ) (fs : List TypeFlag) (i : ℕ) → bit (with_flags s fs) i ≡ (bit s i || mentions fs i)
bit-with_flags s [] i = or_false (bit s i)
bit-with_flags s (f ∷ fs) i =
    let code-lt : flag_code f < 16 = omega (arith, flag_code-le f) in
    bit-with_flags (EnumSet.union s (EnumSet.singleton flag_set (flag_code f))) fs i
    ∙ (unfold EnumSet.union EnumSet.singleton in
        rw
          (
            mod-eq_of_lt (two_pow-lt (flag_code f) 16 code-lt),
            bit-bit_or (2 ^ flag_code f) s i,
            bit-two_pow (flag_code f) i,
          )
          (ground arith))

with_flags-lt : (s : ℕ) (fs : List TypeFlag) → s < 2 ^ 16 → with_flags s fs < 2 ^ 16
with_flags-lt s [] h = h
with_flags-lt s (f ∷ fs) h =
    let code-lt : flag_code f < 16 = omega (arith, flag_code-le f) in
    with_flags-lt (EnumSet.union s (EnumSet.singleton flag_set (flag_code f))) fs (
      unfold EnumSet.union EnumSet.singleton in
      rw (mod-eq_of_lt (two_pow-lt (flag_code f) 16 code-lt))
        (bit_or-lt 16 (2 ^ flag_code f) s (two_pow-lt (flag_code f) 16 code-lt) h))

pub bit-without_flags :
    (s : ℕ) (fs : List TypeFlag) (i : ℕ)
    → bit (without_flags s fs) i ≡ (bit s i && (leb 1 i && leb i 9 && not (mentions fs i)))
bit-without_flags s fs i =
    unfold EnumSet.intersection in
    ground (
      arith,
      bit-bit_and (EnumSet.negation flag_set (with_flags 0 fs)) s i,
      bit-negation flag_set flag_set-IsEnum (with_flags 0 fs) i (with_flags-lt 0 fs (omega arith)),
      bit-with_flags 0 fs i,
      bit-zero i,
    )

pub without_flags-lt : (s : ℕ) (fs : List TypeFlag) → s < 2 ^ 16 → without_flags s fs < 2 ^ 16
without_flags-lt s fs h =
    lt_of_bits 16 (without_flags s fs)
      (λ i le. bit-without_flags s fs i ∙ ground (arith, bit_above 16 s i h))

pub bit-reset_missing :
    (t i : ℕ) → t < 2 ^ 32 → bit (EnumSet.reset t 16) i ≡ (bit t i && not (16 == i))
bit-reset_missing t i u = elim (dec_lt i 64) [
  | yes l ↦ bit-reset rtype_set rtype_set-IsEnum t 16 i (omega arith) l
  | no l ↦
      unfold EnumSet.reset in
      ground (arith, bit-bit_and t (complement 64 (2 ^ 16)) i, bit_above 32 t i u)
]

pub reset_missing-lt : (t : ℕ) → t < 2 ^ 32 → EnumSet.reset t 16 < 2 ^ 32
reset_missing-lt t u =
    lt_of_bits 32 (EnumSet.reset t 16)
      (λ i le. bit-reset_missing t i u ∙ ground (arith, bit_above 32 t i u))

module _ (a : PirType) (l : a.flags < 2 ^ 16) (u : a.t < 2 ^ 32) (k : has a rtype ≡ true) where
  -- What `notMissing` hands to the constructor.
  abbrev stripped : PirType
  stripped = record {
    flags = without_flags a.flags (maybe_missing ∷ []);
    t = if wrapped a then a.t else EnumSet.reset a.t 16;
  }

  not_missing-eq : not_missing a ≡ ensure_missing_invariant stripped
  unfolding not_missing make
  not_missing-eq = rw ((predicates a k).1) refl

  stripped-lt : stripped.t < 2 ^ 32
  stripped-lt = elim (Bool-cases (wrapped a)) [
    | inl y ↦ rw y u
    | inr n ↦ rw n (reset_missing-lt a.t u)
  ]

  not_forced : forces_missing stripped ≡ false
  not_forced = ground (
    arith,
    bit-without_flags a.flags (maybe_missing ∷ []) 1,
    bit-without_flags a.flags (maybe_missing ∷ []) 2,
    bit-without_flags a.flags (maybe_missing ∷ []) 8,
    bit-reset_missing a.t 16 u,
  )

  -- Types of R without the missing value: the member stays where a promise may hide it.
  pub bit-not_missing :
      (i : ℕ) → bit (not_missing a).t i ≡ (bit a.t i && (wrapped a || not (16 == i)))
  bit-not_missing i = rw not_missing-eq (
      (bits-ensure stripped i (without_flags-lt a.flags (maybe_missing ∷ []) l) stripped-lt).1
      ∙ ground (arith, not_forced, bit-reset_missing a.t i u))

  pub not_missing-lt : (not_missing a).t < 2 ^ 32
  not_missing-lt =
      lt_of_bits 32 (not_missing a).t
        (λ i le. bit-not_missing i ∙ ground (arith, bit_above 32 a.t i u))
