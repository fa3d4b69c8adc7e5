-- ===== src/PirType/Any.antt =====
-- rir/src/compiler/pir/type.h, `any`: its members, and of which types it is a supertype.
use rir.Prelude.{
  ℕ, ◌^◌, ◌≤◌, ◌≡◌, ◌∙◌, refl, true, false, not, ◌&&◌, ◌==◌, leb, arith, Bool-cases, inl, inr,
}
use rir.Prelude.Bits.{bit, bit-two_pow, complement}
use rir.Prelude.Bits.Bound.{lt_of_bits}
use rir.EnumSet
use rir.EnumSet.Laws.{bit-negation}
use rir.PirType.{
  PirType, TypeFlag, rtype_set, is_super, make, not_missing, union, of_rtype,
  ensure_missing_invariant, maybe_promise_wrapped,
}
use rir.PirType.TypeFlag.{lazy, promise_wrapped, rtype}
use rir.PirType.Flags.{IsType, has, rtype_set-IsEnum, bit-not_missing}
use rir.PirType.Order.{Covers_of, is_super_iff}
use rir.PirType.Named.{
  any, val, vecs, num, int_real, int_real_lgl, pairlist, or_rtypes, or_lazy, or_attribs_or_obj,
  or_na_or_nan, or_maybe_missing,
}

any-eq : ◌≡◌ {A = PirType} any (record { flags = 1022; t = EnumSet.negation rtype_set (2 ^ 23) })
unfolding any val vecs num int_real int_real_lgl pairlist or_rtypes or_lazy or_attribs_or_obj
    or_na_or_nan or_maybe_missing union of_rtype not_missing make ensure_missing_invariant
    maybe_promise_wrapped complement EnumSet.union EnumSet.intersection EnumSet.negation EnumSet.any
    EnumSet.singleton EnumSet.includes_elem EnumSet.set EnumSet.reset
any-eq = refl

-- The member of a type of R, but for the expanded dots.
pub bit-any : (i : ℕ) → bit any.t i ≡ (leb 1 i && leb i 24 && not (23 == i))
bit-any i = rw any-eq (
    ground
      (arith, bit-negation rtype_set rtype_set-IsEnum (2 ^ 23) i (omega arith), bit-two_pow 23 i))

pub has-any : (f : TypeFlag) → has any f ≡ true
unfolding bit
has-any f = rw any-eq (ground arith)

pub any-IsType : IsType any
any-IsType = record {
  flags_lt = rw any-eq (omega arith);
  t_lt = lt_of_bits 32 any.t (λ i le. bit-any i ∙ ground arith);
  kind = has-any rtype;
  laziness = λ h. has-any promise_wrapped;
}

-- `any` is above a type of R exactly if that has no expanded dots.
pub is_super-any :
    (a : PirType)
    → IsType a
    → ((i : ℕ) → bit a.t i ≡ true → (1 ≤ i) × (i ≤ 24))
    → is_super any a ≡ not (bit a.t 23)
is_super-any a v w = elim (Bool-cases (bit a.t 23)) [
  | inl y ↦ rw y (not_above y)
  | inr n ↦ rw n (
      (is_super_iff any a any-IsType.kind v.kind).1 (
        Covers_of any a (λ f h. has-any f)
          (λ i x. ground (
            arith,
            not_missing-any i,
            bit-not_missing a v.flags_lt v.t_lt v.kind i,
            bit-any i,
            w i,
            n,
            x,
          ))))
]
  where
    not_missing-any : (i : ℕ) → bit (not_missing any).t i ≡ bit any.t i
    not_missing-any i = ground (
      arith,
      bit-not_missing any any-IsType.flags_lt any-IsType.t_lt any-IsType.kind i,
      has-any lazy,
    )

    not_above : bit a.t 23 ≡ true → is_super any a ≡ false
    not_above y = elim (Bool-cases (is_super any a)) [
      | inl s ↦ absurd (
          ground (
            arith,
            ((is_super_iff any a any-IsType.kind v.kind).0 s).members 23,
            not_missing-any 23,
            bit-any 23,
            bit-not_missing a v.flags_lt v.t_lt v.kind 23,
            y,
          ))
      | inr e ↦ e
    ]
