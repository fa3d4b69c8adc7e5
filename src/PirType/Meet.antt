-- ===== src/PirType/Meet.antt =====
-- rir/src/compiler/pir/type.h, `operator&`: the greatest type below two.
use rir.Prelude.{
  ℕ, ◌^◌, ◌<◌, ◌≡◌, ◌∙◌, refl, sym, true, ◌&&◌, ◌||◌, ◌==◌, arith, Bool-cases, inl, inr, Bool-ext,
}
use rir.Prelude.Bits.{bit, bit-bit_and, bit_above}
use rir.Prelude.Bits.Bound.{lt_of_bits}
use rir.EnumSet
use rir.PirType.{
  PirType, TypeFlag, flag_code, is_super, not_missing, intersection, ensure_missing_invariant,
}
use rir.PirType.TypeFlag.{
  lazy, promise_wrapped, maybe_not_scalar, maybe_object, maybe_not_fast_vecelt, maybe_attrib,
  maybe_na_or_nan, maybe_missing, rtype,
}
use rir.PirType.Flags.{
  IsType, has, is_rtype_lem, bit-not_missing, not_missing-lt, bits-ensure, forces_missing,
}
use rir.PirType.Order.{Covers, Covers_trans, is_super_iff, and_true, Covers_of}

module _ (a b : PirType) (v : IsType a) (w : IsType b) where
  -- The intersection before the missing value is adjusted.
  abbrev met : PirType
  met = record {
    flags = EnumSet.intersection a.flags b.flags;
    t = EnumSet.intersection (not_missing a).t (not_missing b).t;
  }

  met-flags : (i : ℕ) → bit met.flags i ≡ (bit b.flags i && bit a.flags i)
  met-flags i = unfold EnumSet.intersection in bit-bit_and b.flags a.flags i

  met-t : (i : ℕ) → bit met.t i ≡ (bit (not_missing b).t i && bit (not_missing a).t i)
  met-t i = unfold EnumSet.intersection in bit-bit_and (not_missing b).t (not_missing a).t i

  intersection-eq : intersection a b ≡ ensure_missing_invariant met
  unfolding intersection
  intersection-eq =
      rw (is_rtype_lem a v.kind)
        (rw (is_rtype_lem met (met-flags 9 ∙ ground (arith, v.kind, w.kind))) refl)

  met_bits :
      (i : ℕ)
      → (bit (intersection a b).flags i
          ≡ ((forces_missing met && 8 == i) || (bit b.flags i && bit a.flags i)))
        × (bit (intersection a b).t i ≡ (
            (forces_missing met && 16 == i)
            || (bit (not_missing b).t i && bit (not_missing a).t i)))
  met_bits i =
      let l : met.flags < 2 ^ 16 =
        lt_of_bits 16 _ (λ i le. met-flags i ∙ ground (arith, bit_above 16 a.flags i v.flags_lt)) in
      let u : met.t < 2 ^ 32 = lt_of_bits 32 _ (λ i le.
        met-t i
        ∙ ground (
          arith,
          bit_above 32 (not_missing a).t i (not_missing-lt a v.flags_lt v.t_lt v.kind),
        )) in
      let (f, t) = bits-ensure met i l u in
      rw (intersection-eq, sym (met-flags i), sym (met-t i)) (f, t)

  met_forced : forces_missing met ≡ true → (has a maybe_missing && has b maybe_missing) ≡ true
  met_forced h = ground (
    arith,
    met-flags 1,
    met-flags 2,
    met-flags 8,
    met-t 16,
    v.laziness,
    w.laziness,
    bit-not_missing a v.flags_lt v.t_lt v.kind 16,
    bit-not_missing b w.flags_lt w.t_lt w.kind 16,
  )

  -- The flags of an intersection.
  pub has-intersection : (f : TypeFlag) → has (intersection a b) f ≡ (has b f && has a f)
  has-intersection f = elim (Bool-cases (forces_missing met)) [
    | inr n ↦ (met_bits (flag_code f)).0 ∙ rw n refl
    | inl y ↦ (met_bits (flag_code f)).0 ∙ rw y (missing_there f (met_forced y))
  ]
    where
      missing_there :
          (f : TypeFlag)
          → (has a maybe_missing && has b maybe_missing) ≡ true
          → ((8 == flag_code f) || (has b f && has a f)) ≡ (has b f && has a f)
      missing_there f h = ground arith

  pub intersection-IsType : IsType (intersection a b)
  intersection-IsType = record {
    flags_lt =
        lt_of_bits 16 _
          (λ i le. (met_bits i).0 ∙ ground (arith, bit_above 16 a.flags i v.flags_lt));
    t_lt = lt_of_bits 32 _ (λ i le.
        (met_bits i).1
        ∙ ground
            (arith, bit_above 32 (not_missing a).t i (not_missing-lt a v.flags_lt v.t_lt v.kind)));
    kind = has-intersection rtype ∙ ground (arith, v.kind, w.kind);
    laziness = λ h.
        ground (
          arith,
          has-intersection lazy,
          has-intersection promise_wrapped,
          v.laziness,
          w.laziness,
          h,
        );
  }

  pub intersection-members :
      (i : ℕ)
      → bit (not_missing (intersection a b)).t i
        ≡ (bit (not_missing b).t i && bit (not_missing a).t i)
  intersection-members i =
      let u = intersection-IsType in
      bit-not_missing (intersection a b) u.flags_lt u.t_lt u.kind i
      ∙ ground (
        arith,
        (met_bits i).1,
        met-flags 1,
        met-flags 2,
        has-intersection lazy,
        has-intersection promise_wrapped,
        v.laziness,
        w.laziness,
        bit-not_missing a v.flags_lt v.t_lt v.kind i,
        bit-not_missing b w.flags_lt w.t_lt w.kind i,
      )

  pub intersection-lower : Covers a (intersection a b) × Covers b (intersection a b)
  intersection-lower = (
    Covers_of a (intersection a b) (λ f h. ground (arith, has-intersection f, h))
        (λ i h. ground (arith, intersection-members i, h)),
    Covers_of b (intersection a b) (λ f h. ground (arith, has-intersection f, h))
        (λ i h. ground (arith, intersection-members i, h)),
  )

  intersection_greatest : (c : PirType) → Covers a c → Covers b c → Covers (intersection a b) c
  intersection_greatest c h k = record {
    lazily = λ x. ground (arith, h.lazily, k.lazily, has-intersection lazy, x);
    wrappedly = λ x. ground (
      arith,
      h.wrappedly,
      k.wrappedly,
      has-intersection promise_wrapped,
      v.laziness,
      w.laziness,
      x,
    );
    objects = λ x. ground (arith, h.objects, k.objects, has-intersection maybe_object, x);
    vecelts = λ x. ground (arith, h.vecelts, k.vecelts, has-intersection maybe_not_fast_vecelt, x);
    attribs = λ x. ground (arith, h.attribs, k.attribs, has-intersection maybe_attrib, x);
    nans = λ x. ground (arith, h.nans, k.nans, has-intersection maybe_na_or_nan, x);
    vectors = λ x. ground (arith, h.vectors, k.vectors, has-intersection maybe_not_scalar, x);
    missings = λ x. ground (arith, h.missings, k.missings, has-intersection maybe_missing, x);
    members = λ i x. ground (arith, h.members i, k.members i, intersection-members i, x);
  }

  -- `operator&` gives the greatest lower bound of two types in the order of `isSuper`: a third type
  -- is below the intersection exactly if it is below both.
  pub is_super-intersection :
      (c : PirType) → IsType c → is_super (intersection a b) c ≡ (is_super a c && is_super b c)
  is_super-intersection c x = Bool-ext _ _ there back
    where
      there : is_super (intersection a b) c ≡ true → (is_super a c && is_super b c) ≡ true
      there h =
          let k = (is_super_iff (intersection a b) c intersection-IsType.kind x.kind).0 h in
          rw
            (
              (is_super_iff a c v.kind x.kind).1
                  (Covers_trans a (intersection a b) c intersection-lower.0 k),
              (is_super_iff b c w.kind x.kind).1
                  (Covers_trans b (intersection a b) c intersection-lower.1 k),
            )
            refl

      back : (is_super a c && is_super b c) ≡ true → is_super (intersection a b) c ≡ true
      back h =
          let (p, q) = and_true (is_super a c) (is_super b c) h in
          (is_super_iff (intersection a b) c intersection-IsType.kind x.kind).1 (
            intersection_greatest c ((is_super_iff a c v.kind x.kind).0 p)
              ((is_super_iff b c w.kind x.kind).0 q))
