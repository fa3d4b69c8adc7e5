-- ===== src/PirType/Join.antt =====
-- rir/src/compiler/pir/type.h, `operator|`: the least type above two.
use rir.Prelude.{
  ℕ, ◌^◌, ◌<◌, ◌≡◌, ◌∙◌, refl, sym, true, false, ◌&&◌, ◌||◌, ◌==◌, arith, Bool-cases, inl, inr,
  Bool-ext,
}
use rir.Prelude.Bits.{bit, bit-bit_or, bit_above}
use rir.Prelude.Bits.Bound.{bit_or-lt, lt_of_bits}
use rir.EnumSet
use rir.PirType.{
  PirType, TypeFlag, flag_code, is_super, not_missing, union, ensure_missing_invariant,
}
use rir.PirType.TypeFlag.{
  lazy, promise_wrapped, maybe_not_scalar, maybe_object, maybe_not_fast_vecelt, maybe_attrib,
  maybe_na_or_nan, maybe_missing, rtype,
}
use rir.PirType.Flags.{
  IsType, has, wrapped, is_rtype_lem, bit-not_missing, not_missing-lt, bits-ensure, forces_missing,
}
use rir.PirType.Order.{Covers, Covers_trans, is_super_iff, and_true, Covers_of}

module _ (a b : PirType) (v : IsType a) (w : IsType b) where
  -- The union before the missing value is adjusted.
  abbrev joined : PirType
  joined = record {
    flags = EnumSet.union a.flags b.flags;
    t = EnumSet.union (not_missing a).t (not_missing b).t;
  }

  joined-flags : (i : ℕ) → bit joined.flags i ≡ (bit b.flags i || bit a.flags i)
  joined-flags i = unfold EnumSet.union in bit-bit_or b.flags a.flags i

  joined-t : (i : ℕ) → bit joined.t i ≡ (bit (not_missing b).t i || bit (not_missing a).t i)
  joined-t i = unfold EnumSet.union in bit-bit_or (not_missing b).t (not_missing a).t i

  union-eq : union a b ≡ ensure_missing_invariant joined
  unfolding union
  union-eq =
      rw (is_rtype_lem a v.kind)
        (rw (is_rtype_lem joined (joined-flags 9 ∙ ground (arith, v.kind))) refl)

  joined_bits :
      (i : ℕ)
      → (bit (union a b).flags i
          ≡ ((forces_missing joined && 8 == i) || (bit b.flags i || bit a.flags i)))
        × (bit (union a b).t i ≡ (
            (forces_missing joined && 16 == i)
            || (bit (not_missing b).t i || bit (not_missing a).t i)))
  joined_bits i =
      let l : joined.flags < 2 ^ 16 =
        unfold EnumSet.union in bit_or-lt 16 b.flags a.flags w.flags_lt v.flags_lt in
      let u : joined.t < 2 ^ 32 =
        unfold EnumSet.union in
        bit_or-lt 32 (not_missing b).t (not_missing a).t (not_missing-lt b w.flags_lt w.t_lt w.kind)
          (not_missing-lt a v.flags_lt v.t_lt v.kind) in
      let (f, t) = bits-ensure joined i l u in
      rw (union-eq, sym (joined-flags i), sym (joined-t i)) (f, t)

  -- The missing value is forced only where one of the types has it.
  forced :
      forces_missing joined ≡ true
      → (wrapped a || wrapped b ≡ false) × ((has a maybe_missing || has b maybe_missing) ≡ true)
  forced h = ground (
    arith,
    joined-flags 1,
    joined-flags 2,
    joined-flags 8,
    joined-t 16,
    bit-not_missing a v.flags_lt v.t_lt v.kind 16,
    bit-not_missing b w.flags_lt w.t_lt w.kind 16,
  )

  -- The flags of a union.
  pub has-union : (f : TypeFlag) → has (union a b) f ≡ (has b f || has a f)
  has-union f = elim (Bool-cases (forces_missing joined)) [
    | inr n ↦ (joined_bits (flag_code f)).0 ∙ rw n refl
    | inl y ↦ (joined_bits (flag_code f)).0 ∙ rw y (missing_there f (forced y).1)
  ]
    where
      missing_there :
          (f : TypeFlag)
          → ((has a maybe_missing || has b maybe_missing) ≡ true)
          → ((8 == flag_code f) || (has b f || has a f)) ≡ (has b f || has a f)
      missing_there f h = ground arith

  pub union-IsType : IsType (union a b)
  union-IsType = record {
    flags_lt = lt_of_bits 16 _ (λ i le.
        (joined_bits i).0
        ∙ ground (arith, bit_above 16 a.flags i v.flags_lt, bit_above 16 b.flags i w.flags_lt));
    t_lt = lt_of_bits 32 _ (λ i le.
        (joined_bits i).1
        ∙ ground (
          arith,
          bit_above 32 (not_missing a).t i (not_missing-lt a v.flags_lt v.t_lt v.kind),
          bit_above 32 (not_missing b).t i (not_missing-lt b w.flags_lt w.t_lt w.kind),
        ));
    kind = has-union rtype ∙ ground (arith, v.kind);
    laziness =
        λ h. ground (arith, has-union lazy, has-union promise_wrapped, v.laziness, w.laziness, h);
  }

  -- The members of a union, but for the missing value.
  pub union-members :
      (i : ℕ)
      → bit (not_missing (union a b)).t i ≡ (bit (not_missing b).t i || bit (not_missing a).t i)
  union-members i =
      let u = union-IsType in
      bit-not_missing (union a b) u.flags_lt u.t_lt u.kind i
      ∙ ground (
        arith,
        (joined_bits i).1,
        forced,
        has-union lazy,
        has-union promise_wrapped,
        bit-not_missing a v.flags_lt v.t_lt v.kind i,
        bit-not_missing b w.flags_lt w.t_lt w.kind i,
      )

  pub union-upper : Covers (union a b) a × Covers (union a b) b
  union-upper = (
    Covers_of (union a b) a (λ f h. ground (arith, has-union f, h))
        (λ i h. ground (arith, union-members i, h)),
    Covers_of (union a b) b (λ f h. ground (arith, has-union f, h))
        (λ i h. ground (arith, union-members i, h)),
  )

  union_least : (c : PirType) → Covers c a → Covers c b → Covers c (union a b)
  union_least c h k = record {
    lazily = λ x. ground (arith, h.lazily, k.lazily, has-union lazy, x);
    wrappedly =
        λ x. ground (arith, h.wrappedly, k.wrappedly, has-union lazy, has-union promise_wrapped, x);
    objects = λ x. ground (arith, h.objects, k.objects, has-union maybe_object, x);
    vecelts = λ x. ground (arith, h.vecelts, k.vecelts, has-union maybe_not_fast_vecelt, x);
    attribs = λ x. ground (arith, h.attribs, k.attribs, has-union maybe_attrib, x);
    nans = λ x. ground (arith, h.nans, k.nans, has-union maybe_na_or_nan, x);
    vectors = λ x. ground (arith, h.vectors, k.vectors, has-union maybe_not_scalar, x);
    missings = λ x. ground (arith, h.missings, k.missings, has-union maybe_missing, x);
    members = λ i x. ground (arith, h.members i, k.members i, union-members i, x);
  }

  -- `operator|` gives the least upper bound of two types in the order of `isSuper`: a third type is
  -- above the union exactly if it is above both.
  pub is_super-union :
      (c : PirType) → IsType c → is_super c (union a b) ≡ (is_super c a && is_super c b)
  is_super-union c x = Bool-ext _ _ there back
    where
      there : is_super c (union a b) ≡ true → (is_super c a && is_super c b) ≡ true
      there h =
          let k = (is_super_iff c (union a b) x.kind union-IsType.kind).0 h in
          rw
            (
              (is_super_iff c a x.kind v.kind).1 (Covers_trans c (union a b) a k union-upper.0),
              (is_super_iff c b x.kind w.kind).1 (Covers_trans c (union a b) b k union-upper.1),
            )
            refl

      back : (is_super c a && is_super c b) ≡ true → is_super c (union a b) ≡ true
      back h =
          let (p, q) = and_true (is_super c a) (is_super c b) h in
          (is_super_iff c (union a b) x.kind union-IsType.kind).1 (
            union_least c ((is_super_iff c a x.kind v.kind).0 p)
              ((is_super_iff c b x.kind w.kind).0 q))
