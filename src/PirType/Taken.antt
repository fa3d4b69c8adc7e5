-- ===== src/PirType/Taken.antt =====
-- rir/src/compiler/pir/type.h: a type that properties are taken away from still has the types that
-- do not have them.
use rir.Prelude.{
  ℕ, ◌^◌, ◌<◌, ◌≡◌, ◌∙◌, refl, sym, true, false, List, [], ◌∷◌, arith, Bool-cases, inl, inr,
  if◌then◌else◌,
}
use rir.Prelude.Bits.{bit}
use rir.EnumSet
use rir.PirType.{
  PirType, TypeFlag, flag_code, without_flags, make, ensure_missing_invariant, not_missing,
  maybe_promise_wrapped,
}
use rir.PirType.TypeFlag.{
  lazy, promise_wrapped, maybe_not_scalar, maybe_object, maybe_not_fast_vecelt, maybe_attrib,
  maybe_na_or_nan, maybe_missing,
}
use rir.PirType.Flags.{
  IsType, has, wrapped, bits-ensure, mentions, bit-without_flags, bit-not_missing, predicates,
  bit-reset_missing, reset_missing-lt,
}
use rir.PirType.Order.{Covers}
use rir.PirType.Named.{not_lazy, not_object, forced}
use rir.PirType.Narrow.{ensure-IsType, without-IsType}

-- A type whose values include those of `x` still does, after the missing value is adjusted.
Covers-ensure :
    (b x : PirType) → IsType b → IsType x → Covers b x → Covers (ensure_missing_invariant b) x
Covers-ensure b x v w c =
    let e = ensure_missing_invariant b in
    let u = ensure-IsType b v in
    record {
      lazily = λ h. ground (arith, (bits-ensure b 1 v.flags_lt v.t_lt).0, c.lazily, h);
      wrappedly = λ h. ground (
        arith,
        (bits-ensure b 1 v.flags_lt v.t_lt).0,
        (bits-ensure b 2 v.flags_lt v.t_lt).0,
        c.wrappedly h,
      );
      objects = λ h. ground (arith, (bits-ensure b 4 v.flags_lt v.t_lt).0, c.objects, h);
      vecelts = λ h. ground (arith, (bits-ensure b 5 v.flags_lt v.t_lt).0, c.vecelts, h);
      attribs = λ h. ground (arith, (bits-ensure b 6 v.flags_lt v.t_lt).0, c.attribs, h);
      nans = λ h. ground (arith, (bits-ensure b 7 v.flags_lt v.t_lt).0, c.nans, h);
      vectors = λ h. ground (arith, (bits-ensure b 3 v.flags_lt v.t_lt).0, c.vectors, h);
      missings = λ h. ground (arith, (bits-ensure b 8 v.flags_lt v.t_lt).0, c.missings, h);
      members = λ i h. ground (
        arith,
        bit-not_missing e u.flags_lt u.t_lt u.kind i,
        bit-not_missing b v.flags_lt v.t_lt v.kind i,
        (bits-ensure b i v.flags_lt v.t_lt).1,
        (bits-ensure b 1 v.flags_lt v.t_lt).0,
        (bits-ensure b 2 v.flags_lt v.t_lt).0,
        c.members i h,
      );
    }

-- Flags may be taken from it that `x` has not.
Covers-without :
    (a x : PirType) (t : ℕ) (fs : List TypeFlag)
    → IsType a
    → IsType x
    → t < 2 ^ 32
    → mentions fs 9 ≡ false
    → (mentions fs 2 ≡ true → mentions fs 1 ≡ true)
    → ((f : TypeFlag) → mentions fs (flag_code f) ≡ true → has x f ≡ false)
    → ((i : ℕ) → bit (not_missing x).t i ≡ true → bit t i ≡ true)
    → Covers a x
    → Covers (record { flags = without_flags a.flags fs; t = t }) x
Covers-without a x t fs v w l k m absent members c =
    let r : PirType = record { flags = without_flags a.flags fs; t = t } in
    let u = without-IsType a t fs v l k m in
    record {
      lazily = λ h. ground (arith, bit-without_flags a.flags fs 1, absent lazy, c.lazily, h);
      wrappedly = wrapping;
      objects =
          λ h. ground (arith, bit-without_flags a.flags fs 4, absent maybe_object, c.objects, h);
      vecelts = λ h.
          ground
            (arith, bit-without_flags a.flags fs 5, absent maybe_not_fast_vecelt, c.vecelts, h);
      attribs =
          λ h. ground (arith, bit-without_flags a.flags fs 6, absent maybe_attrib, c.attribs, h);
      nans = λ h. ground (arith, bit-without_flags a.flags fs 7, absent maybe_na_or_nan, c.nans, h);
      vectors = λ h.
          ground (arith, bit-without_flags a.flags fs 3, absent maybe_not_scalar, c.vectors, h);
      missings =
          λ h. ground (arith, bit-without_flags a.flags fs 8, absent maybe_missing, c.missings, h);
      members = λ i h. ground (
        arith,
        bit-not_missing r u.flags_lt u.t_lt u.kind i,
        bit-not_missing x w.flags_lt w.t_lt w.kind i,
        wrapping,
        members i,
        h,
      );
    }
  where
    wrapping :
        wrapped x ≡ true → (wrapped (record { flags = without_flags a.flags fs; t = t })) ≡ true
    wrapping h = ground (
      arith,
      bit-without_flags a.flags fs 2,
      absent promise_wrapped,
      absent lazy,
      m,
      v.laziness,
      c.wrappedly h,
      h,
    )

module _ (a x : PirType) (v : IsType a) (w : IsType x) (c : Covers a x) where
  below : (i : ℕ) → bit (not_missing x).t i ≡ true → bit a.t i ≡ true
  below i h = ground (arith, bit-not_missing a v.flags_lt v.t_lt v.kind i, c.members i h)

  pub Covers-not_lazy : has x lazy ≡ false → Covers (not_lazy a) x
  unfolding not_lazy make
  Covers-not_lazy n =
      Covers-ensure _ x (without-IsType a a.t (lazy ∷ []) v v.t_lt refl (λ h. cc)) w (
        Covers-without a x a.t (lazy ∷ []) v w v.t_lt refl (λ h. cc) (λ f h. ground (arith, n, h))
          below c)

  pub Covers-not_object : has x maybe_object ≡ false → Covers (not_object a) x
  unfolding not_object make
  Covers-not_object n =
      Covers-ensure _ x (without-IsType a a.t (maybe_object ∷ []) v v.t_lt refl (λ h. cc)) w (
        Covers-without a x a.t (maybe_object ∷ []) v w v.t_lt refl (λ h. cc)
          (λ f h. ground (arith, n, h)) below c)

  pub Covers-forced : wrapped x ≡ false → Covers (forced a) x
  unfolding forced make
  Covers-forced n = elim (Bool-cases (maybe_promise_wrapped a)) [
    | inr n' ↦ rw n' c
    | inl y ↦
        let fs : List TypeFlag = lazy ∷ promise_wrapped ∷ [] in
        let r : PirType = record { flags = without_flags a.flags fs; t = a.t } in
        let u = without-IsType a a.t fs v v.t_lt refl (λ h. refl) in
        let absent : (f : TypeFlag) → mentions fs (flag_code f) ≡ true → has x f ≡ false =
          λ f h. ground (arith, n, h) in
        rw y (
          Covers-ensure (ensure_missing_invariant r) x (ensure-IsType r u) w (
            Covers-ensure r x u w
              (Covers-without a x a.t fs v w v.t_lt refl (λ h. refl) absent below c)))
  ]

  pub Covers-not_missing : has x maybe_missing ≡ false → Covers (not_missing a) x
  unfolding not_missing make
  Covers-not_missing n =
      Covers-ensure _ x (without-IsType a _ (maybe_missing ∷ []) v bound refl (λ h. cc)) w (
        Covers-without a x _ (maybe_missing ∷ []) v w bound refl (λ h. cc)
          (λ f h. ground (arith, n, h)) members c)
    where
      t : ℕ
      t = if maybe_promise_wrapped a then a.t else EnumSet.reset a.t 16

      bound : t < 2 ^ 32
      bound = elim (Bool-cases (maybe_promise_wrapped a)) [
        | inl y ↦ rw y v.t_lt
        | inr n ↦ rw n (reset_missing-lt a.t v.t_lt)
      ]

      members : (i : ℕ) → bit (not_missing x).t i ≡ true → bit t i ≡ true
      members i h = elim (Bool-cases (maybe_promise_wrapped a)) [
        | inl y ↦ rw y (below i h)
        | inr n ↦ rw n (
            ground (
              arith,
              bit-reset_missing a.t i v.t_lt,
              bit-not_missing a v.flags_lt v.t_lt v.kind i,
              c.members i h,
              sym ((predicates a v.kind).1) ∙ n,
            ))
      ]
