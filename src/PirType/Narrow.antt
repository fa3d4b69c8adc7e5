-- ===== src/PirType/Narrow.antt =====
-- rir/src/compiler/pir/type.cpp, `fromContext`: what a context promises only narrows a type.
use rir.Prelude.{
  ℕ, ◌^◌, ◌<◌, ◌≡◌, ◌∙◌, refl, Bool, true, false, ◌||◌, List, [], ◌∷◌, arith, Bool-cases, inl, inr,
  if◌then◌else◌,
}
use rir.Prelude.Bits.{bit, bit_above, complement}
use rir.Prelude.Bits.Bound.{lt_of_bits}
use rir.EnumSet
use rir.Context.{Context, is_fact}
use rir.Context.Fact.{eager, not_obj, simple_int, simple_real}
use rir.PirType.{
  PirType, TypeFlag, without_flags, make, ensure_missing_invariant, not_missing, intersection,
  is_super, is_void, maybe_promise_wrapped, of_rtype,
}
use rir.PirType.TypeFlag.{lazy, promise_wrapped, maybe_object, maybe_missing}
use rir.PirType.Flags.{
  IsType, bits-ensure, mentions, bit-without_flags, without_flags-lt, reset_missing-lt,
}
use rir.PirType.Order.{Covers, Covers_refl, Covers_trans, is_super_iff}
use rir.PirType.Meet.{intersection-IsType, intersection-lower}
use rir.PirType.Named.{
  not_lazy, not_object, forced, simple_scalar_real, simple_scalar_int, or_maybe_missing,
  or_fully_promise_wrapped, simple_scalar, scalar,
}
use rir.PirType.Observed.{
  narrow_if, narrow_missing, narrow_eager, narrow_forced, narrow_value, narrowed, from_context,
}

pub ensure-IsType : (a : PirType) → IsType a → IsType (ensure_missing_invariant a)
ensure-IsType a v = record {
  flags_lt = lt_of_bits 16 _ (λ i le.
      (bits-ensure a i v.flags_lt v.t_lt).0 ∙ ground (arith, bit_above 16 a.flags i v.flags_lt));
  t_lt =
      lt_of_bits 32 _
        (λ i le. (bits-ensure a i v.flags_lt v.t_lt).1 ∙ ground (arith, bit_above 32 a.t i v.t_lt));
  kind = (bits-ensure a 9 v.flags_lt v.t_lt).0 ∙ ground (arith, v.kind);
  laziness = λ h. ground (
    arith,
    (bits-ensure a 1 v.flags_lt v.t_lt).0,
    (bits-ensure a 2 v.flags_lt v.t_lt).0,
    v.laziness,
    h,
  );
}

-- Flags may be taken from a type, that of promises only with that of lazy values.
pub without-IsType :
    (a : PirType) (t : ℕ) (fs : List TypeFlag)
    → IsType a
    → t < 2 ^ 32
    → mentions fs 9 ≡ false
    → (mentions fs 2 ≡ true → mentions fs 1 ≡ true)
    → IsType (record { flags = without_flags a.flags fs; t = t })
without-IsType a t fs v u k l = record {
  flags_lt = without_flags-lt a.flags fs v.flags_lt;
  t_lt = u;
  kind = bit-without_flags a.flags fs 9 ∙ ground (arith, v.kind, k);
  laziness = λ h.
      ground
        (arith, bit-without_flags a.flags fs 1, bit-without_flags a.flags fs 2, v.laziness, l, h);
}

pub not_missing-IsType : (a : PirType) → IsType a → IsType (not_missing a)
unfolding not_missing make
not_missing-IsType a v =
    ensure-IsType _ (without-IsType a _ (maybe_missing ∷ []) v bound refl (λ h. cc))
  where
    bound : (if maybe_promise_wrapped a then a.t else EnumSet.reset a.t 16) < 2 ^ 32
    bound = elim (Bool-cases (maybe_promise_wrapped a)) [
      | inl y ↦ rw y v.t_lt
      | inr n ↦ rw n (reset_missing-lt a.t v.t_lt)
    ]

pub not_lazy-IsType : (a : PirType) → IsType a → IsType (not_lazy a)
unfolding not_lazy make
not_lazy-IsType a v = ensure-IsType _ (without-IsType a a.t (lazy ∷ []) v v.t_lt refl (λ h. cc))

pub not_object-IsType : (a : PirType) → IsType a → IsType (not_object a)
unfolding not_object make
not_object-IsType a v =
    ensure-IsType _ (without-IsType a a.t (maybe_object ∷ []) v v.t_lt refl (λ h. cc))

pub forced-IsType : (a : PirType) → IsType a → IsType (forced a)
unfolding forced make
forced-IsType a v = elim (Bool-cases (maybe_promise_wrapped a)) [
  | inr n ↦ rw n v
  | inl y ↦ rw y (
      ensure-IsType _ (
        ensure-IsType _
          (without-IsType a a.t (lazy ∷ promise_wrapped ∷ []) v v.t_lt refl (λ h. refl))))
]

-- The constants that a value known to be a simple scalar is intersected with.
abbrev pub promised_real : PirType
promised_real = or_fully_promise_wrapped (or_maybe_missing simple_scalar_real)

abbrev pub promised_int : PirType
promised_int = or_fully_promise_wrapped (or_maybe_missing simple_scalar_int)

pub promised_real-eq : ◌≡◌ {A = PirType} promised_real (record { flags = 644; t = 65664 })
unfolding or_fully_promise_wrapped or_maybe_missing simple_scalar_real maybe_promise_wrapped make
    complement ensure_missing_invariant simple_scalar scalar of_rtype EnumSet.union
    EnumSet.intersection EnumSet.negation EnumSet.singleton EnumSet.includes_elem EnumSet.set
    EnumSet.reset
promised_real-eq = refl

pub promised_int-eq : ◌≡◌ {A = PirType} promised_int (record { flags = 644; t = 65600 })
unfolding or_fully_promise_wrapped or_maybe_missing simple_scalar_int maybe_promise_wrapped make
    complement ensure_missing_invariant simple_scalar scalar of_rtype EnumSet.union
    EnumSet.intersection EnumSet.negation EnumSet.singleton EnumSet.includes_elem EnumSet.set
    EnumSet.reset
promised_int-eq = refl

pub promised_real-IsType : IsType promised_real
unfolding bit
promised_real-IsType =
    rw promised_real-eq
      (record { flags_lt = omega arith; t_lt = omega arith; kind = refl; laziness = λ h. refl })

pub promised_int-IsType : IsType promised_int
unfolding bit
promised_int-IsType =
    rw promised_int-eq
      (record { flags_lt = omega arith; t_lt = omega arith; kind = refl; laziness = λ h. refl })

-- A type that is narrower, and still a type.
pub record Narrows (a b : PirType) : Type 0 where
  pub valid : IsType b
  pub covered : Covers a b

Narrows_trans : (a b d : PirType) → Narrows a b → Narrows b d → Narrows a d
Narrows_trans a b d h k = record {
  valid = k.valid;
  covered = Covers_trans a b d h.covered k.covered;
}

module _ (c : Context) (arg nargs : ℕ) (after_force : Bool) where
  pub narrow_if-Narrows :
      (b : Bool) (a bound : PirType)
      → IsType a
      → IsType bound
      → Narrows a (narrow_if c arg nargs after_force b a bound)
  narrow_if-Narrows true a bound v w = record {
    valid = intersection-IsType a bound v w;
    covered = (intersection-lower a bound v w).0;
  }
  narrow_if-Narrows false a bound v w = record { valid = v; covered = Covers_refl a }

  pub missing-Narrows :
      (a : PirType) → IsType a → Narrows a (narrow_missing c arg nargs after_force a)
  unfolding narrow_missing
  missing-Narrows a v = narrow_if-Narrows _ a (not_missing a) v (not_missing-IsType a v)

  pub eager-Narrows : (a : PirType) → IsType a → Narrows a (narrow_eager c arg nargs after_force a)
  unfolding narrow_eager
  eager-Narrows a v = narrow_if-Narrows _ a (not_lazy a) v (not_lazy-IsType a v)

  pub forced-Narrows :
      (a : PirType) → IsType a → Narrows a (narrow_forced c arg nargs after_force a)
  unfolding narrow_forced
  forced-Narrows a v = narrow_if-Narrows _ a (forced a) v (forced-IsType a v)

  pub value-Narrows : (a : PirType) → IsType a → Narrows a (narrow_value c arg nargs after_force a)
  unfolding narrow_value
  value-Narrows a v =
      let b = intersection a (not_lazy a) in
      let x = narrow_if-Narrows true a (not_lazy a) v (not_lazy-IsType a v) in
      let y =
        narrow_if-Narrows (is_fact not_obj c arg) b (not_object (not_missing b)) x.valid
          (not_object-IsType (not_missing b) (not_missing-IsType b x.valid)) in
      let z =
        narrow_if-Narrows (is_fact simple_real c arg) _ promised_real y.valid
          promised_real-IsType in
      let w =
        narrow_if-Narrows (is_fact simple_int c arg) _ promised_int z.valid promised_int-IsType in
      Narrows_trans a b _ x (Narrows_trans b _ _ y (Narrows_trans _ _ _ z w))

  pub narrowed-Narrows : (a : PirType) → IsType a → Narrows a (narrowed c arg nargs after_force a)
  unfolding narrowed
  narrowed-Narrows a v =
      let x = missing-Narrows a v in
      let y = eager-Narrows _ x.valid in
      let z = forced-Narrows _ y.valid in
      let b =
        narrow_forced c arg nargs after_force
          (narrow_eager c arg nargs after_force (narrow_missing c arg nargs after_force a)) in
      let all = Narrows_trans a _ b x (Narrows_trans _ _ b y z) in
      elim (Bool-cases (is_fact eager c arg || after_force)) [
        | inl e ↦ rw e (Narrows_trans a b _ all (value-Narrows b z.valid))
        | inr e ↦ rw e all
      ]

  -- What a context says of an argument only narrows the type: the result is a type below it.
  pub from_context_narrows :
      (a : PirType)
      → IsType a
      → IsType (from_context c arg nargs after_force a)
        × (is_super a (from_context c arg nargs after_force a) ≡ true)
  unfolding from_context
  from_context_narrows a v =
      let x = narrowed-Narrows a v in
      elim (Bool-cases (is_void (narrowed c arg nargs after_force a))) [
        | inl e ↦ rw e (v, (is_super_iff a a v.kind v.kind).1 (Covers_refl a))
        | inr e ↦ rw e (x.valid, (is_super_iff a _ v.kind x.valid.kind).1 x.covered)
      ]
