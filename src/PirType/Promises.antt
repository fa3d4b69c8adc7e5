-- ===== src/PirType/Promises.antt =====
-- rir/src/compiler/pir/type.cpp, `fromContext`: the type that a context narrows still has the types
-- of all arguments that keep the promises of the context.
use rir.Prelude.{
  ℕ, ◌+◌, ◌-◌, ◌^◌, ◌%◌, ◌<◌, ◌≤◌, ◌≡◌, ◌∙◌, refl, Bool, true, false, ◌||◌, ◌==◌, arith, Bool-cases,
  inl, inr, ltb, ltb→lt,
}
use rir.Prelude.Bits.{bit}
use rir.Context
use rir.Context.{Context, is_fact, no_explicitly_missing_args}
use rir.Context.Fact.{eager, not_obj, simple_int, simple_real}
use rir.PirType.{PirType, RType, rtype_code, not_missing, intersection}
use rir.PirType.TypeFlag.{
  lazy, promise_wrapped, maybe_not_scalar, maybe_object, maybe_not_fast_vecelt, maybe_attrib,
  maybe_na_or_nan, maybe_missing,
}
use rir.PirType.Flags.{IsType, has, wrapped, bit-not_missing}
use rir.PirType.Order.{Covers, is_super_iff}
use rir.PirType.Meet.{intersection-IsType, is_super-intersection}
use rir.PirType.Named.{not_lazy, not_object, forced}
use rir.PirType.Narrow.{
  not_missing-IsType, not_lazy-IsType, not_object-IsType, forced-IsType, promised_real,
  promised_int, promised_real-eq, promised_int-eq, promised_real-IsType, promised_int-IsType,
  narrow_if-Narrows, missing-Narrows, eager-Narrows, forced-Narrows,
}
use rir.PirType.Observed.{
  narrow_if, narrow_missing, narrow_eager, narrow_forced, narrow_value, narrowed, passed_explicitly,
}
use rir.PirType.Taken.{Covers-not_lazy, Covers-not_object, Covers-forced, Covers-not_missing}

-- A simple scalar of one element, or the missing value in a promise: not lazy, no object, without
-- attributes.
pub record IsSimple (r : RType) (x : PirType) : Type 0 where
  pub lazily : has x lazy ≡ false
  pub objects : has x maybe_object ≡ false
  pub vecelts : has x maybe_not_fast_vecelt ≡ false
  pub attribs : has x maybe_attrib ≡ false
  pub vectors : has x maybe_not_scalar ≡ false
  pub missings : has x maybe_missing ≡ false
  pub members : (i : ℕ) → bit x.t i ≡ true → ((rtype_code r == i) || (16 == i)) ≡ true

simple-Covers :
    (r : RType) (e : PirType) (x : PirType)
    → IsType x
    → IsType e
    → IsSimple r x
    → has e promise_wrapped ≡ true
    → has e maybe_na_or_nan ≡ true
    → ((i : ℕ) → ((rtype_code r == i) || (16 == i)) ≡ true → bit e.t i ≡ true)
    → Covers e x
simple-Covers r e x v w s p n m = record {
  lazily = λ h. absurd (ground (arith, s.lazily, h));
  wrappedly = λ h. ground (arith, p);
  objects = λ h. absurd (ground (arith, s.objects, h));
  vecelts = λ h. absurd (ground (arith, s.vecelts, h));
  attribs = λ h. absurd (ground (arith, s.attribs, h));
  nans = λ h. n;
  vectors = λ h. absurd (ground (arith, s.vectors, h));
  missings = λ h. absurd (ground (arith, s.missings, h));
  members = λ i h. ground (
    arith,
    bit-not_missing e w.flags_lt w.t_lt w.kind i,
    bit-not_missing x v.flags_lt v.t_lt v.kind i,
    p,
    m i,
    s.members i,
    h,
  );
}

real-Covers : (x : PirType) → IsType x → IsSimple RType.real x → Covers promised_real x
unfolding bit
real-Covers x v s = rw promised_real-eq (
    simple-Covers RType.real (record { flags = 644; t = 65664 }) x v
      (rw⁻¹ promised_real-eq promised_real-IsType) s refl refl (λ i h. ground (arith, h)))

int-Covers : (x : PirType) → IsType x → IsSimple RType.integer x → Covers promised_int x
unfolding bit
int-Covers x v s = rw promised_int-eq (
    simple-Covers RType.integer (record { flags = 644; t = 65600 }) x v
      (rw⁻¹ promised_int-eq promised_int-IsType) s refl refl (λ i h. ground (arith, h)))

-- The type of an argument keeps what a context says of the argument at a position in a call with a
-- number of arguments, before or after it is forced.
pub record Keeps (c : Context) (arg nargs : ℕ) (after_force : Bool) (x : PirType) : Type 0 where
  pub given :
      after_force ≡ false
      → Context.includes c no_explicitly_missing_args ≡ true
      → arg + c.missing < nargs
      → has x maybe_missing ≡ false
  pub value : is_fact eager c arg ≡ true → has x lazy ≡ false
  pub forced : after_force ≡ true → wrapped x ≡ false
  pub plain :
      is_fact not_obj c arg ≡ true → (has x maybe_object ≡ false) × (has x maybe_missing ≡ false)
  pub real : is_fact simple_real c arg ≡ true → IsSimple RType.real x
  pub int : is_fact simple_int c arg ≡ true → IsSimple RType.integer x

module _ (c : Context) (arg nargs : ℕ) (after_force : Bool) (x : PirType) (w : IsType x)
    (in_range : c.missing ≤ nargs) (bounded : nargs < 2 ^ 32)
    (k : Keeps c arg nargs after_force x) where
  -- One step of the narrowing, with a bound that `x` is below where it is used.
  step :
      (b : Bool) (a bound : PirType)
      → IsType a
      → IsType bound
      → Covers a x
      → (b ≡ true → Covers bound x)
      → Covers (narrow_if c arg nargs after_force b a bound) x
  step false a bound v u h l = h
  step true a bound v u h l =
      let met = is_super-intersection a bound v u x w in
      (is_super_iff (intersection a bound) x (intersection-IsType a bound v u).kind w.kind).0 (
        met
        ∙ rw ((is_super_iff a x v.kind w.kind).1 h, (is_super_iff bound x u.kind w.kind).1 (l refl))
            refl)

  passed : passed_explicitly c arg nargs after_force ≡ true → has x maybe_missing ≡ false
  unfolding passed_explicitly
  passed h =
      let rest : (nargs + 2 ^ 32 - c.missing) % 2 ^ 32 ≡ nargs - c.missing = omega arith in
      let before : after_force ≡ false = ground (arith, h) in
      let explicit : Context.includes c no_explicitly_missing_args ≡ true = ground (arith, h) in
      let low : ltb arg ((nargs + 2 ^ 32 - c.missing) % 2 ^ 32) ≡ true = ground (arith, h) in
      k.given before explicit (omega (arith, ltb→lt _ _ low, rest))

  missing-Covers :
      (a : PirType) → IsType a → Covers a x → Covers (narrow_missing c arg nargs after_force a) x
  unfolding narrow_missing
  missing-Covers a v h =
      step _ a (not_missing a) v (not_missing-IsType a v) h
        (λ p. Covers-not_missing a x v w h (passed p))

  eager-Covers :
      (a : PirType) → IsType a → Covers a x → Covers (narrow_eager c arg nargs after_force a) x
  unfolding narrow_eager
  eager-Covers a v h =
      step _ a (not_lazy a) v (not_lazy-IsType a v) h (λ p. Covers-not_lazy a x v w h (k.value p))

  forced-Covers :
      (a : PirType) → IsType a → Covers a x → Covers (narrow_forced c arg nargs after_force a) x
  unfolding narrow_forced
  forced-Covers a v h =
      step _ a (forced a) v (forced-IsType a v) h (λ p. Covers-forced a x v w h (k.forced p))

  value-Covers :
      (a : PirType)
      → IsType a
      → Covers a x
      → has x lazy ≡ false
      → Covers (narrow_value c arg nargs after_force a) x
  unfolding narrow_value
  value-Covers a v h n =
      let b = intersection a (not_lazy a) in
      let vb =
        narrow_if-Narrows c arg nargs after_force true a (not_lazy a) v (not_lazy-IsType a v) in
      let hb =
        step true a (not_lazy a) v (not_lazy-IsType a v) h (λ _. Covers-not_lazy a x v w h n) in
      let m = not_missing b in
      let vm = not_missing-IsType b vb.valid in
      let vo = not_object-IsType m vm in
      let vd =
        narrow_if-Narrows c arg nargs after_force (is_fact not_obj c arg) b (not_object m) vb.valid
          vo in
      let hd = step (is_fact not_obj c arg) b (not_object m) vb.valid vo hb (λ p.
        Covers-not_object m x vm w (Covers-not_missing b x vb.valid w hb (k.plain p).1)
          (k.plain p).0) in
      let ve =
        narrow_if-Narrows c arg nargs after_force (is_fact simple_real c arg) _ promised_real
          vd.valid promised_real-IsType in
      let he =
        step (is_fact simple_real c arg) _ promised_real vd.valid promised_real-IsType hd
          (λ p. real-Covers x w (k.real p)) in
      step (is_fact simple_int c arg) _ promised_int ve.valid promised_int-IsType he
        (λ p. int-Covers x w (k.int p))

  pub narrowed-Covers :
      (a : PirType) → IsType a → Covers a x → Covers (narrowed c arg nargs after_force a) x
  unfolding narrowed
  narrowed-Covers a v h =
      let vm = missing-Narrows c arg nargs after_force a v in
      let ve = eager-Narrows c arg nargs after_force _ vm.valid in
      let vf = forced-Narrows c arg nargs after_force _ ve.valid in
      let all = forced-Covers _ ve.valid (eager-Covers _ vm.valid (missing-Covers a v h)) in
      elim (Bool-cases (is_fact eager c arg || after_force)) [
        | inl e ↦ rw e (value-Covers _ vf.valid all (ground (arith, k.value, k.forced, e)))
        | inr e ↦ rw e all
      ]
