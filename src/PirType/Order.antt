-- ===== src/PirType/Order.antt =====
-- rir/src/compiler/pir/type.h, `isSuper` and `isA`: an order of the types of R.
use rir.Prelude.{
  ◌≡◌, ◌↔◌, ◌∙◌, refl, sym, Bool, true, false, not, ◌&&◌, ◌||◌, arith, Bool-cases, inl, inr,
  if◌then◌else◌, ◌≢◌,
}
use rir.Prelude.Bits.Subset.{Subset}
use rir.EnumSet
use rir.EnumSet.Laws.{includes_iff}
use rir.PirType.{PirType, TypeFlag, is_super, not_missing}
use rir.PirType.TypeFlag.{
  lazy, promise_wrapped, maybe_not_scalar, maybe_object, maybe_not_fast_vecelt, maybe_attrib,
  maybe_na_or_nan, maybe_missing, rtype,
}
use rir.PirType.Flags.{IsType, has, wrapped, is_rtype_lem, predicates}

-- Every property that values of type `b` may have, values of type `a` may have.
pub record Covers (a b : PirType) : Type 0 where
  pub lazily : has b lazy ≡ true → has a lazy ≡ true
  pub wrappedly : wrapped b ≡ true → wrapped a ≡ true
  pub objects : has b maybe_object ≡ true → has a maybe_object ≡ true
  pub vecelts : has b maybe_not_fast_vecelt ≡ true → has a maybe_not_fast_vecelt ≡ true
  pub attribs : has b maybe_attrib ≡ true → has a maybe_attrib ≡ true
  pub nans : has b maybe_na_or_nan ≡ true → has a maybe_na_or_nan ≡ true
  pub vectors : has b maybe_not_scalar ≡ true → has a maybe_not_scalar ≡ true
  pub missings : has b maybe_missing ≡ true → has a maybe_missing ≡ true
  pub members : Subset (not_missing b).t (not_missing a).t

-- The test of the flags, in the flags themselves.
abbrev exceeds : PirType → PirType → Bool
exceeds a b =
    (not (has a lazy) && has b lazy)
    || (not (wrapped a) && wrapped b)
    || (not (has a maybe_object) && has b maybe_object)
    || (not (has a maybe_not_fast_vecelt) && has b maybe_not_fast_vecelt)
    || (not (has a maybe_attrib) && has b maybe_attrib)
    || (not (has a maybe_na_or_nan) && has b maybe_na_or_nan)
    || (not (has a maybe_not_scalar) && has b maybe_not_scalar)
    || (not (has a maybe_missing) && has b maybe_missing)

false-neq-true : ◌≢◌ {A = Bool} false true
false-neq-true = λ h. cc

or-false : (x y : Bool) → (x || y) ≡ false → (x ≡ false) × (y ≡ false)
or-false true y h = absurd (cc)
or-false false y h = (refl, h)

implies : (x y : Bool) → (not x && y) ≡ false → y ≡ true → x ≡ true
implies x y h k = ground arith

implied : (x y : Bool) → (y ≡ true → x ≡ true) → (not x && y) ≡ false
implied true y h = refl
implied false true h = absurd (cc (h refl))
implied false false h = refl

module _ (a b : PirType) (v : has a rtype ≡ true) (w : has b rtype ≡ true) where
  is_super_lem :
      is_super a b
      ≡ (if exceeds a b then false else EnumSet.includes (not_missing a).t (not_missing b).t)
  unfolding is_super
  is_super_lem =
      let (a₁, a₂, a₃, a₄, a₅, a₆, a₇, a₈) = predicates a v in
      let (b₁, b₂, b₃, b₄, b₅, b₆, b₇, b₈) = predicates b w in
      rw
        (
          is_rtype_lem a v,
          is_rtype_lem b w,
          a₁,
          a₂,
          a₃,
          a₄,
          a₅,
          a₆,
          a₇,
          a₈,
          b₁,
          b₂,
          b₃,
          b₄,
          b₅,
          b₆,
          b₇,
          b₈,
        )
        (ground arith)

  is_super-Covers : is_super a b ≡ true → Covers a b
  is_super-Covers h = elim (Bool-cases (exceeds a b)) [
    | inl y ↦ absurd (false-neq-true (rw y at (sym is_super_lem ∙ h)))
    | inr n ↦
        let members = rw n at (sym is_super_lem ∙ h) in
        let (n₇, x₈) = or-false _ _ n in
        let (n₆, x₇) = or-false _ _ n₇ in
        let (n₅, x₆) = or-false _ _ n₆ in
        let (n₄, x₅) = or-false _ _ n₅ in
        let (n₃, x₄) = or-false _ _ n₄ in
        let (n₂, x₃) = or-false _ _ n₃ in
        let (x₁, x₂) = or-false _ _ n₂ in
        record {
          lazily = implies _ _ x₁;
          wrappedly = implies _ _ x₂;
          objects = implies _ _ x₃;
          vecelts = implies _ _ x₄;
          attribs = implies _ _ x₅;
          nans = implies _ _ x₆;
          vectors = implies _ _ x₇;
          missings = implies _ _ x₈;
          members = (includes_iff _ _).0 members;
        }
  ]

  Covers-is_super : Covers a b → is_super a b ≡ true
  Covers-is_super c =
      is_super_lem
      ∙ rw
          (
            implied _ _ c.lazily,
            implied _ _ c.wrappedly,
            implied _ _ c.objects,
            implied _ _ c.vecelts,
            implied _ _ c.attribs,
            implied _ _ c.nans,
            implied _ _ c.vectors,
            implied _ _ c.missings,
          )
          ((includes_iff _ _).1 c.members)

  -- `isSuper` compares what the types allow: that values are lazy, in promises, objects, have
  -- attributes, and so on, and of which types they are, but for the missing value.
  pub is_super_iff : (is_super a b ≡ true) ↔ Covers a b
  is_super_iff = (is_super-Covers, Covers-is_super)

pub Covers_refl : (a : PirType) → Covers a a
Covers_refl a = record {
  lazily = λ h. h;
  wrappedly = λ h. h;
  objects = λ h. h;
  vecelts = λ h. h;
  attribs = λ h. h;
  nans = λ h. h;
  vectors = λ h. h;
  missings = λ h. h;
  members = λ i h. h;
}

pub Covers_trans : (a b c : PirType) → Covers a b → Covers b c → Covers a c
Covers_trans a b c h k = record {
  lazily = λ x. h.lazily (k.lazily x);
  wrappedly = λ x. h.wrappedly (k.wrappedly x);
  objects = λ x. h.objects (k.objects x);
  vecelts = λ x. h.vecelts (k.vecelts x);
  attribs = λ x. h.attribs (k.attribs x);
  nans = λ x. h.nans (k.nans x);
  vectors = λ x. h.vectors (k.vectors x);
  missings = λ x. h.missings (k.missings x);
  members = λ i x. h.members i (k.members i x);
}

-- It is enough to compare all flags and the members.
pub Covers_of :
    (a b : PirType)
    → ((f : TypeFlag) → has b f ≡ true → has a f ≡ true)
    → Subset (not_missing b).t (not_missing a).t
    → Covers a b
Covers_of a b h k = record {
  lazily = h lazy;
  wrappedly = λ x. ground (arith, h lazy, h promise_wrapped, x);
  objects = h maybe_object;
  vecelts = h maybe_not_fast_vecelt;
  attribs = h maybe_attrib;
  nans = h maybe_na_or_nan;
  vectors = h maybe_not_scalar;
  missings = h maybe_missing;
  members = k;
}

-- `isSuper` is reflexive and transitive on the types of R.
pub is_super_preorder :
    (a b c : PirType)
    → IsType a
    → IsType b
    → IsType c
    → (is_super a a ≡ true) × (is_super a b ≡ true → is_super b c ≡ true → is_super a c ≡ true)
is_super_preorder a b c v w x = (
  (is_super_iff a a v.kind v.kind).1 (Covers_refl a),
  λ h k. (is_super_iff a c v.kind x.kind).1 (
      Covers_trans a b c ((is_super_iff a b v.kind w.kind).0 h)
        ((is_super_iff b c w.kind x.kind).0 k)),
)

pub and_true : (x y : Bool) → (x && y) ≡ true → (x ≡ true) × (y ≡ true)
and_true true true h = (refl, refl)
and_true true false h = absurd (false-neq-true h)
and_true false y h = absurd (false-neq-true h)
