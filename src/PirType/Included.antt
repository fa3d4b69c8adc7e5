-- ===== src/PirType/Included.antt =====
-- rir/src/compiler/pir/type.cpp, `merge`: the type includes what was observed of a value.
use rir.Prelude.{
  ℕ, ◌^◌, ◌<◌, ◌≡◌, ◌∙◌, refl, Bool, true, false, ◌||◌, some, List, [], ◌∷◌, ◌==◌, arith,
  Bool-cases, inl, inr, map, get_elem?, eq_of_some, zero, suc, not,
}
use rir.Prelude.Bits.{bit, bit_above}
use rir.Prelude.Bits.Bound.{lt_of_bits}
use rir.Prelude.Bits.Subset.{Subset}
use rir.Prelude.Distinct.{take}
use rir.EnumSet
use rir.EnumSet.Laws.{bit-set}
use rir.TypeFeedback.{ObservedValues, max_types}
use rir.PirType.{PirType, TypeFlag, flag_code, RType, rtype_code, rtype_set, is_super}
use rir.PirType.TypeFlag.{
  lazy, promise_wrapped, maybe_not_scalar, maybe_object, maybe_not_fast_vecelt, maybe_attrib,
  maybe_na_or_nan,
}
use rir.PirType.Flags.{IsType, has, rtype_set-IsEnum, flag_code-le}
use rir.PirType.Order.{is_super_iff}
use rir.PirType.Named.{any, or_sexp_types}
use rir.PirType.Observed.{
  SexpType, rtype_of, set_flag, set_if, merge_type, merge_types, merge_flags, merge_observed,
}
use mathlib.Core.Path.{subst}
use rir.PirType.Observed.SexpType.{promsxp}
use rir.PirType.Widen.{
  Widens, Widens_trans, Widens-Covers, merge_type-Widens, merge_types-Widens, set_if-Widens,
  or_sexp_types-Widens, set_flag-Widens, bit-set_flag, rtype_code-bounds,
}

-- Which types of R values are of which element, by R's names for them.
pub data Shows : SexpType → RType → Type 0 where
  nilsxp_shown : Shows SexpType.nilsxp RType.nil
  symsxp_shown : Shows SexpType.symsxp RType.sym
  listsxp_shown : Shows SexpType.listsxp RType.list
  closxp_shown : Shows SexpType.closxp RType.closure
  specialsxp_shown : Shows SexpType.specialsxp RType.special
  builtinsxp_shown : Shows SexpType.builtinsxp RType.builtin
  envsxp_shown : Shows SexpType.envsxp RType.env
  exprsxp_shown : Shows SexpType.exprsxp RType.ast
  langsxp_shown : Shows SexpType.langsxp RType.code
  charsxp_shown : Shows SexpType.charsxp RType.chr
  lglsxp_shown : Shows SexpType.lglsxp RType.logical
  intsxp_shown : Shows SexpType.intsxp RType.integer
  realsxp_shown : Shows SexpType.realsxp RType.real
  strsxp_shown : Shows SexpType.strsxp RType.str
  vecsxp_shown : Shows SexpType.vecsxp RType.vec
  rawsxp_shown : Shows SexpType.rawsxp RType.raw
  bcodesxp_shown : Shows SexpType.bcodesxp RType.code
  externalsxp_shown : Shows SexpType.externalsxp RType.code
  cplxsxp_shown : Shows SexpType.cplxsxp RType.cplx
  dotsxp_shown : Shows SexpType.dotsxp RType.dots
  anysxp_shown : Shows SexpType.anysxp RType.other
  extptrsxp_shown : Shows SexpType.extptrsxp RType.other
  weakrefsxp_shown : Shows SexpType.weakrefsxp RType.other
  s4sxp_shown : Shows SexpType.s4sxp RType.other

-- A type includes the values of a type of R: it has their element, or it may be a lazy promise of
-- any value.
pub data Included (b : PirType) : SexpType → Type 0 where
  member : {s : SexpType} (r : RType) → Shows s r → bit b.t (rtype_code r) ≡ true → Included b s
  promise : has b lazy ≡ true → has b promise_wrapped ≡ true → Subset any.t b.t → Included b promsxp

Included_mono : (b a : PirType) {s : SexpType} → Widens b a → Included a s → Included b s
Included_mono b a w (member r k m) = member r k (w.more_members (rtype_code r) m)
Included_mono b a w (promise l p t) =
    promise (w.more_flags lazy l) (w.more_flags promise_wrapped p) (λ i h. w.more_members i (t i h))

set_member-bit :
    (a : PirType) (r : RType)
    → IsType a
    → bit (EnumSet.set rtype_set a.t (rtype_code r)) (rtype_code r) ≡ true
set_member-bit a r v = ground (
  arith,
  bit-set rtype_set rtype_set-IsEnum a.t (rtype_code r) (rtype_code r) v.t_lt
      (rtype_code-bounds r).1,
)

set_flag-lt : (a : PirType) (f : TypeFlag) → IsType a → (set_flag a f).flags < 2 ^ 16
set_flag-lt a f v = lt_of_bits 16 _ (λ i le.
    bit-set_flag a f i v.flags_lt
    ∙ ground (arith, flag_code-le f, bit_above 16 a.flags i v.flags_lt))

merge_type-Included : (s : SexpType) (a : PirType) → IsType a → Included (merge_type s a) s
unfolding merge_type rtype_of
merge_type-Included promsxp a v =
    let first : (set_flag a promise_wrapped).flags < 2 ^ 16 = (set_flag-lt a promise_wrapped v) in
    promise (ground (arith, bit-set_flag (set_flag a promise_wrapped) lazy 1 first))
      (ground (
        arith,
        bit-set_flag (set_flag a promise_wrapped) lazy 2 first,
        bit-set_flag a promise_wrapped 2 v.flags_lt,
      ))
      (λ i h. h)
merge_type-Included SexpType.nilsxp a v =
    member RType.nil nilsxp_shown (set_member-bit a RType.nil v)
merge_type-Included SexpType.symsxp a v =
    member RType.sym symsxp_shown (set_member-bit a RType.sym v)
merge_type-Included SexpType.listsxp a v =
    member RType.list listsxp_shown (set_member-bit a RType.list v)
merge_type-Included SexpType.closxp a v =
    member RType.closure closxp_shown (set_member-bit a RType.closure v)
merge_type-Included SexpType.specialsxp a v =
    member RType.special specialsxp_shown (set_member-bit a RType.special v)
merge_type-Included SexpType.builtinsxp a v =
    member RType.builtin builtinsxp_shown (set_member-bit a RType.builtin v)
merge_type-Included SexpType.envsxp a v =
    member RType.env envsxp_shown (set_member-bit a RType.env v)
merge_type-Included SexpType.exprsxp a v =
    member RType.ast exprsxp_shown (set_member-bit a RType.ast v)
merge_type-Included SexpType.langsxp a v =
    member RType.code langsxp_shown (set_member-bit a RType.code v)
merge_type-Included SexpType.charsxp a v =
    member RType.chr charsxp_shown (set_member-bit a RType.chr v)
merge_type-Included SexpType.lglsxp a v =
    member RType.logical lglsxp_shown (set_member-bit a RType.logical v)
merge_type-Included SexpType.intsxp a v =
    member RType.integer intsxp_shown (set_member-bit a RType.integer v)
merge_type-Included SexpType.realsxp a v =
    member RType.real realsxp_shown (set_member-bit a RType.real v)
merge_type-Included SexpType.strsxp a v =
    member RType.str strsxp_shown (set_member-bit a RType.str v)
merge_type-Included SexpType.vecsxp a v =
    member RType.vec vecsxp_shown (set_member-bit a RType.vec v)
merge_type-Included SexpType.rawsxp a v =
    member RType.raw rawsxp_shown (set_member-bit a RType.raw v)
merge_type-Included SexpType.bcodesxp a v =
    member RType.code bcodesxp_shown (set_member-bit a RType.code v)
merge_type-Included SexpType.externalsxp a v =
    member RType.code externalsxp_shown (set_member-bit a RType.code v)
merge_type-Included SexpType.cplxsxp a v =
    member RType.cplx cplxsxp_shown (set_member-bit a RType.cplx v)
merge_type-Included SexpType.dotsxp a v =
    member RType.dots dotsxp_shown (set_member-bit a RType.dots v)
merge_type-Included SexpType.anysxp a v =
    member RType.other anysxp_shown (set_member-bit a RType.other v)
merge_type-Included SexpType.extptrsxp a v =
    member RType.other extptrsxp_shown (set_member-bit a RType.other v)
merge_type-Included SexpType.weakrefsxp a v =
    member RType.other weakrefsxp_shown (set_member-bit a RType.other v)
merge_type-Included SexpType.s4sxp a v =
    member RType.other s4sxp_shown (set_member-bit a RType.other v)

merge_types-Included :
    (numbered : ℕ → SexpType) (k : ℕ) (seen : List ℕ) (i n : ℕ) (a : PirType)
    → i < k
    → get_elem? seen i ≡ some n
    → IsType a
    → Subset a.t any.t
    → Included (merge_types (map numbered (take k seen)) a) (numbered n)
unfolding merge_types
merge_types-Included numbered zero seen i n a l e v w = absurd (omega (arith, l))
merge_types-Included numbered (suc k) [] i n a l e v w = absurd (cc)
merge_types-Included numbered (suc k) (m ∷ seen) zero n a l e v w =
    let x = merge_type-Widens (numbered m) a v w in
    let y =
      merge_types-Widens (map numbered (take k seen)) (merge_type (numbered m) a) x.valid
        x.within in
    subst (λ j. Included (merge_types (map numbered (take (suc k) (m ∷ seen))) a) (numbered j))
      (eq_of_some e)
      (Included_mono _ (merge_type (numbered m) a) y (merge_type-Included (numbered m) a v))
merge_types-Included numbered (suc k) (m ∷ seen) (suc i) n a l e v w =
    let x = merge_type-Widens (numbered m) a v w in
    merge_types-Included numbered k seen i n (merge_type (numbered m) a) (omega arith) e x.valid
      x.within

set_if-has :
    (b : Bool) (f : TypeFlag) (a : PirType) → IsType a → (not b || has (set_if b f a) f) ≡ true
unfolding set_if
set_if-has true f a v = ground (arith, bit-set_flag a f (flag_code f) v.flags_lt)
set_if-has false f a v = refl

-- The flags that were observed are those of the type; one that may be a vector may have NA in it.
pub record HasFlags (o : ObservedValues) (b : PirType) : Type 0 where
  pub attribs : (not o.attribs || has b maybe_attrib) ≡ true
  pub not_scalar : (not o.not_scalar || has b maybe_not_scalar) ≡ true
  pub object : (not o.object || has b maybe_object) ≡ true
  pub not_fast_vecelt : (not o.not_fast_vecelt || has b maybe_not_fast_vecelt) ≡ true
  pub na_or_nan : has b maybe_na_or_nan ≡ true

still :
    (x : Bool) (f : TypeFlag) (b a : PirType)
    → Widens b a
    → (not x || has a f) ≡ true
    → (not x || has b f) ≡ true
still x f b a w h = ground (arith, w.more_flags f, h)

HasFlags_mono : (o : ObservedValues) (b a : PirType) → Widens b a → HasFlags o a → HasFlags o b
HasFlags_mono o b a w h = record {
  attribs = still o.attribs maybe_attrib b a w h.attribs;
  not_scalar = still o.not_scalar maybe_not_scalar b a w h.not_scalar;
  object = still o.object maybe_object b a w h.object;
  not_fast_vecelt = still o.not_fast_vecelt maybe_not_fast_vecelt b a w h.not_fast_vecelt;
  na_or_nan = w.more_flags maybe_na_or_nan h.na_or_nan;
}

merge_flags_lem :
    (o : ObservedValues) (a : PirType)
    → IsType a
    → Subset a.t any.t
    → Widens (merge_flags o a) a × HasFlags o (merge_flags o a)
unfolding merge_flags
merge_flags_lem o a v w =
    let b = set_if o.attribs maybe_attrib a in
    let d = set_if o.not_scalar maybe_not_scalar b in
    let e = set_if o.object maybe_object d in
    let f = set_if o.not_fast_vecelt maybe_not_fast_vecelt e in
    let g = set_flag f maybe_na_or_nan in
    let x = set_if-Widens o.attribs maybe_attrib a v w refl in
    let y = set_if-Widens o.not_scalar maybe_not_scalar b x.valid x.within refl in
    let z = set_if-Widens o.object maybe_object d y.valid y.within refl in
    let u = set_if-Widens o.not_fast_vecelt maybe_not_fast_vecelt e z.valid z.within refl in
    let r = set_flag-Widens f maybe_na_or_nan u.valid u.within (λ h. absurd (ground (arith, h))) in
    let from_e = Widens_trans g f e r u in
    let from_d = Widens_trans g e d from_e z in
    let from_b = Widens_trans g d b from_d y in
    (
      Widens_trans g b a from_b x,
      record {
        attribs = still o.attribs maybe_attrib g b from_b (set_if-has o.attribs maybe_attrib a v);
        not_scalar =
            still o.not_scalar maybe_not_scalar g d from_d
              (set_if-has o.not_scalar maybe_not_scalar b x.valid);
        object =
            still o.object maybe_object g e from_e (set_if-has o.object maybe_object d y.valid);
        not_fast_vecelt =
            still o.not_fast_vecelt maybe_not_fast_vecelt g f r
              (set_if-has o.not_fast_vecelt maybe_not_fast_vecelt e z.valid);
        na_or_nan = ground (arith, bit-set_flag f maybe_na_or_nan 7 u.valid.flags_lt);
      },
    )

-- The type that observed values are merged into includes what was observed: each type of R values
-- that was seen, and the flags that were noted. It is a well-formed type above the one before, if
-- that was a type of R with no member that `any` has not.
pub merge_observed_includes :
    (numbered : ℕ → SexpType) (o : ObservedValues) (a : PirType) (i n : ℕ)
    → IsType a
    → Subset a.t any.t
    → i < o.num_types
    → get_elem? o.seen i ≡ some n
    → Included (merge_observed numbered o a) (numbered n)
      × HasFlags o (merge_observed numbered o a)
      × IsType (merge_observed numbered o a)
      × (is_super (merge_observed numbered o a) a ≡ true)
unfolding merge_observed
merge_observed_includes numbered o a i n v w l s =
    let d = merge_flags o a in
    let b = merge_types (map numbered (take o.num_types o.seen)) d in
    let (x, flags) = merge_flags_lem o a v w in
    let y = merge_types-Widens (map numbered (take o.num_types o.seen)) d x.valid x.within in
    let seen = merge_types-Included numbered o.num_types o.seen i n d l s x.valid x.within in
    let all = Widens_trans b d a y x in
    let kept = HasFlags_mono o b d y flags in
    elim (Bool-cases (o.num_types == max_types)) [
      | inl e ↦
          let q = or_sexp_types-Widens b all.valid all.within in
          let z = Widens_trans (or_sexp_types b any) b a q all in
          rw e (
            Included_mono (or_sexp_types b any) b q seen,
            HasFlags_mono o (or_sexp_types b any) b q kept,
            z.valid,
            (is_super_iff _ a z.valid.kind v.kind).1 (Widens-Covers _ a v z),
          )
      | inr m ↦ rw m (
        seen,
        kept,
        all.valid,
        (is_super_iff b a all.valid.kind v.kind).1 (Widens-Covers b a v all),
      )
    ]
