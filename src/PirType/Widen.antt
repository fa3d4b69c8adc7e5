-- ===== src/PirType/Widen.antt =====
-- rir/src/compiler/pir/type.cpp, `merge`: what was observed of a value only
-- widens its type.
use rir.Prelude.{
  ℕ, ◌^◌, ◌<◌, ◌≤◌, ◌≡◌, ◌∙◌, refl, Bool, true, false, ◌&&◌, ◌||◌, some, List, [], ◌∷◌, ◌==◌, arith,
  inl, inr, Option-cases,
}
use rir.Prelude.Bits.{bit, bit_above, bit-bit_or}
use rir.Prelude.Bits.Bound.{bit_or-lt, lt_of_bits}
use rir.Prelude.Bits.Subset.{Subset}
use rir.EnumSet
use rir.EnumSet.Laws.{bit-set}
use rir.PirType.{
  PirType, TypeFlag, flag_code, flag_set, RType, rtype_code, rtype_set, make,
  ensure_missing_invariant,
}
use rir.PirType.TypeFlag.{lazy, promise_wrapped}
use rir.PirType.Flags.{
  IsType, has, wrapped, flag_set-IsEnum, rtype_set-IsEnum, bit-not_missing, flag_code-le,
  forces_missing, bits-ensure,
}
use rir.PirType.Any.{bit-any, any-IsType}
use rir.PirType.Order.{Covers, Covers_of}
use rir.PirType.Narrow.{ensure-IsType}
use rir.PirType.Named.{any, or_sexp_types}
use rir.PirType.Observed.{SexpType, rtype_of, set_flag, set_if, merge_type, merge_types}

-- A type with more flags and members, of the members that `any` has.
pub record Widens (b a : PirType) : Type 0 where
  pub more_flags : (f : TypeFlag) → has a f ≡ true → has b f ≡ true
  pub more_members : Subset a.t b.t
  pub valid : IsType b
  pub within : Subset b.t any.t

pub Widens_trans : (d b a : PirType) → Widens d b → Widens b a → Widens d a
Widens_trans d b a h k = record {
  more_flags = λ f x. h.more_flags f (k.more_flags f x);
  more_members = λ i x. h.more_members i (k.more_members i x);
  valid = h.valid;
  within = h.within;
}

wrapped-Widens : (b a : PirType) → Widens b a → wrapped a ≡ true → wrapped b ≡ true
wrapped-Widens b a h w = ground (arith, h.more_flags promise_wrapped, h.more_flags lazy, w)

pub Widens-Covers : (b a : PirType) → IsType a → Widens b a → Covers b a
Widens-Covers b a v h = Covers_of b a h.more_flags (λ i x. ground (
  arith,
  bit-not_missing b h.valid.flags_lt h.valid.t_lt h.valid.kind i,
  bit-not_missing a v.flags_lt v.t_lt v.kind i,
  wrapped-Widens b a h,
  h.more_members i,
  x,
))

t-set_flag : (a : PirType) (f : TypeFlag) → (set_flag a f).t ≡ a.t
unfolding set_flag
t-set_flag a f = refl

pub bit-set_flag :
    (a : PirType) (f : TypeFlag) (i : ℕ)
    → a.flags < 2 ^ 16
    → bit (set_flag a f).flags i ≡ ((flag_code f == i) || bit a.flags i)
unfolding set_flag
bit-set_flag a f i l = bit-set flag_set flag_set-IsEnum a.flags (flag_code f) i l (flag_code-le f)

pub set_flag-Widens :
    (a : PirType) (f : TypeFlag)
    → IsType a
    → Subset a.t any.t
    → (lazy_first : (flag_code f == 1) ≡ true → has a promise_wrapped ≡ true)
    → Widens (set_flag a f) a
set_flag-Widens a f v w l = record {
  more_flags = λ g h. ground (arith, flags (flag_code g), h);
  more_members = λ i h. ground (arith, t-set_flag a f, h);
  valid = record {
    flags_lt =
        lt_of_bits 16 _
          (λ i le. flags i ∙ ground (arith, flag_code-le f, bit_above 16 a.flags i v.flags_lt));
    t_lt = rw (t-set_flag a f) v.t_lt;
    kind = ground (arith, flags 9, v.kind);
    laziness = λ h. ground (arith, flags 1, flags 2, v.laziness, l, h);
  };
  within = rw (t-set_flag a f) w;
}
  where
    flags : (i : ℕ) → bit (set_flag a f).flags i ≡ ((flag_code f == i) || bit a.flags i)
    flags i = bit-set_flag a f i v.flags_lt

pub Widens_refl : (a : PirType) → IsType a → Subset a.t any.t → Widens a a
Widens_refl a v w = record { more_flags = λ f h. h; more_members = λ i h. h; valid = v; within = w }

pub rtype_code-bounds : (r : RType) → (1 ≤ rtype_code r) × (rtype_code r ≤ 24)
rtype_code-bounds r = ground arith

rtype_of-known : (s : SexpType) (r : RType) → rtype_of s ≡ some r → (23 == rtype_code r) ≡ false
unfolding rtype_of
rtype_of-known s r h = ground (arith, h)

-- One more member.
set_member-Widens :
    (a : PirType) (e : ℕ)
    → IsType a
    → Subset a.t any.t
    → 1 ≤ e
    → e ≤ 24
    → (23 == e) ≡ false
    → Widens (record a { t = EnumSet.set rtype_set a.t e }) a
set_member-Widens a e v w l u known = record {
  more_flags = λ g h. h;
  more_members = λ i h. ground (arith, members i, h);
  valid = record {
    flags_lt = v.flags_lt;
    t_lt = lt_of_bits 32 _ (λ i le. members i ∙ ground (arith, bit_above 32 a.t i v.t_lt));
    kind = v.kind;
    laziness = v.laziness;
  };
  within = λ i h. ground (arith, members i, h, w i, bit-any i, known, l, u);
}
  where
    members : (i : ℕ) → bit (EnumSet.set rtype_set a.t e) i ≡ ((e == i) || bit a.t i)
    members i = bit-set rtype_set rtype_set-IsEnum a.t e i v.t_lt (omega arith)

promise-Widens :
    (a : PirType)
    → IsType a
    → Subset a.t any.t
    → Widens (record (set_flag (set_flag a promise_wrapped) lazy) { t = any.t }) a
promise-Widens a v w =
    let x = set_flag-Widens a promise_wrapped v w (λ h. absurd (ground (arith, h))) in
    let y =
      set_flag-Widens (set_flag a promise_wrapped) lazy x.valid x.within
        (λ h. ground (arith, bit-set_flag a promise_wrapped 2 v.flags_lt)) in
    record {
      more_flags = (Widens_trans _ _ a y x).more_flags;
      more_members = w;
      valid = record {
        flags_lt = y.valid.flags_lt;
        t_lt = any-IsType.t_lt;
        kind = y.valid.kind;
        laziness = y.valid.laziness;
      };
      within = λ i h. h;
    }

pub merge_type-Widens :
    (s : SexpType) (a : PirType) → IsType a → Subset a.t any.t → Widens (merge_type s a) a
unfolding merge_type
merge_type-Widens s a v w = elim (Option-cases (rtype_of s)) [
  | inl e ↦ rw (e, merge_type) (promise-Widens a v w)
  | inr (r, e) ↦
      rw (e, merge_type)
        (set_member-Widens a (rtype_code r) v w (rtype_code-bounds r).0 (rtype_code-bounds r).1
          (rtype_of-known s r e))
]

pub merge_types-Widens :
    (seen : List SexpType) (a : PirType)
    → IsType a
    → Subset a.t any.t
    → Widens (merge_types seen a) a
unfolding merge_types
merge_types-Widens [] a v w = Widens_refl a v w
merge_types-Widens (s ∷ seen) a v w =
    let x = merge_type-Widens s a v w in
    Widens_trans (merge_types seen (merge_type s a)) _ a
      (merge_types-Widens seen (merge_type s a) x.valid x.within) x

pub set_if-Widens :
    (b : Bool) (f : TypeFlag) (a : PirType)
    → IsType a
    → Subset a.t any.t
    → (flag_code f == 1) ≡ false
    → Widens (set_if b f a) a
unfolding set_if
set_if-Widens true f a v w l = set_flag-Widens a f v w (λ h. absurd (cc))
set_if-Widens false f a v w l = Widens_refl a v w

pub or_sexp_types-Widens :
    (a : PirType) → IsType a → Subset a.t any.t → Widens (or_sexp_types a any) a
unfolding or_sexp_types make
or_sexp_types-Widens a v w = record {
  more_flags = λ g h. ground (arith, (bits (flag_code g)).0, h);
  more_members = λ i h. ground (arith, (bits i).1, members i, h);
  valid = ensure-IsType both both-IsType;
  within = λ i h. ground (arith, (bits i).1, members i, h, w i, bit-any i, bit-any 16);
}
  where
    both : PirType
    both = record { flags = a.flags; t = EnumSet.union a.t any.t }

    members : (i : ℕ) → bit (EnumSet.union a.t any.t) i ≡ (bit a.t i || bit any.t i)
    members i = unfold EnumSet.union in ground (arith, bit-bit_or any.t a.t i)

    both-IsType : IsType both
    both-IsType = record {
      flags_lt = v.flags_lt;
      t_lt = unfold EnumSet.union in bit_or-lt 32 any.t a.t any-IsType.t_lt v.t_lt;
      kind = v.kind;
      laziness = v.laziness;
    }

    bits :
        (i : ℕ)
        → (bit (ensure_missing_invariant both).flags i
            ≡ ((forces_missing both && 8 == i) || bit both.flags i))
          × (bit (ensure_missing_invariant both).t i
              ≡ ((forces_missing both && 16 == i) || bit both.t i))
    bits i = bits-ensure both i v.flags_lt both-IsType.t_lt
