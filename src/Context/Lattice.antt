-- ===== src/Context/Lattice.antt =====
-- `operator&` and `operator|` of the contexts as bounds in the order `smaller`.
use rir.Prelude.{
  ℕ, ◌≤◌, ◌^◌, ◌≡◌, refl, true, not, ◌&&◌, ◌||◌, some, arith, ltb, leb, ◌==◌, if◌then◌else◌,
}
use rir.Prelude.Bits.{bit, bit-bit_and, bit-bit_or, bit-two_pow, bit_above}
use rir.EnumSet
use rir.EnumSet.Laws.{bit-negation}
use rir.Context.{
  no_explicitly_missing_args, not_too_many_arguments, flags_enum, Context, IsContext, meet, join,
}
use rir.Context.Flags.{has, contains_flag, flags_enum-IsEnum}
use rir.Context.Smaller.{IsSmaller}

bit-intersection : (s t i : ℕ) → bit (EnumSet.intersection s t) i ≡ (bit t i && bit s i)
unfolding EnumSet.intersection
bit-intersection s t i = bit-bit_and t s i

bit-union : (s t i : ℕ) → bit (EnumSet.union s t) i ≡ (bit t i || bit s i)
unfolding EnumSet.union
bit-union s t i = bit-bit_or t s i

abbrev others : ℕ
others = EnumSet.negation flags_enum (EnumSet.singleton flags_enum 0)

-- The mask keeps every declared flag but NoExplicitlyMissingArgs.
bit-others : (i : ℕ) → bit others i ≡ (leb i 3 && not (0 == i))
bit-others i =
    let e : EnumSet.singleton flags_enum 0 ≡ 2 ^ 0 = unfold EnumSet.singleton in refl in
    rw e
      (ground (arith, bit-negation flags_enum flags_enum-IsEnum 1 i (omega arith), bit-two_pow 0 i))

module _ (a b : Context) where
  -- A flag of `a & b` is a flag of both, and NoExplicitlyMissingArgs only at equal counts.
  meet_flag :
      (i : ℕ)
      → bit (meet a b).flags i ≡ true
      → (bit a.flags i ≡ true) × (bit b.flags i ≡ true) × ((0 == i) ≡ true → a.missing ≡ b.missing)
  unfolding meet
  meet_flag i h = ground (
    arith,
    bit-intersection b.flags a.flags i,
    bit-intersection (EnumSet.intersection b.flags a.flags) others i,
    bit-others i,
  )

  meet_type :
      (i : ℕ)
      → bit (meet a b).type_flags i ≡ true
      → (bit a.type_flags i ≡ true) × (bit b.type_flags i ≡ true)
  unfolding meet
  meet_type i h = ground (arith, bit-intersection b.type_flags a.type_flags i)

  meet_missing : ((meet a b).missing ≤ a.missing) × ((meet a b).missing ≤ b.missing)
  unfolding meet
  meet_missing = ground arith

  -- `a & b` assumes no more than `a`, and no more than `b`.
  pub meet_upper : IsSmaller a (meet a b) × IsSmaller b (meet a b)
  meet_upper = (
    record {
      not_more = λ p. meet_missing.0;
      not_fewer = λ p. same_left ((meet_flag 0 p).2 refl);
      flags = λ i p. (meet_flag i p).0;
      types = λ i p. (meet_type i p).0;
    },
    record {
      not_more = λ p. meet_missing.1;
      not_fewer = λ p. same_right ((meet_flag 0 p).2 refl);
      flags = λ i p. (meet_flag i p).1;
      types = λ i p. (meet_type i p).1;
    },
  )
    where
      same_left : a.missing ≡ b.missing → a.missing ≤ (meet a b).missing
      same_left e = unfold meet in ground arith

      same_right : a.missing ≡ b.missing → b.missing ≤ (meet a b).missing
      same_right e = unfold meet in ground arith

-- `a & b` assumes no more than `a` and no more than `b`, and among the well-formed contexts that
-- exclude too many arguments it is the least such: it is smaller than any `c` that both are smaller
-- than.
pub meet_least :
    (a b c : Context)
    → IsContext c
    → has c.flags not_too_many_arguments ≡ true
    → IsSmaller a c
    → IsSmaller b c
    → IsSmaller a (meet a b) × IsSmaller b (meet a b) × IsSmaller (meet a b) c
unfolding meet
meet_least a b c v t h k = (
  (meet_upper a b).0,
  (meet_upper a b).1,
  record {
    not_more = λ p. ground (arith, h.not_more p, k.not_more p);
    not_fewer = λ p. ground (arith, h.not_fewer p, k.not_fewer p);
    flags = λ i p. ground (
      arith,
      h.flags i p,
      k.flags i p,
      bit-intersection b.flags a.flags i,
      bit-intersection (EnumSet.intersection b.flags a.flags) others i,
      bit-others i,
      bit_above 4 c.flags i v.flags_lt,
      h.not_more,
      k.not_more,
      h.not_fewer,
      k.not_fewer,
    );
    types = λ i p.
        ground (arith, h.types i p, k.types i p, bit-intersection b.type_flags a.type_flags i);
  },
)

-- Where `a | b` is defined it assumes all that `a` assumes, and all that `b` assumes.
pub join_lower : (a b c : Context) → join a b ≡ some c → IsSmaller c a × IsSmaller c b
unfolding join
join_lower a b c h =
    let fa = contains_flag a.flags no_explicitly_missing_args in
    let fb = contains_flag b.flags no_explicitly_missing_args in
    (
      record {
        not_more = λ p. ground arith;
        not_fewer = λ p. ground arith;
        flags = λ i p. ground (arith, bit-union b.flags a.flags i);
        types = λ i p. ground (arith, bit-union b.type_flags a.type_flags i);
      },
      record {
        not_more = λ p. ground arith;
        not_fewer = λ p. ground arith;
        flags = λ i p. ground (arith, bit-union b.flags a.flags i);
        types = λ i p. ground (arith, bit-union b.type_flags a.type_flags i);
      },
    )

-- If both contexts exclude too many arguments and some `d` is smaller than both, `a | b` is defined:
-- it is smaller than both too, and `d` is smaller than it.
pub join_greatest :
    (a b d : Context)
    → has a.flags not_too_many_arguments ≡ true
    → has b.flags not_too_many_arguments ≡ true
    → IsSmaller d a
    → IsSmaller d b
    → (c : Context) × (join a b ≡ some c) × IsSmaller d c × IsSmaller c a × IsSmaller c b
join_greatest a b d ta tb h k = (
  joined,
  defined,
  record {
    not_more = λ p. ground (arith, h.not_more ta, k.not_more tb);
    not_fewer = λ p. ground (arith, bit-union b.flags a.flags 0, h.not_fewer, k.not_fewer);
    flags = λ i p. ground (arith, bit-union b.flags a.flags i, h.flags i, k.flags i);
    types = λ i p. ground (arith, bit-union b.type_flags a.type_flags i, h.types i, k.types i);
  },
  (join_lower a b joined defined).0,
  (join_lower a b joined defined).1,
)
  where
    joined : Context
    joined = record {
      flags = EnumSet.union b.flags a.flags;
      type_flags = EnumSet.union b.type_flags a.type_flags;
      missing = if ltb a.missing b.missing then b.missing else a.missing;
    }

    defined : join a b ≡ some joined
    defined =
        unfold join in
        ground (
          arith,
          contains_flag a.flags no_explicitly_missing_args,
          contains_flag b.flags no_explicitly_missing_args,
          h.not_more ta,
          k.not_more tb,
          h.not_fewer,
          k.not_fewer,
        )
