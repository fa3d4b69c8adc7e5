-- ===== src/Context/Smaller.antt =====
-- `Context::smaller`: the partial order of the contexts.
use rir.Prelude.{◌≤◌, ◌≡◌, ◌↔◌, ◌⊎◌, true, arith}
use rir.Prelude.Bits.Subset.{Subset, Subset-antisymm}
use rir.EnumSet.Laws.{includes_iff}
use rir.Context.{no_explicitly_missing_args, not_too_many_arguments, Context, smaller, equal}
use rir.Context.Flags.{has, contains_flag}

-- What `smaller` promises: `a` has every assumption of `b`, and as many arguments as `b` allows.
pub record IsSmaller (a b : Context) : Type 0 where
  pub not_more : has b.flags not_too_many_arguments ≡ true → b.missing ≤ a.missing
  pub not_fewer : has b.flags no_explicitly_missing_args ≡ true → a.missing ≤ b.missing
  pub flags : Subset b.flags a.flags
  pub types : Subset b.type_flags a.type_flags

pub smaller-IsSmaller : (a b : Context) → smaller a b ≡ true → IsSmaller a b
unfolding smaller
smaller-IsSmaller a b h =
    let many = contains_flag b.flags not_too_many_arguments in
    let none_missing = contains_flag b.flags no_explicitly_missing_args in
    record {
      not_more = λ p. ground arith;
      not_fewer = λ p. ground arith;
      flags = (includes_iff a.flags b.flags).0 (ground arith);
      types = (includes_iff a.type_flags b.type_flags).0 (ground arith);
    }

pub IsSmaller-smaller : (a b : Context) → IsSmaller a b → smaller a b ≡ true
unfolding smaller
IsSmaller-smaller a b h = ground (
  arith,
  contains_flag b.flags not_too_many_arguments,
  contains_flag b.flags no_explicitly_missing_args,
  (includes_iff a.flags b.flags).1 h.flags,
  (includes_iff a.type_flags b.type_flags).1 h.types,
  h.not_more,
  h.not_fewer,
)

-- `smaller` holds exactly when its first context has all the assumptions of the second, and has no
-- more, and no fewer, missing arguments where the second excludes that.
pub smaller_iff : (a b : Context) → (smaller a b ≡ true) ↔ IsSmaller a b
smaller_iff a b = (smaller-IsSmaller a b, IsSmaller-smaller a b)

pub IsSmaller-refl : (a : Context) → IsSmaller a a
IsSmaller-refl a = record {
  not_more = λ p. omega arith;
  not_fewer = λ p. omega arith;
  flags = λ i p. p;
  types = λ i p. p;
}

pub IsSmaller-trans : (a b c : Context) → IsSmaller a b → IsSmaller b c → IsSmaller a c
IsSmaller-trans a b c h k = record {
  not_more = λ p. omega (arith, k.not_more p, h.not_more (k.flags 2 p));
  not_fewer = λ p. omega (arith, k.not_fewer p, h.not_fewer (k.flags 0 p));
  flags = λ i p. h.flags i (k.flags i p);
  types = λ i p. h.types i (k.types i p);
}

-- `smaller` is transitive, whatever the flags and the argument counts.
pub smaller_trans : (a b c : Context) → smaller a b ≡ true → smaller b c ≡ true → smaller a c ≡ true
smaller_trans a b c h k =
    IsSmaller-smaller a c
      (IsSmaller-trans a b c (smaller-IsSmaller a b h) (smaller-IsSmaller b c k))

pub equal_iff : (a b : Context) → (equal a b ≡ true) ↔ (a ≡ b)
unfolding equal
equal_iff a b = ground arith

-- Two contexts that are `smaller` than one another are the same, if one of the two assumptions
-- about the argument count is made.
pub smaller_antisymm :
    (a b : Context)
    → (has a.flags not_too_many_arguments ≡ true) ⊎ (has a.flags no_explicitly_missing_args ≡ true)
    → smaller a b ≡ true
    → smaller b a ≡ true
    → a ≡ b
smaller_antisymm a b u h k =
    let p = smaller-IsSmaller a b h in
    let q = smaller-IsSmaller b a k in
    let ef = Subset-antisymm a.flags b.flags q.flags p.flags in
    let et = Subset-antisymm a.type_flags b.type_flags q.types p.types in
    ground (
      arith,
      p.not_more,
      p.not_fewer,
      q.not_more,
      q.not_fewer,
      p.flags 2,
      p.flags 0,
      q.flags 2,
      q.flags 0,
    )
