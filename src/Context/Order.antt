-- ===== src/Context/Order.antt =====
-- `Context::operator<`: the complete order that dispatch tables are sorted by.
use rir.Prelude.{
  ℕ, ◌≡◌, ◌≢◌, ◌⊎◌, inl, inr, refl, sym, ap, ◌∙◌, true, false, List, [], ◌∷◌, arith, Bool-cases,
}
use rir.Prelude.Bits.Count.{popcount_mono, popcount-eq}
use rir.Prelude.Lex.{lex, lex_irrefl, lex_trans, lex_total}
use rir.EnumSet
use rir.Context.{
  not_too_many_arguments, no_explicitly_missing_args, Context, IsContext, equal, smaller, less,
}
use rir.Context.Flags.{has}
use rir.Context.Smaller.{IsSmaller, smaller-IsSmaller, IsSmaller-smaller, equal_iff}

-- The keys of the order, the most significant first: more flags, more typed facts, more missing
-- arguments, and then the words themselves.
abbrev pub keys : Context → List ℕ
keys c =
    EnumSet.count c.flags ∷ EnumSet.count c.type_flags ∷ c.missing ∷ c.flags ∷ c.type_flags ∷ []

keys-injective : (a b : Context) → keys a ≡ keys b → a ≡ b
keys-injective a b e = ground arith

-- A valid context that excludes too many arguments, as every context does that a version is
-- compiled for.
pub record IsDispatchable (c : Context) : Type 0 where
  pub valid : IsContext c
  pub bounded_args : has c.flags not_too_many_arguments ≡ true

-- A context that is smaller comes first by the keys, too.
smaller-lex :
    (a b : Context)
    → IsDispatchable a
    → IsDispatchable b
    → smaller a b ≡ true
    → equal a b ≡ false
    → lex (keys a) (keys b) ≡ true
unfolding EnumSet.count
smaller-lex a b va vb h ne =
    let s = smaller-IsSmaller a b h in
    ground (
      arith,
      popcount_mono 32 a.flags b.flags s.flags,
      popcount_mono 32 a.type_flags b.type_flags s.types,
      popcount-eq 32 a.flags b.flags (omega (arith, va.valid.flags_lt))
          (omega (arith, vb.valid.flags_lt)) s.flags,
      popcount-eq 32 a.type_flags b.type_flags (omega (arith, va.valid.types_lt))
          (omega (arith, vb.valid.types_lt)) s.types,
      s.not_more vb.bounded_args,
      (equal_iff a b).1,
    )

lex_asymm : (xs ys : List ℕ) → lex xs ys ≡ true → lex ys xs ≡ false
lex_asymm xs ys h = elim (Bool-cases (lex ys xs)) [
  | inl k ↦ cc (lex_trans xs ys xs h k, lex_irrefl xs)
  | inr k ↦ k
]

equal_symm : (a b : Context) → equal a b ≡ false → equal b a ≡ false
unfolding equal
equal_symm a b h = ground arith

-- Where `smaller` does not decide, the ladder of tie-breaks is the order by the keys.
tie_break :
    (a b : Context)
    → equal a b ≡ false
    → smaller a b ≡ false
    → smaller b a ≡ false
    → less a b ≡ lex (keys a) (keys b)
unfolding less
tie_break a b e h k = rw (e, h, k) (ground (arith, (equal_iff a b).1))

-- On contexts that exclude too many arguments `<` is the order by the keys: the shortcuts by
-- `smaller` agree with the tie-breaks.
pub less-eq-lex :
    (a b : Context) → IsDispatchable a → IsDispatchable b → less a b ≡ lex (keys a) (keys b)
less-eq-lex a b va vb = elim (Bool-cases (equal a b)) [
  | inl same ↦
      rw ((equal_iff a b).0 same, lex_irrefl (keys b))
        (rw ((equal_iff a b).0 same) at (same_less same))
  | inr differ ↦ elim (Bool-cases (smaller a b)) [
    | inl h ↦ first h differ ∙ sym (smaller-lex a b va vb h differ)
    | inr h ↦ elim (Bool-cases (smaller b a)) [
      | inl k ↦
          last h k differ
          ∙ sym (lex_asymm (keys b) (keys a) (smaller-lex b a vb va k (equal_symm a b differ)))
      | inr k ↦ tie_break a b differ h k
    ]
  ]
]
  where
    same_less : equal a b ≡ true → less a b ≡ false
    same_less e = unfold less in rw e

    first : smaller a b ≡ true → equal a b ≡ false → less a b ≡ true
    first h e = unfold less in rw (e, h)

    last : smaller a b ≡ false → smaller b a ≡ true → equal a b ≡ false → less a b ≡ false
    last h k e = unfold less in rw (e, h, k)

-- `<` is a strict total order on the contexts that exclude too many arguments.
pub less_strict_total :
    (a b c : Context)
    → IsDispatchable a
    → IsDispatchable b
    → IsDispatchable c
    → (less a a ≡ false)
      × (less a b ≡ true → less b c ≡ true → less a c ≡ true)
      × ((a ≡ b) ⊎ ((less a b ≡ true) ⊎ (less b a ≡ true)))
less_strict_total a b c va vb vc =
    rw
      (
        less-eq-lex a a va va,
        less-eq-lex a b va vb,
        less-eq-lex b c vb vc,
        less-eq-lex a c va vc,
        less-eq-lex b a vb va,
      )
      (
        lex_irrefl (keys a),
        lex_trans (keys a) (keys b) (keys c),
        ground (arith, lex_total (keys a) (keys b) refl, keys-injective a b),
      )

-- A context with more assumptions sorts before the contexts that it is smaller than.
pub smaller-less : (a b : Context) → smaller a b ≡ true → a ≢ b → less a b ≡ true
unfolding less
smaller-less a b h ne = ground (arith, (equal_iff a b).0)

-- Without such a flag `<` is no order: two contexts that differ in the argument count alone, and
-- make neither assumption about it, are each less than the other.
pub less_not_asymmetric :
    (a b : Context)
    → a.flags ≡ b.flags
    → a.type_flags ≡ b.type_flags
    → a.missing ≢ b.missing
    → has a.flags not_too_many_arguments ≡ false
    → has a.flags no_explicitly_missing_args ≡ false
    → (less a b ≡ true) × (less b a ≡ true)
less_not_asymmetric a b ef et ne many fewer = (
  smaller-less a b (IsSmaller-smaller a b (equal_flags a b ef et many fewer))
      (λ e. ne (ap (λ (c : Context). c.missing) e)),
  smaller-less b a
      (IsSmaller-smaller b a (equal_flags b a (sym ef) (sym et) (rw (← ef) many) (rw (← ef) fewer)))
      (λ e. ne (sym (ap (λ (c : Context). c.missing) e))),
)
  where
    equal_flags :
        (x y : Context)
        → x.flags ≡ y.flags
        → x.type_flags ≡ y.type_flags
        → has x.flags not_too_many_arguments ≡ false
        → has x.flags no_explicitly_missing_args ≡ false
        → IsSmaller x y
    equal_flags x y f t m n = record {
      not_more = λ p. cc (f);
      not_fewer = λ p. cc (f);
      flags = λ i p. rw f p;
      types = λ i p. rw t p;
    }
