-- ===== src/Range/Sound.antt =====
-- What the ranges of a state claim of the values of a run, and that a branch keeps the claims true.
use rir.Prelude.{
  ℕ, ◌≤◌, ◌≡◌, refl, sym, ◌∙◌, inl, inr, Bool, true, false, ◌||◌, Option, some, ◌==◌, ==_iff,
  eq_of_some, if◌then◌else◌, Bool-cases, Option-cases, arith,
}
use rir.Prelude.Eq.{nat_eq}
use rir.Range.{
  Range, int_max, RangeAnalysisState, assign, get, lhs_range, rhs_range, lower_lhs, lower_rhs,
  upper_lhs, upper_rhs, Comparison, is_lt, is_gt,
}
use rir.Range.Comparison.{lt, lte, gt, gte}
use rir.Range.Cover.{IsWithin, Known, range_of, known_get}
use rir.Range.Cover.Known.{zero_known, one_known, neg_known, above0_known, pos_known, max_known}
use rir.Range.Branch.{Compares, Operands, lhs_sound, rhs_sound}
use rir.Range.State.{assign_lem}
use rir.Range.Transfer.{get_range, narrow, apply_cond, or_max, differ}

known_end : (k : Known) → (range_of k).end ≤ int_max
known_end zero_known = omega arith
known_end one_known = omega arith
known_end neg_known = omega arith
known_end above0_known = omega arith
known_end pos_known = omega arith
known_end max_known = omega arith

get_end : (a b : ℕ) → (get a b).end ≤ int_max
get_end a b = let (k, e) = known_get a b in rw e (known_end k)

-- An int value lies in a range of ints.
abbrev pub Claims : Range → ℕ → Type 0
Claims r x = IsWithin x x r × (r.end ≤ int_max)

lhs_end : (t : Comparison) (a b c d : ℕ) → (lhs_range t a b c d).end ≤ int_max
unfolding lhs_range lower_lhs upper_lhs
lhs_end lte a b c d = get_end _ _
lhs_end lt a b c d = get_end _ _
lhs_end gte a b c d = get_end _ _
lhs_end gt a b c d = get_end _ _

rhs_end : (t : Comparison) (a b c d : ℕ) → (rhs_range t a b c d).end ≤ int_max
unfolding rhs_range lower_rhs upper_rhs
rhs_end lte a b c d = get_end _ _
rhs_end lt a b c d = get_end _ _
rhs_end gte a b c d = get_end _ _
rhs_end gt a b c d = get_end _ _

module _ (constant : ℕ → Option Range) (env : ℕ → ℕ) where
  -- In a run with int values `env`, every range of the state holds its value.
  abbrev pub Models : RangeAnalysisState → Type 0
  Models s = (v : ℕ) (r : Range) → get_range constant s v ≡ some r → Claims r (env v)

  operand_lem :
      (s : RangeAnalysisState) (v : ℕ)
      → Models s
      → env v ≤ int_max
      → Claims (or_max (get_range constant s v)) (env v)
  operand_lem s v m h = elim (Option-cases (get_range constant s v)) [
    | inl e ↦ rw e ((omega arith, h), omega arith)
    | inr (r, e) ↦ rw e (m v r e)
  ]

  get_range-assign :
      (s : RangeAnalysisState) (v w : ℕ) (new : Range)
      → get_range constant (record s { range = assign s.range v new }) w
        ≡ (if v == w then some new else get_range constant s w)
  unfolding get_range
  get_range-assign s v w new = elim (Bool-cases (v == w)) [
    | inl on ↦ rw (assign_lem s.range v new w, on)
    | inr off ↦ rw (assign_lem s.range v new w, off)
  ]

  narrow-Models :
      (cur new : Range) (v : ℕ) (updated : Bool) (s : RangeAnalysisState)
      → Models s
      → Claims new (env v)
      → Models (narrow constant cur v new (updated, s)).1
  unfolding narrow
  narrow-Models cur new v updated s m c = elim (Bool-cases (differ cur new)) [
    | inr off ↦ rw off m
    | inl on ↦ rw on (λ w r h. elim (Bool-cases (v == w)) [
      | inl same ↦
          (let mine : new ≡ r = eq_of_some (sym (get_range-assign s v w new ∙ rw same refl) ∙ h) in
            rw⁻¹ mine (rw⁻¹ ((==_iff v w).0 same) c))
      | inr other ↦ m w r (sym (get_range-assign s v w new ∙ rw other) ∙ h)
    ])
  ]

  operands :
      (r s : Range) (x y : ℕ) → Claims r x → Claims s y → Operands r.begin r.end s.begin s.end x y
  operands r s x y p q = record {
    above_a = p.0.0;
    below_b = p.0.1;
    above_c = q.0.0;
    below_d = q.0.1;
    b_int = p.1;
    d_int = q.1;
  }

  -- In a run whose values are ints, entering the true branch of a strict comparison that holds keeps
  -- the claims of the state true: each range that the new state has for a value holds the value. Runs
  -- with doubles are not covered.
  pub apply_cond_sound :
      (t : Comparison) (executes_code : Bool) (l r : ℕ) (s : RangeAnalysisState)
      → (is_lt t || is_gt t) ≡ true
      → Models s
      → env l ≤ int_max
      → env r ≤ int_max
      → Compares t (env l) (env r)
      → Models (apply_cond constant t executes_code l r true s).1
  unfolding apply_cond
  apply_cond_sound t true l r s strict m hl hr h = m
  apply_cond_sound t false l r s strict m hl hr h =
      narrow-Models b (rhs_range t a.begin a.end b.begin b.end) r _ _ first (
        rhs_sound t a.begin a.end b.begin b.end (env l) (env r) strict both h,
        rhs_end t a.begin a.end b.begin b.end,
      )
    where
      a : Range
      a = or_max (get_range constant s l)

      b : Range
      b = or_max (get_range constant s r)

      both : Operands a.begin a.end b.begin b.end (env l) (env r)
      both = operands a b (env l) (env r) (operand_lem s l m hl) (operand_lem s r m hr)

      first : Models (narrow constant a l (lhs_range t a.begin a.end b.begin b.end) (false, s)).1
      first = narrow-Models a (lhs_range t a.begin a.end b.begin b.end) l false s m (
        lhs_sound t a.begin a.end b.begin b.end (env l) (env r) both h,
        lhs_end t a.begin a.end b.begin b.end,
      )
