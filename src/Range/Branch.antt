-- ===== src/Range/Branch.antt =====
-- The narrowing of applyEntry: what the operands of a comparison that holds are known to be.
use rir.Prelude.{ℕ, ◌≤◌, ◌<◌, ◌≡◌, true, ◌||◌, arith}
use rir.Range.{
  int_max, int_zero, covers, first_cover, get, lower_lhs, lower_rhs, upper_lhs, upper_rhs,
  lhs_range, rhs_range, max_int, min_int, Comparison, is_lt, is_gt,
}
use rir.Range.Comparison.{lt, lte, gt, gte}
use rir.Range.Cover.{IsWithin, get-IsWithin}

abbrev pub Compares : Comparison → ℕ → ℕ → Type 0
Compares lte x y = x ≤ y
Compares lt x y = x < y
Compares gte x y = y ≤ x
Compares gt x y = y < x

-- An int between two bounds lies in the range of the bounds.
between : (lo hi x : ℕ) → lo ≤ x → x ≤ hi → hi ≤ int_max → IsWithin x x (get lo hi)
between lo hi x p q h =
    let (low, high) = get-IsWithin lo hi h in (omega (arith, low, p), omega (arith, high, q))

-- Two operands of known ranges [a, b] and [c, d].
pub record Operands (a b c d x y : ℕ) : Type 0 where
  pub above_a : a ≤ x
  pub below_b : x ≤ b
  pub above_c : c ≤ y
  pub below_d : y ≤ d
  pub b_int : b ≤ int_max
  pub d_int : d ≤ int_max

-- On the branch where a comparison of ints holds, the left operand is in the range that it is
-- narrowed to, for each of the four comparisons.
pub lhs_sound :
    (t : Comparison) (a b c d x y : ℕ)
    → Operands a b c d x y
    → Compares t x y
    → IsWithin x x (lhs_range t a b c d)
unfolding lhs_range lower_lhs upper_lhs min_int max_int
lhs_sound lte a b c d x y w o =
    between _ _ x (ground (arith, w.above_a, w.below_d, o))
      (ground (arith, w.below_b, w.below_d, o)) (ground (arith, w.b_int, w.d_int))
lhs_sound lt a b c d x y w o =
    between _ _ x (ground (arith, w.above_a, w.below_d, o))
      (ground (arith, w.below_b, w.below_d, w.above_c, o)) (ground (arith, w.b_int, w.d_int))
lhs_sound gte a b c d x y w o =
    between _ _ x (ground (arith, w.above_a, w.above_c, o))
      (ground (arith, w.below_b, w.above_c, o))
      (ground (arith, w.b_int, w.d_int, w.above_c, w.below_d))
lhs_sound gt a b c d x y w o =
    between _ _ x (ground (arith, w.above_a, w.above_c, w.below_d, o))
      (ground (arith, w.below_b, w.above_c, o))
      (ground (arith, w.b_int, w.d_int, w.above_c, w.below_b, o))

-- On the branch where a strict comparison of ints holds, the right operand is in the range that it
-- is narrowed to.
pub rhs_sound :
    (t : Comparison) (a b c d x y : ℕ)
    → (is_lt t || is_gt t) ≡ true
    → Operands a b c d x y
    → Compares t x y
    → IsWithin y y (rhs_range t a b c d)
unfolding rhs_range lower_rhs upper_rhs min_int max_int
rhs_sound lte a b c d x y s w o = absurd (cc)
rhs_sound gte a b c d x y s w o = absurd (cc)
rhs_sound lt a b c d x y s w o =
    between _ _ y (ground (arith, w.above_a, w.above_c, o))
      (ground (arith, w.below_d, w.above_a, o))
      (ground (arith, w.d_int, w.b_int, w.above_a, w.below_b))
rhs_sound gt a b c d x y s w o =
    between _ _ y (ground (arith, w.above_c, w.below_b, o))
      (ground (arith, w.below_d, w.below_b, o)) (ground (arith, w.d_int, w.b_int))

-- On the branch where `0 <= y` holds, and 0 is exactly known, the range of `y` excludes 0, whatever
-- it was known to be.
pub rhs_excludes_zero :
    (c d : ℕ) → d ≤ int_max → int_zero < (rhs_range lte int_zero int_zero c d).begin
unfolding rhs_range lower_rhs max_int get first_cover covers
rhs_excludes_zero c d h = ground arith
