-- ===== src/EnumSet/Laws.antt =====
-- rir/src/utils/EnumSet.h: what each operation does to the membership of each element.
use native.Mathlib.Nat.{mod-eq_of_lt, one-le-pow, pow-le-pow_right}
use rir.Prelude.{
  ℕ, zero, suc, ◌+◌, ◌-◌, ◌^◌, ◌≤◌, ◌<◌, ◌≡◌, ◌↔◌, inl, inr, bit_and, true, false, not, ◌&&◌, ◌||◌,
  Option, none, some, arith, dec_lt, leb, ◌==◌, ==_iff, Bool-cases, Bool-ext,
}
use rir.Prelude.Bits.{
  bit, complement, bit-bit_and, bit-bit_or, bit-two_pow, bit-complement, bit_ones,
}
use rir.Prelude.Bits.Subset.{Subset, bit_and-eq-Subset, Subset-bit_and-eq, Subset-antisymm}
use mathlib.Core.Path.{subst}
use rir.Prelude.Bits.Bound.{lt_of_bits, bit_and-lt, bit_or-lt, two_pow-lt, bit_and-two_pow}
use rir.EnumSet.{
  Enum, IsEnum, intersection, union, includes, reset, any, singleton, contains, set, includes_elem,
  negation, difference, max, max_loop,
}

pub includes_iff : (s t : ℕ) → (includes s t ≡ true) ↔ Subset t s
unfolding includes
includes_iff s t = (
  λ h. bit_and-eq-Subset t s ((==_iff (bit_and t s) t).0 h),
  λ h. (==_iff (bit_and t s) t).1 (Subset-bit_and-eq t s h),
)

pub includes_refl : (s : ℕ) → includes s s ≡ true
includes_refl s = (includes_iff s s).1 (λ i h. h)

pub includes_trans : (a b c : ℕ) → includes a b ≡ true → includes b c ≡ true → includes a c ≡ true
includes_trans a b c h k =
    (includes_iff a c).1 (λ i p. (includes_iff a b).0 h i ((includes_iff b c).0 k i p))

pub includes_antisymm : (a b : ℕ) → includes a b ≡ true → includes b a ≡ true → a ≡ b
includes_antisymm a b h k = Subset-antisymm a b ((includes_iff b a).0 k) ((includes_iff a b).0 h)

module _ (E : Enum) (v : IsEnum E) where
  singleton_lem : (e : ℕ) → e ≤ E.last → singleton E e ≡ 2 ^ e
  unfolding singleton
  singleton_lem e h = mod-eq_of_lt (two_pow-lt e E.digits (omega (arith, v.fits)))

  -- `contains` reads one bit.
  pub contains-bit : (s e : ℕ) → e ≤ E.last → contains E s e ≡ bit s e
  unfolding contains
  contains-bit s e h = rw (singleton_lem e h) (ground (arith, bit_and-two_pow e s))

  pub includes_elem-bit : (s e : ℕ) → e ≤ E.last → includes_elem E s e ≡ bit s e
  unfolding includes_elem
  includes_elem-bit s e h = rw (singleton_lem e h) (Bool-ext _ _ there back)
    where
      there : (bit_and (2 ^ e) s == 2 ^ e) ≡ true → bit s e ≡ true
      there p = bit_and-eq-Subset (2 ^ e) s ((==_iff _ _).0 p) e (ground (arith, bit-two_pow e e))

      back : bit s e ≡ true → (bit_and (2 ^ e) s == 2 ^ e) ≡ true
      back p =
          (==_iff _ _).1
            (Subset-bit_and-eq (2 ^ e) s λ i q. ground (arith, bit-two_pow e i, ==_iff e i))

  pub bit-set :
      (s e i : ℕ) → s < 2 ^ E.digits → e ≤ E.last → bit (set E s e) i ≡ ((e == i) || bit s i)
  unfolding set
  bit-set s e i w h =
      rw
        (mod-eq_of_lt
          (bit_or-lt E.digits s (2 ^ e) w (two_pow-lt e E.digits (omega (arith, v.fits)))))
        (ground (arith, bit-bit_or s (2 ^ e) i, bit-two_pow e i))

  pub bit-reset : (s e i : ℕ) → e < 64 → i < 64 → bit (reset s e) i ≡ (bit s i && not (e == i))
  unfolding reset
  bit-reset s e i h k = ground (
    arith,
    bit-bit_and s (complement 64 (2 ^ e)) i,
    bit-complement 64 (2 ^ e) i (two_pow-lt e 64 h),
    bit-two_pow e i,
  )

  bit-any : (i : ℕ) → bit (any E) i ≡ (leb E.first i && leb i E.last)
  unfolding any
  bit-any i =
      rw
        (mod-eq_of_lt
          (bit_and-lt E.digits (2 ^ (E.last + 1) - 1) (complement 32 (2 ^ E.first - 1)) ones_fit))
        (ground (
          arith,
          bit-bit_and (2 ^ (E.last + 1) - 1) (complement 32 (2 ^ E.first - 1)) i,
          bit_ones (E.last + 1) i,
          bit_ones E.first i,
          bit-complement 32 (2 ^ E.first - 1) i mask_fits,
          v.ordered,
          v.shiftable,
        ))
    where
      ones_fit : 2 ^ (E.last + 1) - 1 < 2 ^ E.digits
      ones_fit = omega (
        arith,
        one-le-pow (E.last + 1) 2 (omega arith),
        pow-le-pow_right {n = 2} (omega arith) {i = E.last + 1} {j = E.digits}
            (omega (arith, v.fits)),
      )

      mask_fits : 2 ^ E.first - 1 < 2 ^ 32
      mask_fits = omega (arith, two_pow-lt E.first 32 (omega (arith, v.ordered, v.shiftable)))

  pub bit-negation :
      (s i : ℕ)
      → s < 2 ^ E.digits
      → bit (negation E s) i ≡ (leb E.first i && leb i E.last && not (bit s i))
  unfolding negation
  bit-negation s i w = ground (
    arith,
    bit-bit_and (complement E.digits s) (any E) i,
    bit-complement E.digits s i w,
    bit-any i,
    v.fits,
  )

  -- An insertion adds its element and no other, a removal takes it out and no other.
  pub membership :
      (s e f : ℕ)
      → s < 2 ^ E.digits
      → e ≤ E.last
      → f ≤ E.last
      → (contains E (set E s e) f ≡ ((e == f) || contains E s f))
        × (contains E (reset s e) f ≡ (contains E s f && not (e == f)))
  membership s e f w he hf =
      rw (contains-bit s f hf, contains-bit (set E s e) f hf, contains-bit (reset s e) f hf)
        (
          bit-set s e f w he,
          bit-reset s e f (omega (arith, v.fits, v.narrow)) (omega (arith, v.fits, v.narrow)),
        )

  -- The operators `|`, `&`, `~` and `/` are union, intersection, complement and difference of the
  -- sets of elements.
  pub set_algebra :
      (s t f : ℕ)
      → s < 2 ^ E.digits
      → t < 2 ^ E.digits
      → E.first ≤ f
      → f ≤ E.last
      → (contains E (union s t) f ≡ (contains E s f || contains E t f))
        × (contains E (intersection s t) f ≡ (contains E s f && contains E t f))
        × (contains E (negation E s) f ≡ not (contains E s f))
        × (contains E (difference E s t) f ≡ (contains E s f && not (contains E t f)))
  set_algebra s t f ws wt lo hi =
      rw
        (
          contains-bit s f hi,
          contains-bit t f hi,
          contains-bit (union s t) f hi,
          contains-bit (intersection s t) f hi,
          contains-bit (negation E s) f hi,
          contains-bit (difference E s t) f hi,
        )
        (
          unfold union in ground (arith, bit-bit_or t s f),
          unfold intersection in ground (arith, bit-bit_and t s f),
          ground (arith, bit-negation s f ws),
          unfold difference intersection in
              ground (arith, bit-bit_and (negation E t) s f, bit-negation t f wt),
        )

  -- A set of declared elements.
  abbrev pub IsWithin : ℕ → Type 0
  IsWithin s = (i : ℕ) → bit s i ≡ true → (E.first ≤ i) × (i ≤ E.last)

  pub IsWithin-lt : (s : ℕ) → IsWithin s → s < 2 ^ E.digits
  IsWithin-lt s h = lt_of_bits E.digits s λ i p. elim (Bool-cases (bit s i)) [
    | inl on ↦ absurd (omega (arith, h i on, v.fits))
    | inr off ↦ off
  ]

  -- `includes` decides inclusion of the sets of elements.
  pub includes-contains_iff :
      (s t : ℕ)
      → IsWithin t
      → (includes s t ≡ true)
        ↔ ((f : ℕ) → E.first ≤ f → f ≤ E.last → contains E t f ≡ true → contains E s f ≡ true)
  includes-contains_iff s t wt = (
    λ h f lo hi p.
        rw (contains-bit s f hi) ((includes_iff s t).0 h f (rw (contains-bit t f hi) at p)),
    λ h. (includes_iff s t).1 λ i p.
        let b = wt i p in rw (contains-bit s i b.1) at (h i b.0 b.1 (rw (contains-bit t i b.1) p)),
  )

  -- The result of the search loop of `max` over the `n` elements from FIRST up.
  abbrev pub IsMaxBelow : ℕ → ℕ → Option ℕ → Type 0
  IsMaxBelow n s none = (f : ℕ) → E.first ≤ f → f < n → contains E s f ≡ false
  IsMaxBelow n s (some e) =
      (E.first ≤ e)
      × (e < n)
      × (contains E s e ≡ true)
      × ((f : ℕ) → e < f → f < n → contains E s f ≡ false)

  max_loop_lem : (n s : ℕ) → IsMaxBelow (E.first + n) s (max_loop E n s)
  unfolding max_loop
  max_loop_lem zero s = λ f lo hi. absurd (omega arith)
  max_loop_lem (suc n) s = elim (Bool-cases (contains E s (E.first + n))) [
    | inl on ↦ rw on (omega arith, omega arith, on, λ f p q. absurd (omega arith))
    | inr off ↦ rw off (widen (max_loop E n s) (max_loop_lem n s) off)
  ]
    where
      last_round :
          (f : ℕ)
          → f < E.first + suc n
          → (f < E.first + n → contains E s f ≡ false)
          → contains E s (E.first + n) ≡ false
          → contains E s f ≡ false
      last_round f hi below off = elim (dec_lt f (E.first + n)) [
        | yes p ↦ below p
        | no q ↦ let e : f ≡ E.first + n = omega arith in rw e off
      ]

      widen :
          (r : Option ℕ)
          → IsMaxBelow (E.first + n) s r
          → contains E s (E.first + n) ≡ false
          → IsMaxBelow (E.first + suc n) s r
      widen none h off = λ f lo hi. last_round f hi (h f lo) off
      widen (some e) h off = (h.0, omega (arith, h.1), h.2, λ f p q. last_round f q (h.3 f p) off)

  -- `max` finds the greatest element, but of those before LAST only: an element LAST is never found.
  pub max_lem : (s : ℕ) → IsMaxBelow E.last s (max E s)
  unfolding max
  max_lem s =
      let e : E.first + (E.last - E.first) ≡ E.last = omega (arith, v.ordered) in
      subst (λ n. IsMaxBelow n s (max_loop E (E.last - E.first) s)) e (max_loop_lem _ s)
