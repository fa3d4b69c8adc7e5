-- ===== src/EnumSet/Iterate.antt =====
-- rir/src/utils/EnumSet.h: iteration over a set, and the count of its elements.
use native.Mathlib.Numerals.{add-one}
use rir.Prelude.{
  ℕ, zero, suc, ◌+◌, ◌-◌, ◌/◌, ◌≤◌, ◌<◌, ◌≡◌, refl, sym, ◌∙◌, ap, false, List, [], ◌∷◌, inl, inr,
  arith, if◌then◌else◌, Bool-cases, length,
}
use rir.Prelude.Bits.{bit, popcount}
use rir.Prelude.Bits.Bound.{bit_and-two_pow}
use rir.EnumSet.{Enum, IsEnum, count, elements, iterate, next, seek_next, begin}
use rir.EnumSet.Laws.{IsWithin}

-- The elements among the `n` numbers from `i` up, in order.
abbrev pub bits_from : ℕ → ℕ → ℕ → List ℕ
bits_from zero s i = []
bits_from (suc n) s i = let rest = bits_from n s (i + 1) in if bit s i then i ∷ rest else rest

-- How many of the `n` bits from `i` up are set.
abbrev bits_count : ℕ → ℕ → ℕ → ℕ
bits_count n s i = length (bits_from n s i)

bits_count-suc : (n s i : ℕ) → bits_count n (s / 2) i ≡ bits_count n s (i + 1)
unfolding bit
bits_count-suc zero s i = refl
bits_count-suc (suc n) s i =
    let e : bit s (i + 1) ≡ bit (s / 2) i = rw add-one in
    rw e (ground (arith, bits_count-suc n s (i + 1)))

popcount-bits_count : (w s : ℕ) → popcount w s ≡ bits_count w s 0
unfolding popcount bit
popcount-bits_count zero s = refl
popcount-bits_count (suc w) s = ground (arith, popcount-bits_count w (s / 2), bits_count-suc w s 0)

bits_count-add : (m n s i : ℕ) → bits_count (m + n) s i ≡ bits_count m s i + bits_count n s (i + m)
bits_count-add zero n s i =
    let e : i + 0 ≡ i = omega arith in let f : 0 + n ≡ n = omega arith in rw (e, f) (omega arith)
bits_count-add (suc m) n s i =
    let e : i + suc m ≡ i + 1 + m = omega arith in
    let f : suc m + n ≡ suc (m + n) = omega arith in
    rw (e, f) (ground (arith, bits_count-add m n s (i + 1)))

bits_count_none :
    (n s i : ℕ) → ((j : ℕ) → i ≤ j → j < i + n → bit s j ≡ false) → bits_count n s i ≡ 0
bits_count_none zero s i h = refl
bits_count_none (suc n) s i h =
    rw (h i (omega arith) (omega arith))
      (bits_count_none n s (i + 1) (λ j p q. h j (omega arith) (omega arith)))

module _ (E : Enum) where
  seek_next_step :
      (m s i : ℕ)
      → i ≤ E.last
      → seek_next E (suc m) s i ≡ (if bit s i then i else seek_next E m s (i + 1))
  unfolding seek_next
  seek_next_step m s i h = ground (arith, bit_and-two_pow i s)

  iterate_step : (n s i : ℕ) → i ≤ E.last → iterate E (suc n) s i ≡ i ∷ iterate E n s (next E s i)
  unfolding iterate
  iterate_step n s i h = ground arith

  next_step : (m s i : ℕ) → i + suc m ≡ E.last + 1 → next E s i ≡ seek_next E m s (i + 1)
  unfolding next
  next_step m s i e = let left : E.last + 1 - (i + 1) ≡ m = omega arith in rw left

  iterate-bits_from :
      (m n s i : ℕ)
      → i + m ≡ E.last + 1
      → m ≤ n
      → iterate E n s (seek_next E m s i) ≡ bits_from m s i
  iterate-bits_from zero zero s i e h = unfold iterate in refl
  iterate-bits_from zero (suc n) s i e h = unfold iterate seek_next in ground arith
  iterate-bits_from (suc m) zero s i e h = absurd (omega arith)
  iterate-bits_from (suc m) (suc n) s i e h = elim (Bool-cases (bit s i)) [
    | inl on ↦ rw (
      seek_next_step m s i (omega arith),
      on,
      iterate_step n s i (omega arith),
      next_step m s i e,
      iterate-bits_from m n s (i + 1) (omega arith) (omega arith),
    )
    | inr off ↦ rw (
      seek_next_step m s i (omega arith),
      off,
      iterate-bits_from m (suc n) s (i + 1) (omega arith) (omega arith),
    )
  ]

  module _ (v : IsEnum E) where
    -- Iterating over a set visits exactly its elements, once each and in increasing order.
    pub elements-bits_from : (s : ℕ) → elements E s ≡ bits_from (E.last + 1 - E.first) s E.first
    unfolding elements begin
    elements-bits_from s = iterate-bits_from _ _ s E.first (omega (arith, v.ordered)) (omega arith)

    within_count :
        (s : ℕ)
        → IsWithin E v s
        → (k : ℕ)
        → bits_count (E.first + (E.last + 1 - E.first + k)) s 0
          ≡ bits_count (E.last + 1 - E.first) s E.first
    within_count s w k = omega (
      arith,
      bits_count-add E.first (E.last + 1 - E.first + k) s 0,
      bits_count-add (E.last + 1 - E.first) k s E.first,
      bits_count_none E.first s 0 (λ j p q. ground (arith, w j)),
      bits_count_none k s (E.first + (E.last + 1 - E.first))
          (λ j p q. ground (arith, w j, v.ordered)),
      ap (λ i. bits_count (E.last + 1 - E.first + k) s i) {x = 0 + E.first} {y = E.first}
          (omega arith),
    )

    -- `count` is the number of elements that an iteration visits.
    pub count-elements : (s : ℕ) → IsWithin E v s → count s ≡ length (elements E s)
    unfolding count
    count-elements s w =
        popcount-bits_count 32 s
        ∙ ap (λ n. bits_count n s 0) {x = 32} {y = E.first + (E.last + 1 - E.first + (31 - E.last))}
            (omega (arith, v.ordered, v.shiftable))
        ∙ within_count s w (31 - E.last)
        ∙ ap length (sym (elements-bits_from s))
