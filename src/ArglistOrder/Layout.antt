-- ===== src/ArglistOrder/Layout.antt =====
-- rir/src/runtime/ArglistOrder.h: what the constructor lays out, and what is read from it.
use rir.Prelude.{
  ℕ, zero, suc, ◌+◌, ◌*◌, ◌<◌, ◌≤◌, ◌≡◌, ◌∙◌, refl, some, List, [], ◌∷◌, arith, length, get_elem?,
  eq_of_some, ap, ◌⊎◌, inl, inr, lt→ltb, Option-cases, none, ltb, sym, false,
}
use rir.Prelude.Arrays.{get_elem?-lt}
use rir.ArglistOrder.{total, words, store, copy, fill, new, original_arglist_length, index}

-- A copy changes no word outside the range that it writes.
copy_outside :
    (memory : ℕ → ℕ) (offset : ℕ) (r : List ℕ) (k : ℕ)
    → (k < offset) ⊎ (offset + length r ≤ k)
    → copy memory offset r k ≡ memory k
unfolding copy
copy_outside memory offset [] k h = refl
copy_outside memory offset (x ∷ r) k h =
    copy_outside (store memory offset x) (suc offset) r k (ground (arith, h)) ∙ ground (arith, h)

copy_inside :
    (memory : ℕ → ℕ) (offset : ℕ) (r : List ℕ) (i x k : ℕ)
    → get_elem? r i ≡ some x
    → k ≡ offset + i
    → copy memory offset r k ≡ x
unfolding copy
copy_inside memory offset [] i x k h e = absurd (cc)
copy_inside memory offset (y ∷ r) zero x k h e =
    copy_outside (store memory offset y) (suc offset) r k (inl (omega arith))
    ∙ ground (arith, eq_of_some h, e)
copy_inside memory offset (y ∷ r) (suc i) x k h e =
    copy_inside (store memory offset y) (suc offset) r i x k h (omega arith)

-- One round: the header of the call and its words.
abbrev laid : (ℕ → ℕ) → ℕ → ℕ → List ℕ → ℕ → ℕ
laid memory i offset r = copy (store (store memory (2 * i) offset) (2 * i + 1) (length r)) offset r

-- Words that `fill` leaves: the headers before, what lies between the headers and the words of the
-- first call, and what lies behind.
abbrev Left : ℕ → ℕ → List (List ℕ) → ℕ → Type 0
Left i offset rs k =
    (k < 2 * i) ⊎ ((2 * (i + length rs) ≤ k) × (k < offset)) ⊎ (offset + total rs ≤ k)

fill-Left :
    (memory : ℕ → ℕ) (i offset : ℕ) (rs : List (List ℕ)) (k : ℕ)
    → 2 * (i + length rs) ≤ offset
    → Left i offset rs k
    → fill memory i offset rs k ≡ memory k
unfolding fill total
fill-Left memory i offset [] k h l = refl
fill-Left memory i offset (r ∷ rs) k h l =
    fill-Left (laid memory i offset r) (suc i) (offset + length r) rs k (omega arith)
      (ground (arith, l))
    ∙ (copy_outside (store (store memory (2 * i) offset) (2 * i + 1) (length r)) offset r k
          (ground (arith, l))
        ∙ ground (arith, l))

-- Where the words of a call begin.
abbrev before : List (List ℕ) → ℕ → ℕ
before [] c = 0
before (r ∷ rs) zero = 0
before (r ∷ rs) (suc c) = length r + before rs c

fill_offset :
    (memory : ℕ → ℕ) (i offset : ℕ) (rs : List (List ℕ)) (c k : ℕ) (r : List ℕ)
    → get_elem? rs c ≡ some r
    → 2 * (i + length rs) ≤ offset
    → k ≡ 2 * (i + c)
    → fill memory i offset rs k ≡ offset + before rs c
unfolding fill
fill_offset memory i offset [] c k r h l e = absurd (cc)
fill_offset memory i offset (r₀ ∷ rs) zero k r h l e =
    fill-Left (laid memory i offset r₀) (suc i) (offset + length r₀) rs k (omega arith)
      (inl (omega arith))
    ∙ (copy_outside (store (store memory (2 * i) offset) (2 * i + 1) (length r₀)) offset r₀ k
          (inl (omega arith))
        ∙ ground (arith, e))
fill_offset memory i offset (r₀ ∷ rs) (suc c) k r h l e =
    fill_offset (laid memory i offset r₀) (suc i) (offset + length r₀) rs c k r h (omega arith)
      (omega arith)
    ∙ omega arith

fill-length :
    (memory : ℕ → ℕ) (i offset : ℕ) (rs : List (List ℕ)) (c k : ℕ) (r : List ℕ)
    → get_elem? rs c ≡ some r
    → 2 * (i + length rs) ≤ offset
    → k ≡ 2 * (i + c) + 1
    → fill memory i offset rs k ≡ length r
unfolding fill
fill-length memory i offset [] c k r h l e = absurd (cc)
fill-length memory i offset (r₀ ∷ rs) zero k r h l e =
    fill-Left (laid memory i offset r₀) (suc i) (offset + length r₀) rs k (omega arith)
      (inl (omega arith))
    ∙ (copy_outside (store (store memory (2 * i) offset) (2 * i + 1) (length r₀)) offset r₀ k
          (inl (omega arith))
        ∙ ground (arith, e, ap (λ (q : List ℕ). length q) (eq_of_some h)))
fill-length memory i offset (r₀ ∷ rs) (suc c) k r h l e =
    fill-length (laid memory i offset r₀) (suc i) (offset + length r₀) rs c k r h (omega arith)
      (omega arith)

fill_word :
    (memory : ℕ → ℕ) (i offset : ℕ) (rs : List (List ℕ)) (c k : ℕ) (r : List ℕ) (j x : ℕ)
    → get_elem? rs c ≡ some r
    → get_elem? r j ≡ some x
    → 2 * (i + length rs) ≤ offset
    → k ≡ offset + before rs c + j
    → fill memory i offset rs k ≡ x
unfolding fill
fill_word memory i offset [] c k r j x h g l e = absurd (cc)
fill_word memory i offset (r₀ ∷ rs) zero k r j x h g l e =
    let g₀ : get_elem? r₀ j ≡ some x = ap (λ (q : List ℕ). get_elem? q j) (eq_of_some h) ∙ g in
    fill-Left (laid memory i offset r₀) (suc i) (offset + length r₀) rs k (omega arith)
      (inr (inl (omega arith, omega (arith, get_elem?-lt r₀ j x g₀))))
    ∙ copy_inside (store (store memory (2 * i) offset) (2 * i + 1) (length r₀)) offset r₀ j x k g₀
        (omega arith)
fill_word memory i offset (r₀ ∷ rs) (suc c) k r j x h g l e =
    fill_word (laid memory i offset r₀) (suc i) (offset + length r₀) rs c k r j x h g (omega arith)
      (omega arith)

outside : (r : List ℕ) (j : ℕ) → get_elem? r j ≡ none → ltb j (length r) ≡ false
outside [] j h = ground arith
outside (x ∷ r) zero h = absurd (cc)
outside (x ∷ r) (suc j) h = ground (arith, outside r j h)

-- What the constructor lays out is read back: for each call the length of its list, empty or not,
-- and each of its words; an index past the end of the list fails the assertion of `index`.
pub index-new :
    (memory : ℕ → ℕ) (reordering : List (List ℕ)) (c : ℕ) (r : List ℕ) (j : ℕ)
    → get_elem? reordering c ≡ some r
    → (original_arglist_length (new memory reordering) c ≡ some (length r))
      × (index (new memory reordering) c j ≡ get_elem? r j)
unfolding new original_arglist_length index
index-new memory reordering c r j h =
    let n = length reordering * 2 in
    let a = fill_offset memory 0 n reordering c (c * 2) r h (omega arith) (omega arith) in
    let b = fill-length memory 0 n reordering c (c * 2 + 1) r h (omega arith) (omega arith) in
    let in_calls = lt→ltb c (length reordering) (get_elem?-lt reordering c r h) in
    (
      rw (in_calls, b) refl,
      elim (Option-cases (get_elem? r j)) [
        | inl e ↦ rw (in_calls, b, outside r j e, index) (sym e)
        | inr (x, g) ↦
            let w =
              fill_word memory 0 n reordering c (n + before reordering c + j) r j x h g
                (omega arith) refl in
            let in_words = lt→ltb j (length r) (get_elem?-lt r j x g) in
            rw (in_calls, b, in_words, a, w, index) (sym g)
      ],
    )

-- The constructor writes no word behind those that `size` counts.
pub new_stays :
    (memory : ℕ → ℕ) (reordering : List (List ℕ)) (k : ℕ)
    → words reordering ≤ k
    → (new memory reordering).data_of k ≡ memory k
unfolding new words
new_stays memory reordering k h =
    fill-Left memory 0 (length reordering * 2) reordering k (omega arith) (inr (inr (omega arith)))
