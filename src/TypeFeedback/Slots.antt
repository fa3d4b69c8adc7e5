-- ===== src/TypeFeedback/Slots.antt =====
-- The search for a free slot and the assignment to it, which the feedback records share.
use rir.Prelude.{
  ◌%◌, ℕ, zero, suc, ◌+◌, ◌≤◌, ◌<◌, ◌≡◌, refl, ◌∙◌, inl, inr, Bool, not, List, [], ◌∷◌, ◌==◌,
  length, arith, Bool-cases, length-set,
}
use rir.Prelude.Distinct.{take, any, push_new, take-set}
use rir.TypeFeedback.{slot, note}

module _ {ℓ} {A : Type ℓ} where
  -- The search ends at the count exactly when no noted element meets the test.
  pub slot-any :
      (n : ℕ) (p : A → Bool) (xs : List A)
      → n ≤ length xs
      → (slot n p xs == n) ≡ not (any p (take n xs))
  unfolding slot
  slot-any zero p xs h = refl
  slot-any (suc n) p [] h = absurd (omega (arith, h))
  slot-any (suc n) p (x ∷ xs) h = elim (Bool-cases (p x)) [
    | inl on ↦ rw on (ground arith)
    | inr off ↦ rw off (shift (slot n p xs) n ∙ slot-any n p xs (omega (arith, h)))
  ]
    where
      shift : (a b : ℕ) → (suc a == suc b) ≡ (a == b)
      shift a b = ground arith

  -- With room, the noted elements are those before with the new one behind, if it is new.
  pub take-note :
      (n : ℕ) (p : A → Bool) (xs : List A) (x : A)
      → n < length xs
      → n < 3
      → let noted = note (slot n p xs) n xs x in take noted.0 noted.1 ≡ push_new p x (take n xs)
  unfolding note
  take-note n p xs x h k = elim (Bool-cases (any p (take n xs))) [
    | inl on ↦ rw (slot-any n p xs (omega (arith, h)), on)
    | inr off ↦ rw (slot-any n p xs (omega (arith, h)), off, bits) (take-set n xs x h)
  ]
    where
      bits : (n + 1) % 4 ≡ suc n
      bits = omega (arith, k)

  pub record IsNotes (n : ℕ) (xs : List A) : Type 0 where
    pub room : length xs ≡ 3
    pub within : n ≤ 3

  pub note-IsNotes :
      (n : ℕ) (i : ℕ) (xs : List A) (x : A)
      → n < 3
      → IsNotes n xs
      → let noted = note i n xs x in IsNotes noted.0 noted.1
  unfolding note
  note-IsNotes n i xs x k w = elim (Bool-cases (i == n)) [
    | inl on ↦ rw on (record { room = length-set xs n x ∙ w.room; within = ground arith })
    | inr off ↦ rw off w
  ]
