-- ===== src/SmallSet/Laws.antt =====
-- SmallSet as a set of its elements.
use rir.Prelude.{
  or_false, ◌<◌, ◌≡◌, refl, ap, ◌∙◌, inl, inr, Bool, true, false, not, ◌&&◌, ◌||◌, some, List, [],
  ◌∷◌, ◌++◌, lt→ltb, length, arith, Bool-cases,
}
use rir.Prelude.Eq.{Eq, beq_refl, beq_left, beq_apart}
use rir.Prelude.Arrays.{remove_at}
use rir.SmallSet.{includes, insert, find, erase}

and_true : (a : Bool) → a ≡ (a && true)
and_true true = refl
and_true false = refl

module _ {ℓ} {T : Type ℓ} ⦃e : Eq T⦄ where
  -- No element stands twice.
  abbrev pub Unique : List T → Type 0
  Unique [] = Unit {0}
  Unique (x ∷ xs) = (includes xs x ≡ false) × Unique xs

  includes-append :
      (xs : List T) (t u : T) → includes (xs ++ t ∷ []) u ≡ (includes xs u || e.beq t u)
  unfolding includes
  includes-append [] t u = elim (Bool-cases (e.beq t u)) [ inl on ↦ rw on | inr off ↦ rw off ]
  includes-append (x ∷ xs) t u = elim (Bool-cases (e.beq x u)) [
    | inl on ↦ rw on
    | inr off ↦ rw off (includes-append xs t u)
  ]

  Unique-append : (xs : List T) (t : T) → Unique xs → includes xs t ≡ false → Unique (xs ++ t ∷ [])
  unfolding includes
  Unique-append [] t u h = (refl, tt)
  Unique-append (x ∷ xs) t u h = elim (Bool-cases (e.beq x t)) [
    | inl on ↦ absurd (present on h)
    | inr off ↦ (
      rw (includes-append xs t x, u.0, beq_apart x t x off (beq_refl x)) refl,
      Unique-append xs t u.1 (later off h),
    )
  ]
    where
      present : e.beq x t ≡ true → includes (x ∷ xs) t ≡ false → ⊥
      present on = rw (on, includes) (λ h. cc)

      later : e.beq x t ≡ false → includes (x ∷ xs) t ≡ false → includes xs t ≡ false
      later off = rw (off, includes) (λ h. h)

  -- insert adds its element and no other, and keeps the elements distinct.
  pub insert-includes :
      (xs : List T) (t u : T)
      → Unique xs
      → Unique (insert xs t) × (includes (insert xs t) u ≡ (includes xs u || e.beq t u))
  unfolding insert
  insert-includes xs t u h = elim (Bool-cases (includes xs t)) [
    | inl on ↦ (
      rw on h,
      rw on (elim (Bool-cases (e.beq t u)) [
        | inl same ↦
            rw same (let moved = ap (includes xs) ((e.beq_iff t u).0 same) in rw⁻¹ moved (rw on))
        | inr other ↦ rw other (or_false (includes xs u))
      ]),
    )
    | inr off ↦ (rw off (Unique-append xs t h off), rw off (includes-append xs t u))
  ]

  includes-remove_at :
      (xs : List T) (t u : T)
      → Unique xs
      → includes xs t ≡ true
      → includes (remove_at (find xs t) xs) u ≡ (includes xs u && not (e.beq t u))
  unfolding includes find remove_at
  includes-remove_at [] t u h p = absurd (cc)
  includes-remove_at (x ∷ xs) t u h p = elim (Bool-cases (e.beq x t)) [
    | inl on ↦
        rw (on, beq_left x t u on)
          (elim (Bool-cases (e.beq t u)) [
            | inl same ↦ rw same (
                let moved = ap (includes xs) ((e.beq_iff x t).0 on ∙ (e.beq_iff t u).0 same) in
                rw⁻¹ moved h.0)
            | inr other ↦ rw other (and_true (includes xs u))
          ])
    | inr off ↦ rw off (elim (Bool-cases (e.beq x u)) [
      | inl here ↦ rw (here, beq_apart x t u off here)
      | inr there ↦ rw there (includes-remove_at xs t u h.1 (later off p))
    ])
  ]
    where
      later : e.beq x t ≡ false → includes (x ∷ xs) t ≡ true → includes xs t ≡ true
      later off = rw (off, includes) (λ h. h)

  find-lt : (xs : List T) (t : T) → includes xs t ≡ true → find xs t < length xs
  unfolding includes find
  find-lt [] t p = absurd (cc)
  find-lt (x ∷ xs) t p = elim (Bool-cases (e.beq x t)) [
    | inl on ↦ rw on (omega arith)
    | inr off ↦ rw off (omega (arith, find-lt xs t (later off p)))
  ]
    where
      later : e.beq x t ≡ false → includes (x ∷ xs) t ≡ true → includes xs t ≡ true
      later off = rw (off, includes) (λ h. h)

  -- erase of an element of a set without duplicates removes it and no other.
  pub erase_lem :
      (xs : List T) (t u : T)
      → Unique xs
      → includes xs t ≡ true
      → (ys : List T) × (erase xs t ≡ some ys)
        × (includes ys u ≡ (includes xs u && not (e.beq t u)))
  unfolding erase
  erase_lem xs t u h p = (
    remove_at (find xs t) xs,
    rw (lt→ltb (find xs t) (length xs) (find-lt xs t p)),
    includes-remove_at xs t u h p,
  )
