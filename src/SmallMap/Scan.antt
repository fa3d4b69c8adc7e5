-- ===== src/SmallMap/Scan.antt =====
-- The vector of a SmallMap as an association list, and the index as its positions.
use rir.Prelude.{
  ℕ, zero, suc, ◌+◌, ◌<◌, ◌≡◌, refl, ap, sym, ◌∙◌, Bool, true, false, inl, inr, Option, none, some,
  List, [], ◌∷◌, ◌++◌, arith, if◌then◌else◌, length, Bool-cases, Option-cases, eq_of_some,
}
use rir.Prelude.Eq.{Eq, beq_refl, beq_left, beq_apart}
use rir.SmallMap.{scan, next, value_at, set_value, update, index_loop, bind}

abbrev pub or_else {ℓ} : {A : Type ℓ} → Option A → Option A → Option A
or_else none p = p
or_else (some x) p = some x

-- A position counted from `n`.
abbrev pub from : ℕ → Option ℕ → Option ℕ
from n none = none
from n (some i) = some (n + i)

from-next : (n : ℕ) (o : Option ℕ) → from n (next o) ≡ from (suc n) o
from-next n none = refl
from-next n (some i) = ap some (omega arith)

zero_suc : {i : ℕ} → some 0 ≡ some (suc i) → ⊥
zero_suc h = omega (arith, eq_of_some h)

next-zero : (o : Option ℕ) → next o ≡ some 0 → ⊥
next-zero none h = cc
next-zero (some i) h = omega (arith, eq_of_some h)

next-none : (o : Option ℕ) → next o ≡ none → o ≡ none
next-none none h = refl
next-none (some i) h = absurd (cc)

next-suc : (o : Option ℕ) (i : ℕ) → next o ≡ some (suc i) → o ≡ some i
next-suc none i h = absurd (cc)
next-suc (some j) i h = ap some (omega (arith, eq_of_some h))

module _ {ℓ κ} {K : Type ℓ} {V : Type κ} ⦃e : Eq K⦄ where
  -- No key stands twice.
  abbrev pub Unique : List (K × V) → Type 0
  Unique [] = Unit {0}
  Unique ((k, v) ∷ es) = (scan es k ≡ none) × Unique es

  -- The value that an association list gives a key.
  abbrev pub assoc : List (K × V) → K → Option V
  assoc [] k = none
  assoc ((j, v) ∷ es) k = let rest = assoc es k in if e.beq j k then some v else rest

  -- The entry at the first position of a key has the value that the list gives it.
  pub bind-scan : (es : List (K × V)) (k : K) → bind (scan es k) (value_at es) ≡ assoc es k
  unfolding scan
  bind-scan [] k = refl
  bind-scan ((j, v) ∷ es) k = elim (Bool-cases (e.beq j k)) [
    | inl on ↦ rw on
    | inr off ↦ rw off (through (scan es k) ∙ bind-scan es k)
  ]
    where
      through : (o : Option ℕ) → bind (next o) (value_at ((j, v) ∷ es)) ≡ bind o (value_at es)
      through none = refl
      through (some i) = refl

  pub scan-set_value :
      (es : List (K × V)) (i : ℕ) (w : V) (k : K) → scan (set_value es i w) k ≡ scan es k
  unfolding scan
  scan-set_value [] i w k = refl
  scan-set_value ((j, v) ∷ es) zero w k = refl
  scan-set_value ((j, v) ∷ es) (suc i) w k = rw (scan-set_value es i w k)

  pub Unique-set_value : (es : List (K × V)) (i : ℕ) (w : V) → Unique es → Unique (set_value es i w)
  Unique-set_value [] i w u = u
  Unique-set_value ((j, v) ∷ es) zero w u = u
  Unique-set_value ((j, v) ∷ es) (suc i) w u =
      (scan-set_value es i w j ∙ u.0, Unique-set_value es i w u.1)

  scan-head :
      (l k : K) (v : V) (es : List (K × V)) → e.beq l k ≡ true → scan ((l, v) ∷ es) k ≡ some 0
  unfolding scan
  scan-head l k v es on = rw on

  pub scan-tail :
      (l k : K) (v : V) (es : List (K × V))
      → e.beq l k ≡ false
      → scan ((l, v) ∷ es) k ≡ next (scan es k)
  unfolding scan
  scan-tail l k v es off = rw off

  pub assoc-hit :
      (es : List (K × V)) (k : K) (i : ℕ) → scan es k ≡ some i → (v : V) × (assoc es k ≡ some v)
  unfolding scan
  assoc-hit [] k i h = absurd (cc)
  assoc-hit ((l, v) ∷ es) k i h = elim (Bool-cases (e.beq l k)) [
    | inl on ↦ (v, rw on)
    | inr off ↦ elim (Option-cases (scan es k)) [
      | inl lost ↦ absurd (let tail = scan-tail l k v es off in cc (tail, ap next lost, h))
      | inr (n, kept) ↦ rw off (assoc-hit es k n kept)
    ]
  ]

  pub scan-lt : (es : List (K × V)) (k : K) (i : ℕ) → scan es k ≡ some i → i < length es
  unfolding scan
  scan-lt [] k i h = absurd (cc)
  scan-lt ((l, v) ∷ es) k zero h = omega arith
  scan-lt ((l, v) ∷ es) k (suc i) h = elim (Bool-cases (e.beq l k)) [
    | inl on ↦ absurd (let first = scan-head l k v es on in zero_suc (sym first ∙ h))
    | inr off ↦
        omega (arith, scan-lt es k i (next-suc (scan es k) i (sym (scan-tail l k v es off) ∙ h)))
  ]

  pub assoc-set_value :
      (es : List (K × V)) (i : ℕ) (w : V) (k j : K)
      → scan es k ≡ some i
      → assoc (set_value es i w) j ≡ (if e.beq k j then some w else assoc es j)
  unfolding scan
  assoc-set_value [] i w k j h = absurd (cc)
  assoc-set_value ((l, v) ∷ es) zero w k j h = elim (Bool-cases (e.beq l k)) [
    | inl on ↦ rw (beq_left l k j on, overwrite (e.beq k j))
    | inr off ↦ absurd (next-zero (scan es k) (sym (scan-tail l k v es off) ∙ h))
  ]
    where
      overwrite :
          (b : Bool)
          → (if b then some w else assoc es j)
            ≡ (if b then some w else if b then some v else assoc es j)
      overwrite true = refl
      overwrite false = refl
  assoc-set_value ((l, v) ∷ es) (suc i) w k j h = elim (Bool-cases (e.beq l k)) [
    | inl on ↦ absurd (let first = scan-head l k v es on in zero_suc (sym first ∙ h))
    | inr off ↦ elim (Bool-cases (e.beq l j)) [
      | inl here ↦ rw (here, beq_apart l k j off here)
      | inr there ↦ rw (
        there,
        assoc-set_value es i w k j (next-suc (scan es k) i (sym (scan-tail l k v es off) ∙ h)),
      )
    ]
  ]

  pub scan-push :
      (es : List (K × V)) (k : K) (v : V) (j : K)
      → scan (es ++ (k, v) ∷ []) j
        ≡ or_else (scan es j) (if e.beq k j then some (length es) else none)
  unfolding scan
  scan-push [] k v j = refl
  scan-push ((l, w) ∷ es) k v j = elim (Bool-cases (e.beq l j)) [
    | inl on ↦ rw on
    | inr off ↦ rw (off, scan-push es k v j, through (scan es j) (e.beq k j) (length es))
  ]
    where
      through :
          (o : Option ℕ) (b : Bool) (n : ℕ)
          → next (or_else o (if b then some n else none))
            ≡ or_else (next o) (if b then some (suc n) else none)
      through none true n = refl
      through none false n = refl
      through (some i) b n = refl

  pub Unique-push :
      (es : List (K × V)) (k : K) (v : V)
      → Unique es
      → scan es k ≡ none
      → Unique (es ++ (k, v) ∷ [])
  unfolding scan
  Unique-push [] k v u h = (refl, tt)
  Unique-push ((l, w) ∷ es) k v u h = elim (Bool-cases (e.beq l k)) [
    | inl on ↦ absurd (let first = scan-head l k w es on in cc (first, h))
    | inr off ↦ (
      (rw (scan-push es k v l, u.0, beq_apart l k l off (beq_refl l)) refl),
      Unique-push es k v u.1 (next-none (scan es k) (sym (scan-tail l k w es off) ∙ h)),
    )
  ]

  pub assoc-push :
      (es : List (K × V)) (k : K) (v : V) (j : K)
      → scan es k ≡ none
      → assoc (es ++ (k, v) ∷ []) j ≡ (if e.beq k j then some v else assoc es j)
  unfolding scan
  assoc-push [] k v j h = refl
  assoc-push ((l, w) ∷ es) k v j h = elim (Bool-cases (e.beq l k)) [
    | inl on ↦ absurd (let first = scan-head l k w es on in cc (first, h))
    | inr off ↦ elim (Bool-cases (e.beq l j)) [
      | inl here ↦ rw (here, beq_apart l k j off here)
      | inr there ↦
          rw (there, assoc-push es k v j (next-none (scan es k) (sym (scan-tail l k w es off) ∙ h)))
    ]
  ]

  -- The loop of checkSize adds the positions of the entries to the index.
  pub index_loop_lem :
      (n : ℕ) (es : List (K × V)) (index : K → Option ℕ) (k : K)
      → Unique es
      → index_loop n es index k ≡ or_else (from n (scan es k)) (index k)
  unfolding index_loop scan
  index_loop_lem n [] index k u = refl
  index_loop_lem n ((j, v) ∷ es) index k u =
      index_loop_lem (suc n) es (update index j n) k u.1 ∙ elim (Bool-cases (e.beq j k)) [
        | inl on ↦ rw (on, sym (ap (scan es) ((e.beq_iff j k).0 on)), u.0, here)
        | inr off ↦ rw (off, from-next n (scan es k))
      ]
    where
      here : some n ≡ some (n + 0)
      here = ap some (omega arith)
