-- ===== src/Verifier/Source.antt =====
-- rir/src/runtime/Code.cpp, `Code::getSrcIdxAt`: the source of an instruction, by a binary search
-- of the list of sources, whose entries are offsets into the code with indices into the source pool.
use rir.Prelude.{
  ℕ, zero, suc, ◌+◌, ◌-◌, ◌/◌, ◌≤◌, ◌<◌, ◌≡◌, ◌≢◌, inl, inr, refl, sym, none, some, List, [], ◌∷◌,
  ltb, ◌==◌, if◌then◌else◌, arith, Bool-cases, Option-cases, ap, ==_iff, ◌∙◌, length, get_elem?,
  eq_of_some, ltb→lt, true, false, lt→ltb, dec_lt,
}

-- The loop, with fuel for its rounds. `upper` is one more than in the source, where it may be -1;
-- `lower + (upper - lower) / 2` is the finger that the source keeps.
module _ (sl : List (ℕ × ℕ)) (off : ℕ) where
  unfoldable pub finger : ℕ → ℕ → ℕ
  finger lower upper = lower + (upper - 1 - lower) / 2

  unfoldable pub search_sources : ℕ → ℕ → ℕ → ℕ
  unfolding finger
  search_sources zero lower upper = 0
  search_sources (suc n) lower upper = elim (ltb lower upper) [
    | false ↦ 0
    | true ↦ elim (get_elem? sl (finger lower upper)) [
      | none ↦ 0
      | some (p, s) ↦ if p == off then s else elim (ltb p off) [
        | true ↦ search_sources n (finger lower upper + 1) upper
        | false ↦ search_sources n lower (finger lower upper)
      ]
    ]
  ]

unfoldable pub get_src_idx_at : List (ℕ × ℕ) → ℕ → ℕ
unfolding search_sources
get_src_idx_at [] off = 0
get_src_idx_at ((p, s) ∷ []) off = if p == off then s else 0
get_src_idx_at (x ∷ y ∷ sl) off =
    search_sources (x ∷ y ∷ sl) off (length (x ∷ y ∷ sl)) 0 (length (x ∷ y ∷ sl))

-- The offsets grow from `b` on.
abbrev pub GrowsFrom : ℕ → List (ℕ × ℕ) → Type 0
GrowsFrom b [] = Unit
GrowsFrom b ((p, s) ∷ sl) = (b ≤ p) × GrowsFrom (p + 1) sl

grows_le :
    (b : ℕ) (sl : List (ℕ × ℕ)) (i p s : ℕ) → GrowsFrom b sl → get_elem? sl i ≡ some (p, s) → b ≤ p
grows_le b [] i p s g e = cc
grows_le b ((q, t) ∷ sl) zero p s g e = omega (arith, ap (λ x. x.0) (eq_of_some e))
grows_le b ((q, t) ∷ sl) (suc i) p s g e = omega (arith, grows_le (q + 1) sl i p s g.1 e)

grows_lt :
    (b : ℕ) (sl : List (ℕ × ℕ)) (i j p s q t : ℕ)
    → GrowsFrom b sl
    → i < j
    → get_elem? sl i ≡ some (p, s)
    → get_elem? sl j ≡ some (q, t)
    → p < q
grows_lt b [] i j p s q t g l e f = cc
grows_lt b (x ∷ sl) zero zero p s q t g l e f = absurd (omega arith)
grows_lt b ((x, y) ∷ sl) zero (suc j) p s q t g l e f =
    omega (arith, ap (λ x. x.0) (eq_of_some e), grows_le (x + 1) sl j q t g.1 f)
grows_lt b (x ∷ sl) (suc i) zero p s q t g l e f = absurd (omega arith)
grows_lt b ((x, y) ∷ sl) (suc i) (suc j) p s q t g l e f =
    grows_lt (x + 1) sl i j p s q t g.1 (omega arith) e f

get_elem?-length :
    (sl : List (ℕ × ℕ)) (i : ℕ) → i < length sl → (x : ℕ × ℕ) × (get_elem? sl i ≡ some x)
get_elem?-length [] i h = absurd (omega arith)
get_elem?-length (x ∷ sl) zero h = (x, refl)
get_elem?-length (x ∷ sl) (suc i) h = get_elem?-length sl i (omega arith)

lt-length : (sl : List (ℕ × ℕ)) (i : ℕ) {x : ℕ × ℕ} → get_elem? sl i ≡ some x → i < length sl
lt-length [] i e = cc
lt-length (x ∷ sl) zero e = omega arith
lt-length (x ∷ sl) (suc i) e = omega (arith, lt-length sl i e)

finger_bounds :
    (sl : List (ℕ × ℕ)) (off lower upper : ℕ)
    → lower < upper
    → (lower ≤ finger sl off lower upper) × (finger sl off lower upper < upper)
unfolding finger
finger_bounds sl off lower upper h = omega arith

-- One round of the search, at the entry under the finger.
search_round :
    (sl : List (ℕ × ℕ)) (off n lower upper p s : ℕ)
    → lower < upper
    → get_elem? sl (finger sl off lower upper) ≡ some (p, s)
    → search_sources sl off (suc n) lower upper ≡ (
        if p == off
        then s
        else if ltb p off
        then search_sources sl off n (finger sl off lower upper + 1) upper
        else search_sources sl off n lower (finger sl off lower upper))
unfolding search_sources
search_round sl off n lower upper p s h e = ground (arith, e, lt→ltb lower upper h)

module _ (b : ℕ) (sl : List (ℕ × ℕ)) (off : ℕ) (g : GrowsFrom b sl) where
  -- The offsets of two entries are in the order of their places.
  grows_gt :
      (i j p s q t : ℕ)
      → get_elem? sl i ≡ some (p, s)
      → get_elem? sl j ≡ some (q, t)
      → p < q
      → i < j
  grows_gt i j p s q t e f h = elim (dec_lt i j) [
    | yes l ↦ l
    | no l ↦ elim (dec_lt j i) [
      | yes r ↦ absurd (omega (arith, grows_lt b sl j i q t p s g r f e))
      | no r ↦
          let k : j ≡ i = omega arith in
          absurd (omega (arith, ap (λ x. x.0) (eq_of_some (sym f ∙ (ap (get_elem? sl) k ∙ e)))))
    ]
  ]

  grows_eq : (i j p s t : ℕ) → get_elem? sl i ≡ some (p, s) → get_elem? sl j ≡ some (p, t) → i ≡ j
  grows_eq i j p s t e f = elim (dec_lt i j) [
    | yes l ↦ absurd (omega (arith, grows_lt b sl i j p s p t g l e f))
    | no l ↦ elim (dec_lt j i) [
      | yes r ↦ absurd (omega (arith, grows_lt b sl j i p t p s g r f e))
      | no r ↦ omega arith
    ]
  ]

  -- An entry between the bounds is found.
  search_found :
      (n lower upper j s : ℕ)
      → get_elem? sl j ≡ some (off, s)
      → lower ≤ j
      → j < upper
      → upper ≤ length sl
      → upper - lower ≤ n
      → search_sources sl off n lower upper ≡ s
  search_found zero lower upper j s e l u m f = absurd (omega arith)
  search_found (suc n) lower upper j s e l u m f =
      let k = finger sl off lower upper in
      let (low, high) = finger_bounds sl off lower upper (omega arith) in
      let ((p, t), at) = get_elem?-length sl k (omega arith) in
      search_round sl off n lower upper p t (omega arith) at ∙ (elim (Bool-cases (p == off)) [
        | inl y ↦
            let q : p ≡ off = (==_iff p off).0 y in
            let at' : get_elem? sl k ≡ some (off, t) = at ∙ ap (λ x. some (x, t)) q in
            let same = grows_eq k j off t s at' e in
            rw y (ap (λ x. x.1) (eq_of_some (sym at' ∙ (ap (get_elem? sl) same ∙ e))))
        | inr y ↦ rw y (elim (Bool-cases (ltb p off)) [
          | inl z ↦
              let after = grows_gt k j p t off s at e (ltb→lt p off z) in
              rw z (search_found n (k + 1) upper j s e (omega arith) u m (omega arith))
          | inr z ↦
              let before = grows_gt j k off s p t e at (ground arith) in
              rw z (search_found n lower k j s e l before (omega arith) (omega arith))
        ])
      ])

  -- Without an entry at the offset the search gives 0.
  search_missing :
      (n lower upper : ℕ)
      → ((j s : ℕ) → get_elem? sl j ≢ some (off, s))
      → search_sources sl off n lower upper ≡ 0
  unfolding search_sources
  search_missing zero lower upper none_at = refl
  search_missing (suc n) lower upper none_at =
      elim (Option-cases (get_elem? sl (finger sl off lower upper))) [
        | inl e ↦ ground (arith, e)
        | inr ((p, s), e) ↦
            let k = finger sl off lower upper in
            let other : p ≢ off = λ q. none_at k s (e ∙ ap (λ x. some (x, s)) q) in
            ground
              (arith, e, search_missing n (k + 1) upper none_at, search_missing n lower k none_at)
      ]

one_found :
    (p s off j t : ℕ)
    → get_elem? {A = ℕ × ℕ} ((p, s) ∷ []) j ≡ some (off, t)
    → (if p == off then s else 0) ≡ t
one_found p s off zero t e =
    let q = eq_of_some e in ground (arith, ap (λ x. x.0) q, ap (λ x. x.1) q)
one_found p s off (suc j) t e = cc

one_missing :
    (p s off : ℕ)
    → ((j t : ℕ) → get_elem? {A = ℕ × ℕ} ((p, s) ∷ []) j ≢ some (off, t))
    → (if p == off then s else 0) ≡ 0
one_missing p s off none_at = elim (Bool-cases (p == off)) [
  | inl y ↦ absurd (none_at 0 s (ap (λ x. some (x, s)) ((==_iff p off).0 y)))
  | inr y ↦ rw y refl
]

-- Where the offsets of the list grow, an instruction gets the source that is listed for its offset,
-- and 0 if none is.
pub get_src_idx_at_lem :
    (sl : List (ℕ × ℕ)) (off : ℕ)
    → GrowsFrom 0 sl
    → ((j s : ℕ) → get_elem? sl j ≡ some (off, s) → get_src_idx_at sl off ≡ s)
      × (((j s : ℕ) → get_elem? sl j ≢ some (off, s)) → get_src_idx_at sl off ≡ 0)
unfolding get_src_idx_at
get_src_idx_at_lem [] off g = (λ j s e. cc, λ _. refl)
get_src_idx_at_lem ((p, s) ∷ []) off g = (one_found p s off, one_missing p s off)
get_src_idx_at_lem (x ∷ y ∷ sl) off g =
    let all = x ∷ y ∷ sl in
    (
      λ j s e.
          search_found 0 all off g (length all) 0 (length all) j s e (omega arith)
            (lt-length all j e) (omega arith) (omega arith),
      search_missing 0 all off g (length all) 0 (length all),
    )
