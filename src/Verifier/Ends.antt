-- ===== src/Verifier/Ends.antt =====
-- rir/src/bc/CodeVerifier.cpp: both loops of `calculateAndVerifyStack` end. An inner loop only moves
-- forward, and the outer one starts it only at addresses that were not visited.
use mathlib.Core.Path.{subst}
use rir.Prelude.{
  ℕ, zero, suc, ◌+◌, ◌*◌, ◌≤◌, ◌<◌, ◌≡◌, ◌≢◌, inl, inr, refl, sym, true, none, some, List, [], ◌∷◌,
  ◌==◌, arith, length, ◌∙◌, Bool-cases, Option-cases, ap, ==_iff,
}
use rir.Verifier.{
  Code, State, Search, Verdict, ok, fail, Next, go_on, leave, inside, round, end_code, walk, visit,
  visit_top, find, compare_heights, start, inner_fuel, outer_fuel, calculate_and_verify_stack,
}
use rir.Verifier.Failure.{out_of_fuel}
use rir.Verifier.Run.{
  Verdict-cases, eq_of_ok, eq_of_fail, ok-neq-fail, round-Ran, branch-Ended, round_reports,
  size_pos,
}

-- The number of addresses that were not visited, among the `n` from `a` on.
fresh : ℕ → ℕ → List (ℕ × ℕ) → ℕ
fresh a zero m = 0
fresh a (suc n) m = elim (find a m) [ some o ↦ fresh (a + 1) n m | none ↦ suc (fresh (a + 1) n m) ]

fresh-visit-le : (a n p o : ℕ) (m : List (ℕ × ℕ)) → fresh a n ((p, o) ∷ m) ≤ fresh a n m
unfolding fresh find
fresh-visit-le a zero p o m = omega arith
fresh-visit-le a (suc n) p o m = ground (arith, fresh-visit-le (a + 1) n p o m)

fresh-visit-lt :
    (a n p o : ℕ) (m : List (ℕ × ℕ))
    → find p m ≡ none
    → a ≤ p
    → p < a + n
    → fresh a n ((p, o) ∷ m) < fresh a n m
unfolding fresh find
fresh-visit-lt a zero p o m f l u = absurd (omega arith)
fresh-visit-lt a (suc n) p o m f l u = elim (Bool-cases (a == p)) [
  | inl e ↦
      (let q : a ≡ p = (==_iff a p).0 e in
        ground (arith, ap (λ k. find k m) q, fresh-visit-le (a + 1) n p o m))
  | inr e ↦ ground (arith, fresh-visit-lt (a + 1) n p o m f (ground arith) (omega arith))
]

fresh-empty : (a n : ℕ) → fresh a n [] ≡ n
unfolding fresh find
fresh-empty a zero = refl
fresh-empty a (suc n) = ap suc (fresh-empty (a + 1) n)

module _ (c : Code) where
  abbrev left : Search → ℕ
  left s = fresh c.code c.code_size s.state

  inside-bounds : (pc : ℕ) → inside c pc ≡ true → (c.code ≤ pc) × (pc < end_code c)
  inside-bounds pc h = ground arith

  -- A round that goes on has moved forward inside the code; no round visits less, or pushes more
  -- than one jump target.
  abbrev Moved : State → Search → Next → Type 0
  Moved i s (go_on i' s') =
      (inside c i.pc ≡ true)
      × (i.pc < i'.pc)
      × (s'.state ≡ (i.pc, i.ostack) ∷ s.state)
      × (length s'.q ≤ length s.q + 1)
  Moved i s (leave s') =
      (inside c i.pc ≡ true)
      × (s'.state ≡ (i.pc, i.ostack) ∷ s.state)
      × (length s'.q ≤ length s.q + 1)

  round-Moved : (i : State) (s : Search) (r : Next) → round c i s ≡ ok r → Moved i s r
  round-Moved i s (go_on i' s') h =
      let ran = round-Ran c i s (go_on i' s') h in
      let (x, u, e, e') = branch-Ended ran.b i.pc _ _ (go_on i' s') ran.ended in
      ground (arith, ran.within, e, e', size_pos ran.b)
  round-Moved i s (leave s') h =
      let ran = round-Ran c i s (leave s') h in
      ground (arith, ran.within, branch-Ended ran.b i.pc _ _ (leave s') ran.ended)

  -- An address that is visited is no longer fresh.
  left-visit :
      (i : State) (s s' : Search)
      → inside c i.pc ≡ true
      → s'.state ≡ (i.pc, i.ostack) ∷ s.state
      → (left s' ≤ left s) × (find i.pc s.state ≡ none → left s' < left s)
  left-visit i s s' w e =
      let (low, high) = inside-bounds i.pc w in
      rw e (
        fresh-visit-le c.code c.code_size i.pc i.ostack s.state,
        λ f. fresh-visit-lt c.code c.code_size i.pc i.ostack s.state f low high,
      )

  -- An inner loop visits its first address, and pushes at most one target in each round.
  walk_gains :
      (k : ℕ) (i : State) (s t : Search)
      → walk c k i s ≡ ok t
      → (left t ≤ left s)
        × (find i.pc s.state ≡ none → left t < left s)
        × (length t.q ≤ length s.q + k)
  unfolding walk
  walk_gains zero i s t h = absurd (ok-neq-fail (sym h))
  walk_gains (suc k) i s t h = elim (Verdict-cases (round c i s)) [
    | inr (f, e) ↦ absurd (ok-neq-fail (sym (rw e at h)))
    | inl (go_on i' s', e) ↦
        let (w, m, v, l) = round-Moved i s (go_on i' s') e in
        let (a, b) = left-visit i s s' w v in
        let (a', _, l') = walk_gains k i' s' t (rw e at h) in
        (omega arith, λ f. omega (arith, b f), omega arith)
    | inl (leave s', e) ↦
        let (w, v, l) = round-Moved i s (leave s') e in
        let (a, b) = left-visit i s s' w v in
        subst
          (λ (x : Search).
            (left x ≤ left s)
            × (find i.pc s.state ≡ none → left x < left s)
            × (length x.q ≤ length s.q + suc k))
          (eq_of_ok (rw e at h)) (a, b, omega arith)
  ]

  -- A round has fuel enough if the rounds behind it have.
  step_ends :
      (k : ℕ) (i : State) (s : Search)
      → ((i' : State) (s' : Search)
          → inside c i.pc ≡ true
          → i.pc < i'.pc
          → walk c k i' s' ≢ fail out_of_fuel)
      → walk c (suc k) i s ≢ fail out_of_fuel
  unfolding walk
  step_ends k i s rest h = elim (Verdict-cases (round c i s)) [
    | inr (f, e) ↦ round_reports c i s (e ∙ ap fail (eq_of_fail (rw e at h)))
    | inl (leave s', e) ↦ absurd (ok-neq-fail (rw e at h))
    | inl (go_on i' s', e) ↦
        let (w, m, _, _) = round-Moved i s (go_on i' s') e in rest i' s' w m (rw e at h)
  ]

  -- It is enough for the way to the end of the code.
  walk_ends :
      (k : ℕ) (i : State) (s : Search)
      → (inside c i.pc ≡ true → end_code c ≤ i.pc + k)
      → walk c (suc k) i s ≢ fail out_of_fuel
  walk_ends zero i s enough =
      step_ends zero i s (λ i' s' w m. absurd (omega (arith, enough w, inside-bounds i.pc w)))
  walk_ends (suc k) i s enough =
      step_ends (suc k) i s (λ i' s' w m. walk_ends k i' s' (λ _. omega (arith, enough w)))

  -- The work that is left: each address that was not visited pays for an inner loop.
  abbrev work : Search → ℕ
  work s = left s * inner_fuel c + length s.q

  compare_reports : (i : State) (o : ℕ) → compare_heights c i o ≢ fail out_of_fuel
  unfolding compare_heights
  compare_reports i o h = ground arith

  pays : (a b n : ℕ) → a < b → a * n + n ≤ b * n
  pays a b n h = grind arith

  visit_top_ends :
      (n : ℕ) (rest : Search → Verdict Search) (s : Search) (q : List State)
      → ((s' : Search) → work s' < n → rest s' ≢ fail out_of_fuel)
      → work (record s { q = q }) < suc n
      → visit_top c (inner_fuel c) rest s q ≢ fail out_of_fuel
  unfolding visit_top
  visit_top_ends n rest s [] ends h e = ok-neq-fail e
  visit_top_ends n rest s (i ∷ q) ends h e = elim (Option-cases (find i.pc s.state)) [
    | inr (o, v) ↦ elim (Verdict-cases (compare_heights c i o)) [
      | inl (_, k) ↦ ends (record s { q = q }) (omega arith) (rw (v, visit_top, k) at e)
      | inr (f, k) ↦ compare_reports i o (k ∙ ap fail (eq_of_fail (rw (v, visit_top, k) at e)))
    ]
    | inl v ↦ elim (Verdict-cases (walk c (inner_fuel c) i (record s { q = q }))) [
      | inl (t, k) ↦
          let (_, lt, l) = walk_gains (inner_fuel c) i (record s { q = q }) t k in
          ends t (omega (arith, pays (left t) (left s) (inner_fuel c) (lt v)))
            (rw (v, visit_top, k) at e)
      | inr (f, k) ↦
          walk_ends c.code_size i (record s { q = q }) (λ w. omega (arith, inside-bounds i.pc w))
            (k ∙ ap fail (eq_of_fail (rw (v, visit_top, k) at e)))
    ]
  ]

  visit_ends : (n : ℕ) (s : Search) → work s < n → visit c (inner_fuel c) n s ≢ fail out_of_fuel
  unfolding visit
  visit_ends zero s h = absurd (omega arith)
  visit_ends (suc n) s h = visit_top_ends n (visit c (inner_fuel c) n) s s.q (visit_ends n) h

-- The verifier ends on every code object, however its jumps lie: the rounds that the model allows
-- each loop are never used up.
pub calculate_and_verify_stack_ends : (c : Code) → calculate_and_verify_stack c ≢ fail out_of_fuel
unfolding calculate_and_verify_stack
calculate_and_verify_stack_ends c h =
    elim (Verdict-cases (visit c (inner_fuel c) (outer_fuel c) (start c))) [
      | inl (s, e) ↦ ok-neq-fail (rw e at h)
      | inr (f, e) ↦
          visit_ends c (outer_fuel c) (start c) (rw (fresh-empty c.code c.code_size) (omega arith))
            (e ∙ ap fail (eq_of_fail (rw e at h)))
    ]
