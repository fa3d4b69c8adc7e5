-- ===== src/Verifier/Kept.antt =====
-- rir/src/bc/CodeVerifier.cpp: both loops of `calculateAndVerifyStack` keep the invariant.
use mathlib.Core.Path.{subst}
use rir.Prelude.{
  ℕ, zero, suc, ◌+◌, ◌≡◌, inl, inr, refl, sym, true, false, some, List, [], ◌∷◌, arith, Bool-cases,
  Option-cases, ap, ◌∙◌,
}
use rir.Bytecode.Decode.{size, pushes, is_exit, is_jmp, is_uncond_jmp, jmp_target}
use rir.Verifier.{
  Code, State, Search, Verdict, ok, Next, go_on, leave, round, walk, visit, visit_top, find,
  compare_heights, start, add_int, calculate_and_verify_stack, inner_fuel, outer_fuel,
}
use rir.Verifier.Run.{Verdict-cases, eq_of_ok, ok-neq-fail, Ran, round-Ran, branch-Ended}
use rir.Verifier.Closed.{
  Noted, Waiting, Known, find-Noted, Inv, with_state, Inv-mono, behind, behind-Inv,
}

module _ (c : Code) where
  abbrev Kept : Next → Type 0
  Kept (go_on i s) = Inv c (with_state c i s)
  Kept (leave s) = Inv c s

  -- What a round checked, given that what follows from it is put on the work list.
  Ran-Checked :
      (i : State) (s : Search) (r : Next) (extra : List State) (ran : Ran c i s r)
      → (let n = add_int ran.o (pushes ran.b) in
          (is_exit ran.b.bc ≡ true → n ≡ 0)
          × (is_exit ran.b.bc ≡ false
              → is_uncond_jmp ran.b.bc ≡ false
              → Waiting extra (i.pc + size ran.b) n)
          × (is_exit ran.b.bc ≡ false
              → is_jmp ran.b.bc ≡ true
              → Waiting extra (jmp_target i.pc ran.b) n))
      → Inv c (with_state c i s)
      → Inv c (behind c i s (add_int ran.o (pushes ran.b)) extra)
  Ran-Checked i s r extra ran (clear, falls, jumps) v =
      behind-Inv c i s (add_int ran.o (pushes ran.b)) extra (omega arith)
        (record {
          b = ran.b;
          o = ran.o;
          within = ran.within;
          decoded = ran.decoded;
          popped = ran.popped;
          enough = ran.enough;
          bounded = omega arith;
          clear = clear;
          falls = falls;
          jumps = jumps;
        })
        v

  -- The state behind a round, and at the target of its jump.
  abbrev fallthrough : (i : State) (s : Search) (r : Next) → Ran c i s r → State
  fallthrough i s r ran = record { pc = i.pc + size ran.b; ostack = add_int ran.o (pushes ran.b) }

  abbrev target : (i : State) (s : Search) (r : Next) → Ran c i s r → State
  target i s r ran = record { pc = jmp_target i.pc ran.b; ostack = add_int ran.o (pushes ran.b) }

  round-Inv :
      (i : State) (s : Search) (r : Next) → round c i s ≡ ok r → Inv c (with_state c i s) → Kept r
  round-Inv i s (leave s') h v =
      let r = leave s' in
      let ran = round-Ran c i s r h in
      elim (branch-Ended ran.b i.pc _ _ r ran.ended) [
        | inl (x, z, e) ↦
            subst (Inv c) (sym e) (Ran-Checked i s r [] ran (λ _. z, λ y. cc, λ y. cc) v)
        | inr (x, u, e) ↦ subst (Inv c) (sym e) (
            Ran-Checked i s r (target i s r ran ∷ []) ran
              (λ y. cc, λ _ y. cc, λ _ _. inl (refl, refl)) v)
      ]
  round-Inv i s (go_on i' s') h v =
      let r = go_on i' s' in
      let ran = round-Ran c i s r h in
      let (x, u, e, e') = branch-Ended ran.b i.pc _ _ r ran.ended in
      subst (λ j. Inv c (with_state c j s')) (sym e)
        (subst (λ t. Inv c (with_state c (fallthrough i s r ran) t)) (sym e')
          (elim (Bool-cases (is_jmp ran.b.bc)) [
            | inl y ↦ rw y (
                Ran-Checked i s r (fallthrough i s r ran ∷ target i s r ran ∷ []) ran
                  (λ z. cc, λ _ _. inl (refl, refl), λ _ _. inr (inl (refl, refl))) v)
            | inr y ↦ rw y (
                Ran-Checked i s r (fallthrough i s r ran ∷ []) ran
                  (λ z. cc, λ _ _. inl (refl, refl), λ _ z. cc) v)
          ]))

  walk-Inv :
      (k : ℕ) (i : State) (s t : Search) → walk c k i s ≡ ok t → Inv c (with_state c i s) → Inv c t
  unfolding walk
  walk-Inv zero i s t h v = absurd (ok-neq-fail (sym h))
  walk-Inv (suc k) i s t h v = elim (Verdict-cases (round c i s)) [
    | inr (f, e) ↦ absurd (ok-neq-fail (sym (rw e at h)))
    | inl (go_on i' s', e) ↦ walk-Inv k i' s' t (rw e at h) (round-Inv i s (go_on i' s') e v)
    | inl (leave s', e) ↦ subst (Inv c) (eq_of_ok (rw e at h)) (round-Inv i s (leave s') e v)
  ]

  -- A visited state that passes the comparison is noted already.
  skip-Inv :
      (i : State) (q : List State) (s : Search) (o : ℕ) (u : Unit {0})
      → find i.pc s.state ≡ some o
      → compare_heights c i o ≡ ok u
      → Inv c (record s { q = i ∷ q })
      → Inv c (record s { q = q })
  unfolding compare_heights
  skip-Inv i q s o u f k v =
      Inv-mono c (record s { q = i ∷ q }) (record s { q = q }) shrink (omega arith) v.small
        (λ pc h m. inl m) v
    where
      same : o ≡ i.ostack
      same = ground arith

      shrink : (p h : ℕ) → Known (record s { q = i ∷ q }) p h → Known (record s { q = q }) p h
      shrink p h (inl m) = inl m
      shrink p h (inr (inr w)) = inr w
      shrink p h (inr (inl (a, b))) =
          inl
            (subst (λ x. Noted s.state x h) a (find-Noted s.state i.pc h (f ∙ ap some (same ∙ b))))

  visit_top-Inv :
      (k : ℕ) (rest : Search → Verdict Search) (s : Search) (q : List State) (t : Search)
      → ((s' : Search) → rest s' ≡ ok t → Inv c s' → Inv c t × (t.q ≡ []))
      → s.q ≡ q
      → visit_top c k rest s q ≡ ok t
      → Inv c s
      → Inv c t × (t.q ≡ [])
  unfolding visit_top
  visit_top-Inv k rest s [] t ih e h v = subst (λ x. Inv c x × (x.q ≡ [])) (eq_of_ok h) (v, e)
  visit_top-Inv k rest s (i ∷ q) t ih e h v =
      let v' = subst (λ l. Inv c (record s { q = l })) e v in
      elim (Option-cases (find i.pc s.state)) [
        | inr (o, f) ↦ elim (Verdict-cases (compare_heights c i o)) [
          | inl (u, k') ↦
              ih (record s { q = q }) (rw (f, visit_top, k') at h) (skip-Inv i q s o u f k' v')
          | inr (x, k') ↦ absurd (ok-neq-fail (sym (rw (f, visit_top, k') at h)))
        ]
        | inl f ↦ elim (Verdict-cases (walk c k i (record s { q = q }))) [
          | inl (t', k') ↦
              ih t' (rw (f, visit_top, k') at h) (walk-Inv k i (record s { q = q }) t' k' v')
          | inr (x, k') ↦ absurd (ok-neq-fail (sym (rw (f, visit_top, k') at h)))
        ]
      ]

  visit-Inv : (k n : ℕ) (s t : Search) → visit c k n s ≡ ok t → Inv c s → Inv c t × (t.q ≡ [])
  unfolding visit
  visit-Inv k zero s t h v = absurd (ok-neq-fail (sym h))
  visit-Inv k (suc n) s t h v =
      visit_top-Inv k (visit c k n) s s.q t (λ s' h' v'. visit-Inv k n s' t h' v') refl h v

  start-Inv : Inv c (start c)
  start-Inv = record { checked = λ pc h m. absurd m; entry = inr (inl (refl, refl)); small = refl }

  -- A run that succeeds ends with nothing on the work list and every height checked.
  pub calculate-Inv :
      (l : ℕ)
      → calculate_and_verify_stack c ≡ ok l
      → (t : Search) × Inv c t × (t.q ≡ []) × (t.max ≡ l)
  unfolding calculate_and_verify_stack
  calculate-Inv l h = elim (Verdict-cases (visit c (inner_fuel c) (outer_fuel c) (start c))) [
    | inr (f, e) ↦ absurd (ok-neq-fail (sym (rw e at h)))
    | inl (t, e) ↦
        let (v, q) = visit-Inv (inner_fuel c) (outer_fuel c) (start c) t e start-Inv in
        (t, v, q, eq_of_ok (rw e at h))
  ]
