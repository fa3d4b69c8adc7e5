-- ===== src/Verifier/Sound.antt =====
-- rir/src/bc/CodeVerifier.cpp against the stack machine: code that the verifier accepts runs within
-- the stack length that it reports.
use rir.Bytecode.Operands.{none-neq-some}
use mathlib.Core.Path.{subst}
use rir.Prelude.{
  ℕ, ◌+◌, ◌-◌, ◌^◌, ◌≤◌, ◌<◌, ◌≡◌, ◌⊎◌, inl, inr, sym, true, false, none, some, [], arith,
  Bool-cases, Option-cases, ap, ◌∙◌, eq_of_some,
}
use rir.Bytecode.{Opcode, pop_count, push_count}
use rir.Bytecode.Opcode.{ret_, return_}
use rir.Bytecode.Decode.{
  Bc, decode, size, pops, pops_of, pushes, is_exit, is_jmp, is_uncond_jmp, jmp_target,
}
use rir.Verifier.{
  Code, Search, ok, inside, after_pops, add_int, sub_int, is_negative, is_return, biased,
  calculate_and_verify_stack,
}
use rir.Verifier.Run.{eq_of_ok, ok-neq-fail}
use rir.Verifier.Closed.{Waiting, Known, Checked, Inv}
use rir.Verifier.Kept.{calculate-Inv}

-- The addresses that a run comes by, with the number of values on its stack. A branch goes either
-- way, and an instruction needs as many values as it pops.
pub data Runs (c : Code) : ℕ → ℕ → Type 0 where
  enter : Runs c c.code 0
  fall :
      {pc h : ℕ} (b : Bc) (n : ℕ)
      → Runs c pc h
      → decode c.memory pc ≡ some b
      → pops b ≡ some n
      → n ≤ h
      → is_exit b.bc ≡ false
      → is_uncond_jmp b.bc ≡ false
      → Runs c (pc + size b) (h - n + pushes b)
  jump :
      {pc h : ℕ} (b : Bc) (n : ℕ)
      → Runs c pc h
      → decode c.memory pc ≡ some b
      → pops b ≡ some n
      → n ≤ h
      → is_exit b.bc ≡ false
      → is_jmp b.bc ≡ true
      → Runs c (jmp_target pc b) (h - n + pushes b)

pushes-le : (b : Bc) → pushes b ≤ 4
unfolding push_count
pushes-le b = ground arith

-- What a run meets at an address: an instruction inside the code, with the values it pops, and
-- room for those it pushes. `ret_` finds one value; `return_` may leave some behind.
pub record IsSafe (c : Code) (l pc h : ℕ) : Type 0 where
  pub b : Bc
  pub within : inside c pc ≡ true
  pub decoded : decode c.memory pc ≡ some b
  pub entered : h ≤ l
  pub fits : (b.bc ≡ return_) ⊎ ((n : ℕ) × (pops b ≡ some n) × (n ≤ h) × (h - n + pushes b ≤ l))
  pub clear : b.bc ≡ ret_ → h ≡ 1

-- No instruction pops 2^31 values or more, as a count of them would not be read as an `int`.
abbrev pub PopsFit : Code → Type 0
PopsFit c =
    (pc : ℕ) (b : Bc) (n : ℕ)
    → inside c pc ≡ true
    → decode c.memory pc ≡ some b
    → pops b ≡ some n
    → n < 2 ^ 31

return_lem : (b : Opcode) → is_return b ≡ true → b ≡ return_
return_lem b h = ground arith

after_pops-eq-ok :
    (b : Bc) (h o : ℕ)
    → after_pops b h ≡ ok o
    → (b.bc ≡ return_) ⊎ ((n : ℕ) × (pops b ≡ some n) × (o ≡ sub_int h n))
unfolding after_pops
after_pops-eq-ok b h o k = elim (Bool-cases (is_return b.bc)) [
  | inl y ↦ inl (return_lem b.bc y)
  | inr y ↦ elim (Option-cases (pops b)) [
    | inl n ↦ absurd (ok-neq-fail (sym (rw (y, n) at k)))
    | inr (n, p) ↦ inr (n, p, sym (eq_of_ok (rw (y, p) at k)))
  ]
]

return-pops : (b : Bc) → b.bc ≡ return_ → pops b ≡ none
unfolding pops_of
return-pops b h = ground arith

ret_-pops : (b : Bc) → b.bc ≡ ret_ → pops b ≡ some 1
unfolding pops_of pop_count
ret_-pops b h = ground arith

ret_-is_exit : (b : Bc) → b.bc ≡ ret_ → is_exit b.bc ≡ true
ret_-is_exit b h = ground arith

ret_-pushes : (b : Bc) → b.bc ≡ ret_ → pushes b ≡ 0
unfolding push_count
ret_-pushes b h = ground arith

-- The word arithmetic of a step, where the count of pops and the height are small.
module _ (h n l p : ℕ) (low : h ≤ l) (room : l + 4 < 2 ^ 31) (small : n < 2 ^ 31)
    (few : p ≤ 4) where
  pops-le : is_negative (sub_int h n) ≡ false → n ≤ h
  pops-le e = ground arith

  height-eq : n ≤ h → add_int (sub_int h n) p ≡ h - n + p
  height-eq le = omega arith

  height-le : n ≤ h → biased (h - n + p) ≤ biased l → h - n + p ≤ l
  height-le le b = omega arith

module _ (c : Code) (l : ℕ) (v : calculate_and_verify_stack c ≡ ok l) (room : l + 4 < 2 ^ 31)
    (fit : PopsFit c) where
  -- The search at the end, where all that is known was checked.
  Checked-at :
      (t : Search)
      → Inv c t
      → t.q ≡ []
      → t.max ≡ l
      → (pc h : ℕ) → Known t pc h
      → Checked c (Known t) l pc h
  Checked-at t i q m pc h (inl k) = subst (λ x. Checked c (Known t) x pc h) m (i.checked pc h k)
  Checked-at t i q m pc h (inr k) = absurd (subst (λ x. Waiting x pc h) q k)

  -- The pops of an instruction that was checked are there, and its pushes have room.
  pop_lem :
      (pc h n o : ℕ) (b : Bc)
      → inside c pc ≡ true
      → decode c.memory pc ≡ some b
      → after_pops b h ≡ ok o
      → is_negative o ≡ false
      → biased (add_int o (pushes b)) ≤ biased l
      → h ≤ l
      → pops b ≡ some n
      → (n ≤ h) × (add_int o (pushes b) ≡ h - n + pushes b) × (h - n + pushes b ≤ l)
  pop_lem pc h n o b w d k e le low p = elim (after_pops-eq-ok b h o k) [
    | inl r ↦ absurd (none-neq-some (sym (return-pops b r) ∙ p))
    | inr (m, p', q) ↦
        let same : o ≡ sub_int h n = q ∙ ap (sub_int h) (eq_of_some (sym p' ∙ p)) in
        let small = fit pc b n w d p in
        let few = pushes-le b in
        let enough = pops-le h n l (pushes b) low room small few (rw same at e) in
        let height =
          ap (λ x. add_int x (pushes b)) same
          ∙ height-eq h n l (pushes b) low room small few enough in
        (
          enough,
          height,
          height-le h n l (pushes b) low room small few enough
              (subst (λ x. biased x ≤ biased l) height le),
        )
  ]

  module _ (K : ℕ → ℕ → Type 0) (start : K c.code 0)
      (all : (pc h : ℕ) → K pc h → Checked c K l pc h) where
    -- A height that is known and low, at an instruction that was checked.
    safe : (pc h : ℕ) → K pc h → h ≤ l → IsSafe c l pc h
    safe pc h k low =
        let x = all pc h k in
        let pop =
          λ (n : ℕ). pop_lem pc h n x.o x.b x.within x.decoded x.popped x.enough x.bounded low in
        record {
          b = x.b;
          within = x.within;
          decoded = x.decoded;
          entered = low;
          fits = elim (after_pops-eq-ok x.b h x.o x.popped) [
            | inl r ↦ inl r
            | inr (n, p, q) ↦ let (le, _, high) = pop n p in inr (n, p, le, high)
          ];
          clear = λ r.
              let (le, eq, _) = pop 1 (ret_-pops x.b r) in
              omega (arith, eq, x.clear (ret_-is_exit x.b r), ret_-pushes x.b r);
        }

    Runs-known : {pc h : ℕ} → Runs c pc h → K pc h × (h ≤ l)
    Runs-known enter = (start, omega arith)
    Runs-known (fall {pc} {h} b n r d p le e u) =
        let (k, low) = Runs-known r in
        let x = all pc h k in
        let q : x.b ≡ b = eq_of_some (sym x.decoded ∙ d) in
        let (_, height, high) =
          pop_lem pc h n x.o x.b x.within x.decoded x.popped x.enough x.bounded low
            (ap pops q ∙ p) in
        let next = x.falls (ap (λ y. is_exit y.bc) q ∙ e) (ap (λ y. is_uncond_jmp y.bc) q ∙ u) in
        subst (λ y. K (pc + size y) (h - n + pushes y) × (h - n + pushes y ≤ l)) q
          (subst (K (pc + size x.b)) height next, high)
    Runs-known (jump {pc} {h} b n r d p le e u) =
        let (k, low) = Runs-known r in
        let x = all pc h k in
        let q : x.b ≡ b = eq_of_some (sym x.decoded ∙ d) in
        let (_, height, high) =
          pop_lem pc h n x.o x.b x.within x.decoded x.popped x.enough x.bounded low
            (ap pops q ∙ p) in
        let next = x.jumps (ap (λ y. is_exit y.bc) q ∙ e) (ap (λ y. is_jmp y.bc) q ∙ u) in
        subst (λ y. K (jmp_target pc y) (h - n + pushes y) × (h - n + pushes y ≤ l)) q
          (subst (K (jmp_target pc x.b)) height next, high)

  -- Where the verifier reports a stack length below 2^31 - 4, and no instruction within the code pops
  -- 2^31 values or more, no run of the code, whichever way its branches go, leaves the code or meets
  -- a byte that is no instruction, pops from an empty stack, exceeds the length, or reaches `ret_`
  -- with anything but the result on the stack.
  pub verified_run : {pc h : ℕ} → Runs c pc h → IsSafe c l pc h
  verified_run {pc} {h} r =
      let (t, i, q, m) = calculate-Inv c l v in
      let all = Checked-at t i q m in
      let (k, low) = Runs-known (Known t) i.entry all r in safe (Known t) i.entry all pc h k low
