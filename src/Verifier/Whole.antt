-- ===== src/Verifier/Whole.antt =====
-- rir/src/bc/CodeVerifier.cpp: what `verifyFunctionLayout` establishes for all the code objects of a
-- function, and that it ends.
use mathlib.Core.Path.{subst}
use rir.Prelude.{
  ℕ, zero, suc, ◌+◌, ◌≡◌, ◌≢◌, ◌⊎◌, inl, inr, sym, ap, ◌∙◌, true, not, some, List, [], ◌∷◌, leb,
  ◌==◌, get_elem?, Bool-cases, Option-cases, ==_iff, eq_of_some, ltb, ◌-◌,
}
use rir.Bytecode.Decode.{Bc, decode, size}
use rir.Verifier.{Code, Verdict, ok, check, end_code, calculate_and_verify_stack, ◌>>=◌}
use rir.Bytecode.{num_of}
use rir.Verifier.Source.{get_src_idx_at}
use rir.Verifier.Failure.{
  source_not_needed, magic_number, no_ast, stack_layout, code_length, overflow, last_opcode,
}
use rir.Verifier.Run.{eq_of_ok, ok-neq-fail}
use rir.Verifier.Accepted.{
  >>=-eq-ok, check-eq-ok, Accepted, check_instruction-Passed, check_instruction-Accepted,
}
use rir.Verifier.Layout.{scan, scan_next, scan_unknown, verify_code, is_placed}
use rir.Verifier.Checks.{
  ConstantPool, Api, CodeObject, push_promise, check_instruction, is_promise, may_end, code_magic,
}

abbrev pub Member : ℕ → List ℕ → Type 0
Member o [] = ⊥
Member o (p ∷ ps) = (o ≡ p) ⊎ Member o ps

-- The addresses that the scan of a code object comes by from `a` on.
pub data Sweep (c : Code) : ℕ → ℕ → Type 0 where
  first : {a : ℕ} → Sweep c a a
  later :
      {a pc : ℕ} (b : Bc)
      → decode c.memory a ≡ some b
      → a + size b ≢ end_code c
      → Sweep c (a + size b) pc
      → Sweep c a pc

module _ {ℓ} {S : Type ℓ} (api : Api S) (pool : ConstantPool S) (c : CodeObject) where
  -- A promise that an instruction makes is put on the work list, and nothing is taken from it.
  push_promise-Member :
      (b : Bc) (objs out : List ℕ)
      → push_promise api pool c b objs ≡ ok out
      → ((o : ℕ) → Member o objs → Member o out)
        × ((p : ℕ)
            → is_promise b.bc ≡ true
            → get_elem? c.promises b.immediate.first ≡ some p
            → Member p out)
  unfolding push_promise
  push_promise-Member b objs out h = elim (Bool-cases (is_promise b.bc)) [
    | inr n ↦ (λ o m. subst (Member o) (eq_of_ok (rw n at h)) m, λ p y. cc)
    | inl y ↦ elim (Option-cases (get_elem? c.promises b.immediate.first)) [
      | inl n ↦ absurd (ok-neq-fail (sym (rw (y, n) at h)))
      | inr (q, e) ↦
          let same : q ∷ objs ≡ out = eq_of_ok (rw (y, e) at h) in
          (
            λ o m. subst (Member o) same (inr m),
            λ p _ k. subst (Member p) same (inl (eq_of_some (sym k ∙ e))),
          )
    ]
  ]

  -- What the scan shows at an address.
  pub record Scanned (out : List ℕ) (pc : ℕ) : Type 0 where
    pub b : Bc
    pub decoded : decode c.bytes.memory pc ≡ some b
    pub accepted : Accepted api pool c pc b
    pub ended : pc + size b ≡ end_code c.bytes → may_end b ≡ true
    pub promised :
        (p : ℕ)
        → is_promise b.bc ≡ true
        → get_elem? c.promises b.immediate.first ≡ some p
        → Member p out

  -- From what was scanned at `a` and behind it, to all that the scan comes by from `a` on.
  Scanned-Sweep :
      (out : List ℕ) (a : ℕ) (x : Scanned out a)
      → (a + size x.b ≢ end_code c.bytes
          → (pc : ℕ) → Sweep c.bytes (a + size x.b) pc
          → Scanned out pc)
      → (pc : ℕ) → Sweep c.bytes a pc
      → Scanned out pc
  Scanned-Sweep out a x rest pc first = x
  Scanned-Sweep out a x rest pc (later b d n s) =
      let same : b ≡ x.b = eq_of_some (sym d ∙ x.decoded) in
      rest (subst (λ y. a + size y ≢ end_code c.bytes) same n) pc
        (subst (λ y. Sweep c.bytes (a + size y) pc) same s)

  -- A round at a byte that is no instruction, where the scan succeeds, leads to the same address.
  pub unknown-rest :
      (rest : ℕ → List ℕ → Verdict (List ℕ)) (a : ℕ) (objs out : List ℕ)
      → scan_unknown api pool c rest a objs ≡ ok out
      → rest a objs ≡ ok out
  unfolding scan_unknown
  unknown-rest rest a objs out h = elim (Bool-cases (ltb num_of (c.bytes.memory a))) [
    | inr n ↦ absurd (ok-neq-fail (sym (rw n at h)))
    | inl y ↦
        let (_, _, k) =
          >>=-eq-ok (check (get_src_idx_at c.srclist (a - c.bytes.code) == 0) source_not_needed) _
            (rw y at h) in
        elim (Bool-cases (a == end_code c.bytes)) [
          | inl e ↦ absurd (ok-neq-fail (sym (rw e at k)))
          | inr e ↦ rw e at k
        ]
  ]

  -- What a scan from `a` on shows.
  abbrev Shows : ℕ → List ℕ → List ℕ → Type 0
  Shows a objs out =
      ((o : ℕ) → Member o objs → Member o out) × ((pc : ℕ) → Sweep c.bytes a pc → Scanned out pc)

  scanned_lem :
      (n a : ℕ) (b : Bc)
      → decode c.bytes.memory a ≡ some b
      → (objs out : List ℕ)
      → ((a' : ℕ) (l m : List ℕ) → scan api pool c n a' l ≡ ok m → Shows a' l m)
      → (check_instruction api pool c a b objs >>= scan_next api pool c (scan api pool c n) a b)
        ≡ ok out
      → Shows a objs out
  unfolding scan_next
  scanned_lem n a b dec objs out go_on h =
      let (objs', k, h₃) = >>=-eq-ok (check_instruction api pool c a b objs) _ h in
      let (_, pushed) = check_instruction-Passed api pool c a b objs objs' k in
      let (kept, fresh) = push_promise-Member b objs objs' pushed in
      elim (Bool-cases (a + size b == end_code c.bytes)) [
        | inl y ↦
            let (_, m, e) = >>=-eq-ok (check (may_end b) last_opcode) _ (rw (y, scan_next) at h₃) in
            let same : objs' ≡ out = eq_of_ok e in
            (
              λ o z. subst (Member o) same (kept o z),
              Scanned-Sweep out a
                  (record {
                    b = b;
                    decoded = dec;
                    accepted = check_instruction-Accepted api pool c a b objs objs' k;
                    ended = λ _. check-eq-ok _ _ m;
                    promised = λ p z w. subst (Member p) same (fresh p z w);
                  })
                  (λ n'. absurd (n' ((==_iff _ _).0 y))),
            )
        | inr y ↦
            let (kept', behind) = go_on (a + size b) objs' out (rw (y, scan_next) at h₃) in
            (
              λ o z. kept' o (kept o z),
              Scanned-Sweep out a
                  (record {
                    b = b;
                    decoded = dec;
                    accepted = check_instruction-Accepted api pool c a b objs objs' k;
                    ended = λ e. cc (y, (==_iff (a + size b) (end_code c.bytes)).1 e);
                    promised = λ p z w. kept' p (fresh p z w);
                  })
                  (λ _. behind),
            )
      ]

  scan_lem :
      (n a : ℕ) (objs out : List ℕ)
      → scan api pool c n a objs ≡ ok out
      → ((o : ℕ) → Member o objs → Member o out) × ((pc : ℕ) → Sweep c.bytes a pc → Scanned out pc)
  unfolding scan
  scan_lem zero a objs out h = absurd (ok-neq-fail (sym h))
  scan_lem (suc n) a objs out h =
      let (_, _, h₁) = >>=-eq-ok (check (leb a (end_code c.bytes)) overflow) _ h in
      elim (Option-cases (decode c.bytes.memory a)) [
        | inl u ↦
            scan_lem n a objs out (unknown-rest (scan api pool c n) a objs out (rw (u, scan) at h₁))
        | inr (b, dec) ↦ scanned_lem n a b dec objs out (scan_lem n) (rw (dec, scan) at h₁)
      ]

  -- What the checks of one code object show.
  pub record Verified (out : List ℕ) : Type 0 where
    pub magical : c.magic ≡ code_magic
    pub sourced : c.src ≢ 0
    pub heights : calculate_and_verify_stack c.bytes ≡ ok c.stack_length
    pub scanned : (pc : ℕ) → Sweep c.bytes c.bytes.code pc → Scanned out pc

  pub verify_code_lem :
      (objs out : List ℕ)
      → verify_code api pool c objs ≡ ok out
      → Verified out × ((o : ℕ) → Member o objs → Member o out)
  unfolding verify_code
  verify_code_lem objs out h =
      let (_, m, h₁) = >>=-eq-ok (check (c.magic == code_magic) magic_number) _ h in
      let (_, s, h₂) = >>=-eq-ok (check (not (c.src == 0)) no_ast) _ h₁ in
      let (l, k, h₃) = >>=-eq-ok (calculate_and_verify_stack c.bytes) _ h₂ in
      let (_, q, h₄) = >>=-eq-ok (check (l == c.stack_length) stack_layout) _ h₃ in
      let (_, _, h₅) = >>=-eq-ok (check (is_placed api pool c) code_length) _ h₄ in
      let (kept, all) = scan_lem (suc (suc c.bytes.code_size)) c.bytes.code objs out h₅ in
      (
        record {
          magical = (==_iff _ _).0 (check-eq-ok _ _ m);
          sourced = λ e. cc (check-eq-ok _ _ s, (==_iff c.src 0).1 e);
          heights = k ∙ ap ok ((==_iff _ _).0 (check-eq-ok _ _ q));
          scanned = all;
        },
        kept,
      )
