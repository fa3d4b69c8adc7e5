-- ===== src/Verifier/Finishes.antt =====
-- rir/src/bc/CodeVerifier.cpp, `verifyFunctionLayout`: the scan of a code object reaches its end, and
-- the work list of code objects runs empty, if no promise contains itself.
use mathlib.Core.Path.{subst}
use rir.Prelude.{
  not, ℕ, zero, suc, ◌+◌, ◌<◌, ◌≡◌, ◌≢◌, inl, inr, sym, ap, ◌∙◌, some, List, [], ◌∷◌, arith,
  get_elem?, leb, Bool-cases, Option-cases, ◌==◌,
}
use rir.Bytecode.Decode.{Bc, size, decode}
use rir.Verifier.{ok, fail, check, end_code, calculate_and_verify_stack}
use rir.Verifier.Failure.{
  out_of_fuel, invalid_type, bad_size, overflow, last_opcode, magic_number, no_ast, stack_layout,
  code_length,
}
use rir.Verifier.Run.{Verdict-cases, eq_of_ok, eq_of_fail, ok-neq-fail}
use rir.Verifier.Checks.{
  ConstantPool, Api, CodeObject, is_promise, push_promise, check_instruction, may_end, code_magic,
}
use rir.Verifier.Layout.{
  FunctionObject, scan, scan_next, verify_code, verify_objects, push_defaults,
  verify_function_layout, is_placed,
}
use rir.Verifier.Whole.{unknown-rest}
use rir.Verifier.Accepted.{>>=-eq-ok, check_instruction-Passed}
use rir.Verifier.Reports.{IsKnown, bind_reports, check_reports, verify_code_reports}

-- No code object is a promise of itself, directly or through others.
pub record IsRanked (heap : ℕ → CodeObject) (rank : ℕ → ℕ) : Type 0 where
  pub lower : (o i p : ℕ) → get_elem? (heap o).promises i ≡ some p → rank p < rank o

module _ {ℓ} {S : Type ℓ} (api : Api S) (pool : ConstantPool S) (c : CodeObject) where
  -- The work list grows by promises of the code object.
  data Grows (objs : List ℕ) : List ℕ → Type 0 where
    same : Grows objs objs
    more :
        {out : List ℕ} (i p : ℕ)
        → get_elem? c.promises i ≡ some p
        → Grows objs out
        → Grows objs (p ∷ out)

  Grows-trans : {a b d : List ℕ} → Grows a b → Grows b d → Grows a d
  Grows-trans g same = g
  Grows-trans g (more i p e h) = more i p e (Grows-trans g h)

  push_promise-Grows :
      (b : Bc) (objs out : List ℕ) → push_promise api pool c b objs ≡ ok out → Grows objs out
  unfolding push_promise
  push_promise-Grows b objs out h = elim (Bool-cases (is_promise b.bc)) [
    | inr n ↦ subst (Grows objs) (eq_of_ok (rw n at h)) same
    | inl y ↦ elim (Option-cases (get_elem? c.promises b.immediate.first)) [
      | inl n ↦ absurd (ok-neq-fail (sym (rw (y, n) at h)))
      | inr (q, e) ↦
          subst (Grows objs) (eq_of_ok (rw (y, e) at h)) (more b.immediate.first q e same)
    ]
  ]

  scan-Grows : (n a : ℕ) (objs out : List ℕ) → scan api pool c n a objs ≡ ok out → Grows objs out
  unfolding scan scan_next
  scan-Grows zero a objs out h = absurd (ok-neq-fail (sym h))
  scan-Grows (suc n) a objs out h =
      let (_, _, h₁) = >>=-eq-ok (check (leb a (end_code c.bytes)) overflow) _ h in
      elim (Option-cases (decode c.bytes.memory a)) [
        | inl u ↦
            scan-Grows n a objs out
              (unknown-rest api pool c (scan api pool c n) a objs out (rw (u, scan) at h₁))
        | inr (b, d) ↦
            let (objs', k, h₂) =
              >>=-eq-ok (check_instruction api pool c a b objs) _ (rw (d, scan) at h₁) in
            let (_, pushed) = check_instruction-Passed api pool c a b objs objs' k in
            Grows-trans (push_promise-Grows b objs objs' pushed)
              (elim (Bool-cases (a + size b == end_code c.bytes)) [
                | inl y ↦
                    let (_, _, e) =
                      >>=-eq-ok (check (may_end b) last_opcode) _ (rw (y, scan_next) at h₂) in
                    subst (Grows objs') (eq_of_ok e) same
                | inr y ↦ scan-Grows n (a + size b) objs' out (rw (y, scan_next) at h₂)
              ])
      ]

  verify_code-Grows : (objs out : List ℕ) → verify_code api pool c objs ≡ ok out → Grows objs out
  unfolding verify_code
  verify_code-Grows objs out h =
      let (_, _, h₁) = >>=-eq-ok (check (c.magic == code_magic) magic_number) _ h in
      let (_, _, h₂) = >>=-eq-ok (check (not (c.src == 0)) no_ast) _ h₁ in
      let (l, _, h₃) = >>=-eq-ok (calculate_and_verify_stack c.bytes) _ h₂ in
      let (_, _, h₄) = >>=-eq-ok (check (l == c.stack_length) stack_layout) _ h₃ in
      let (_, _, h₅) = >>=-eq-ok (check (is_placed api pool c) code_length) _ h₄ in
      scan-Grows (suc (suc c.bytes.code_size)) c.bytes.code objs out h₅

module _ {ℓ} {S : Type ℓ} (api : Api S) (pool : ConstantPool S) (heap : ℕ → CodeObject)
    (known : (o : ℕ) → IsKnown api pool (heap o) (heap o).bytes.code) where
  -- Some number of rounds is enough for a work list.
  abbrev Ends : List ℕ → Type 0
  Ends objs = (n : ℕ) × (verify_objects api pool heap n objs ≢ fail out_of_fuel)

  Ends-Grows :
      (o : ℕ) {objs out : List ℕ}
      → ((i p : ℕ) → get_elem? (heap o).promises i ≡ some p → (l : List ℕ) → Ends l → Ends (p ∷ l))
      → Grows api pool (heap o) objs out
      → Ends objs
      → Ends out
  Ends-Grows o each same e = e
  Ends-Grows o each (more {out} i p k g) e = each i p k out (Ends-Grows o each g e)

  Ends-cons :
      (o : ℕ) (objs : List ℕ)
      → ((i p : ℕ) → get_elem? (heap o).promises i ≡ some p → (l : List ℕ) → Ends l → Ends (p ∷ l))
      → Ends objs
      → Ends (o ∷ objs)
  unfolding verify_objects
  Ends-cons o objs each e = elim (Verdict-cases (verify_code api pool (heap o) objs)) [
    | inr (f, k) ↦ (
      1,
      λ h.
          verify_code_reports api pool (heap o) objs (known o)
            (k ∙ ap fail (eq_of_fail (rw k at h))),
    )
    | inl (out, k) ↦
        let (n, ends) = Ends-Grows o each (verify_code-Grows api pool (heap o) objs out k) e in
        (suc n, rw k ends)
  ]

  module _ (rank : ℕ → ℕ) (ranked : IsRanked heap rank) where
    Ends-rank : (r o : ℕ) → rank o < r → (objs : List ℕ) → Ends objs → Ends (o ∷ objs)
    Ends-rank zero o h objs e = absurd (omega arith)
    Ends-rank (suc r) o h objs e =
        Ends-cons o objs (λ i p k l. Ends-rank r p (omega (arith, ranked.lower o i p k)) l) e

    Ends-all : (objs : List ℕ) → Ends objs
    unfolding verify_objects
    Ends-all [] = (1, λ h. ok-neq-fail h)
    Ends-all (o ∷ objs) = Ends-rank (suc (rank o)) o (omega arith) objs (Ends-all objs)

    -- The verification of a function ends, with success or an error, if no promise contains itself,
    -- directly or through others, and if the scan of each code object, read one instruction behind the
    -- other, comes by no byte above `num_of`.
    pub verify_function_layout_ends :
        (f : FunctionObject)
        → (n : ℕ) × (verify_function_layout api pool heap n f ≢ fail out_of_fuel)
    unfolding verify_function_layout
    verify_function_layout_ends f =
        let (n, ends) = Ends-all (push_defaults f.default_args (f.body ∷ [])) in
        (
          n,
          bind_reports (check f.is_external invalid_type) _
              (check_reports f.is_external invalid_type (λ e. cc))
              (λ _.
                bind_reports (check (leb f.size f.xlength) bad_size) _
                  (check_reports (leb f.size f.xlength) bad_size (λ e. cc)) (λ _. ends)),
        )
