-- ===== src/Verifier/Reports.antt =====
-- rir/src/bc/CodeVerifier.cpp, `verifyFunctionLayout`: the checks of a code object end.
use rir.Prelude.{
  not, ℕ, zero, suc, ◌+◌, ◌<◌, ◌≢◌, inl, inr, ap, Bool, true, false, List, [], ◌∷◌, arith, leb,
  Bool-cases, ◌==◌, Option-cases, ==_iff, ◌≤◌, ltb, ◌≡◌, some,
}
use rir.Bytecode.Decode.{Bc, size, decode}
use rir.Verifier.{Verdict, ok, fail, Failure, check, end_code, calculate_and_verify_stack, ◌>>=◌}
use rir.Verifier.Failure.{out_of_fuel, last_opcode, magic_number, no_ast, stack_layout, code_length}
use rir.Verifier.Run.{eq_of_fail, ok-neq-fail, size_pos}
use rir.Verifier.Ends.{calculate_and_verify_stack_ends}
use rir.Verifier.Checks.{
  ConstantPool, Api, CodeObject, check_sources, check_branch, check_variable, check_binding,
  check_cached, check_clear_cache, push_promise, check_names, check_call, check_instruction,
  may_end, code_magic,
}
use rir.Bytecode.{num_of}
use rir.Verifier.Whole.{Sweep, first, later}
use rir.Verifier.Layout.{scan, scan_next, verify_code, is_placed, scan_unknown}

pub bind_reports {ℓ κ} :
    {A : Type ℓ} {B : Type κ} (m : Verdict A) (f : A → Verdict B)
    → m ≢ fail out_of_fuel
    → ((a : A) → f a ≢ fail out_of_fuel)
    → (m >>= f) ≢ fail out_of_fuel
bind_reports (ok a) f h k = k a
bind_reports (fail e) f h k = λ x. h (ap fail (eq_of_fail x))

pub check_reports : (b : Bool) (e : Failure) → e ≢ out_of_fuel → check b e ≢ fail out_of_fuel
check_reports true e n h = ok-neq-fail h
check_reports false e n h = n (eq_of_fail h)

module _ {ℓ} {S : Type ℓ} (api : Api S) (pool : ConstantPool S) (c : CodeObject) where
  pub sources_reports : (pc : ℕ) (b : Bc) → check_sources api pool c pc b ≢ fail out_of_fuel
  unfolding check_sources
  sources_reports pc b h = ground arith

  pub branch_reports : (pc : ℕ) (b : Bc) → check_branch api pool c pc b ≢ fail out_of_fuel
  unfolding check_branch
  branch_reports pc b h = ground arith

  pub binding_reports : (idx : ℕ) → check_binding api pool c idx ≢ fail out_of_fuel
  unfolding check_binding
  binding_reports idx h = ground arith

  pub variable_reports : (b : Bc) → check_variable api pool c b ≢ fail out_of_fuel
  unfolding check_variable
  variable_reports b h = ground (arith, binding_reports b.immediate.first)

  pub cached_reports : (b : Bc) → check_cached api pool c b ≢ fail out_of_fuel
  unfolding check_cached check_binding
  cached_reports b h = ground arith

  pub clear_reports : (b : Bc) → check_clear_cache api pool c b ≢ fail out_of_fuel
  unfolding check_clear_cache
  clear_reports b h = ground arith

  pub promise_reports : (b : Bc) (objs : List ℕ) → push_promise api pool c b objs ≢ fail out_of_fuel
  unfolding push_promise
  promise_reports b objs h = ground arith

  pub names_report : (ns : List ℕ) → check_names api pool c ns ≢ fail out_of_fuel
  unfolding check_names
  names_report [] h = ok-neq-fail h
  names_report (n ∷ ns) h = ground (arith, names_report ns)

  pub call_reports : (b : Bc) → check_call api pool c b ≢ fail out_of_fuel
  unfolding check_call
  call_reports b h = ground (arith, names_report b.names)

  pub instruction_reports :
      (pc : ℕ) (b : Bc) (objs : List ℕ) → check_instruction api pool c pc b objs ≢ fail out_of_fuel
  unfolding check_instruction
  instruction_reports pc b objs =
      bind_reports (check_sources api pool c pc b) _ (sources_reports pc b) (λ _.
        bind_reports (check_branch api pool c pc b) _ (branch_reports pc b) (λ _.
          bind_reports (check_variable api pool c b) _ (variable_reports b) (λ _.
            bind_reports (check_cached api pool c b) _ (cached_reports b) (λ _.
              bind_reports (check_clear_cache api pool c b) _ (clear_reports b) (λ _.
                bind_reports (push_promise api pool c b objs) _ (promise_reports b objs) (λ o.
                  bind_reports (check_call api pool c b) _ (call_reports b)
                    (λ _. λ h. ok-neq-fail h)))))))

  pub next_reports :
      (rest : ℕ → List ℕ → Verdict (List ℕ)) (a : ℕ) (b : Bc) (objs : List ℕ)
      → (a + size b ≢ end_code c.bytes → rest (a + size b) objs ≢ fail out_of_fuel)
      → scan_next api pool c rest a b objs ≢ fail out_of_fuel
  unfolding scan_next
  next_reports rest a b objs h = elim (Bool-cases (a + size b == end_code c.bytes)) [
    | inl y ↦
        rw (y, scan_next)
          (bind_reports (check (may_end b) last_opcode) _
            (check_reports (may_end b) last_opcode (λ e. cc)) (λ _. λ e. ok-neq-fail e))
    | inr y ↦ rw (y, scan_next) (h (λ e. cc (y, (==_iff (a + size b) (end_code c.bytes)).1 e)))
  ]

  -- At the addresses that the scan comes by from `a` on, no byte is above `num_of`.
  abbrev pub IsKnown : ℕ → Type 0
  IsKnown a = (pc : ℕ) → Sweep c.bytes a pc → c.bytes.memory pc ≤ num_of

  unknown_reports :
      (rest : ℕ → List ℕ → Verdict (List ℕ)) (a : ℕ) (objs : List ℕ)
      → c.bytes.memory a ≤ num_of
      → scan_unknown api pool c rest a objs ≢ fail out_of_fuel
  unfolding scan_unknown
  unknown_reports rest a objs k h =
      let low : ltb num_of (c.bytes.memory a) ≡ false = ground (arith, k) in
      cc (eq_of_fail (rw low at h))

  scan_round :
      (n a : ℕ) (objs : List ℕ)
      → c.bytes.memory a ≤ num_of
      → (leb a (end_code c.bytes) ≡ true
          → (b : Bc) → decode c.bytes.memory a ≡ some b
          → a + size b ≢ end_code c.bytes
          → (objs' : List ℕ) → scan api pool c n (a + size b) objs' ≢ fail out_of_fuel)
      → scan api pool c (suc n) a objs ≢ fail out_of_fuel
  unfolding scan
  scan_round n a objs known next = elim (Bool-cases (leb a (end_code c.bytes))) [
    | inr over ↦ λ e. cc (eq_of_fail (rw (over, scan) at e))
    | inl on ↦ elim (Option-cases (decode c.bytes.memory a)) [
      | inl u ↦ rw (on, u, scan) (unknown_reports (scan api pool c n) a objs known)
      | inr (b, d) ↦
          rw (on, d, scan)
            (bind_reports (check_instruction api pool c a b objs) _ (instruction_reports a b objs)
              (λ objs'. next_reports (scan api pool c n) a b objs' (λ e. next on b d e objs')))
    ]
  ]

  -- The scan has fuel for all addresses up to the end, and one round more.
  pub scan_reports :
      (n a : ℕ) (objs : List ℕ)
      → IsKnown a
      → end_code c.bytes < a + n
      → scan api pool c (suc n) a objs ≢ fail out_of_fuel
  scan_reports zero a objs known h =
      scan_round zero a objs (known a first) (λ on b d e objs'. absurd (ground (arith, on, h)))
  scan_reports (suc n) a objs known h = scan_round (suc n) a objs (known a first) (λ on b d e objs'.
      scan_reports n (a + size b) objs' (λ pc s. known pc (later b d e s))
        (omega (arith, size_pos b)))

  pub verify_code_reports :
      (objs : List ℕ) → IsKnown c.bytes.code → verify_code api pool c objs ≢ fail out_of_fuel
  unfolding verify_code
  verify_code_reports objs known =
      bind_reports (check (c.magic == code_magic) magic_number) _
        (check_reports _ magic_number (λ e. cc))
        (λ _.
          bind_reports (check (not (c.src == 0)) no_ast) _ (check_reports _ no_ast (λ e. cc)) (λ _.
            bind_reports (calculate_and_verify_stack c.bytes) _
              (calculate_and_verify_stack_ends c.bytes)
              (λ l.
                bind_reports (check (l == c.stack_length) stack_layout) _
                  (check_reports _ stack_layout (λ e. cc))
                  (λ _.
                    bind_reports (check (is_placed api pool c) code_length) _
                      (check_reports _ code_length (λ e. cc))
                      (λ _.
                        scan_reports (suc c.bytes.code_size) c.bytes.code objs known
                          (omega arith))))))
