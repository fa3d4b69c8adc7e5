-- ===== src/Verifier/Rejects.antt =====
-- rir/src/bc/CodeVerifier.cpp: code that is refused, code that the scan never leaves, and
-- bad code that is accepted because a count wraps around.
use rir.Prelude.{
  ℕ, zero, suc, ◌+◌, ◌-◌, ◌≤◌, ◌<◌, ◌≡◌, ◌≢◌, inl, inr, refl, ap, true, false, not, none, some,
  List, [], ◌∷◌, arith, leb, ltb, ◌==◌, ==_iff, Bool-cases, get_elem?, length,
}
use rir.Bytecode.{num_of, opcodes}
use rir.Bytecode.Decode.{Bc, decode, size}
use rir.Verifier.{Verdict, ok, fail, Failure, ◌>>=◌, check, end_code, calculate_and_verify_stack}
use rir.Verifier.Failure.{out_of_fuel, overflow, magic_number, no_ast, stack_layout, code_length}
use rir.Verifier.Run.{size_pos}
use rir.Verifier.Ends.{calculate_and_verify_stack_ends}
use rir.Verifier.Source.{get_src_idx_at}
use rir.Verifier.Checks.{ConstantPool, code_magic, Api, CodeObject, check_instruction}
use rir.Verifier.Accepted.{Accepted, check_instruction-Accepted, check-eq-ok}
use rir.Verifier.Layout.{verify_code, scan, scan_next, scan_unknown, is_placed}
use rir.Verifier.Whole.{Sweep, first, later}
use rir.Verifier.Reports.{check_reports, instruction_reports}

-- Refused with an error, and not for lack of rounds.
abbrev Refused {ℓ} : {V : Type ℓ} → Verdict V → Type ℓ
Refused m = (f : Failure) × (m ≡ fail f) × (f ≢ out_of_fuel)

-- A sequence is refused by its first statement or by what follows.
bind-Refused {ℓ κ} :
    {A : Type ℓ} {B : Type κ} (m : Verdict A) (f : A → Verdict B)
    → m ≢ fail out_of_fuel
    → ((a : A) → m ≡ ok a → Refused (f a))
    → Refused (m >>= f)
bind-Refused (ok a) f h k = k a refl
bind-Refused (fail e) f h k = (e, refl, λ q. h (ap fail q))

apart : (m n : ℕ) → m ≢ n → (m == n) ≡ false
apart m n h = elim (Bool-cases (m == n)) [ inl y ↦ absurd (h ((==_iff m n).0 y)) | inr y ↦ y ]

module _ {ℓ} {S : Type ℓ} (api : Api S) (pool : ConstantPool S) (c : CodeObject) where
  -- The scan comes by all addresses up to the bad instruction, or is refused before.
  scan-Refused :
      (n a pc : ℕ) (b : Bc) (objs : List ℕ)
      → Sweep c.bytes a pc
      → decode c.bytes.memory pc ≡ some b
      → ¬ Accepted api pool c pc b
      → end_code c.bytes < a + n
      → Refused (scan api pool c (suc n) a objs)
  unfolding scan scan_next
  scan-Refused n a pc b objs first d bad h =
      bind-Refused (check (leb a (end_code c.bytes)) overflow) _
        (check_reports (leb a (end_code c.bytes)) overflow (λ e. cc))
        (λ _ on.
          rw (d, scan)
            (bind-Refused (check_instruction api pool c a b objs) _
              (instruction_reports api pool c a b objs)
              (λ out e. absurd (bad (check_instruction-Accepted api pool c a b objs out e)))))
  scan-Refused zero a pc b objs (later b₀ d₀ ne s) d bad h =
      bind-Refused (check (leb a (end_code c.bytes)) overflow) _
        (check_reports (leb a (end_code c.bytes)) overflow (λ e. cc))
        (λ _ on. absurd (ground (arith, check-eq-ok _ _ on, h)))
  scan-Refused (suc n) a pc b objs (later b₀ d₀ ne s) d bad h =
      bind-Refused (check (leb a (end_code c.bytes)) overflow) _
        (check_reports (leb a (end_code c.bytes)) overflow (λ e. cc))
        (λ _ on.
          rw (d₀, scan)
            (bind-Refused (check_instruction api pool c a b₀ objs) _
              (instruction_reports api pool c a b₀ objs)
              (λ out e.
                rw (apart (a + size b₀) (end_code c.bytes) ne, scan_next)
                  (scan-Refused n (a + size b₀) pc b out s d bad (omega (arith, size_pos b₀))))))

  -- A code object with an instruction that is not as the verifier wants it, at an address that the
  -- scan comes by, is refused with an error, and not for lack of rounds.
  pub verify_code_rejects :
      (objs : List ℕ) (pc : ℕ) (b : Bc)
      → Sweep c.bytes c.bytes.code pc
      → decode c.bytes.memory pc ≡ some b
      → ¬ Accepted api pool c pc b
      → (f : Failure) × (verify_code api pool c objs ≡ fail f) × (f ≢ out_of_fuel)
  unfolding verify_code
  verify_code_rejects objs pc b s d bad =
      bind-Refused (check (c.magic == code_magic) magic_number) _
        (check_reports _ magic_number (λ e. cc))
        (λ _ _.
          bind-Refused (check (not (c.src == 0)) no_ast) _ (check_reports _ no_ast (λ e. cc))
            (λ _ _.
              bind-Refused (calculate_and_verify_stack c.bytes) _
                (calculate_and_verify_stack_ends c.bytes)
                (λ l _.
                  bind-Refused (check (l == c.stack_length) stack_layout) _
                    (check_reports _ stack_layout (λ e. cc))
                    (λ _ _.
                      bind-Refused (check (is_placed api pool c) code_length) _
                        (check_reports _ code_length (λ e. cc))
                        (λ _ _.
                          scan-Refused (suc c.bytes.code_size) c.bytes.code pc b objs s d bad
                            (omega arith))))))

  past-none : {A : Type 0} (xs : List A) (i : ℕ) → length xs ≤ i → get_elem? xs i ≡ none
  past-none [] i h = refl
  past-none (x ∷ xs) zero h = absurd (omega (arith, h))
  past-none (x ∷ xs) (suc i) h = past-none xs i (omega (arith, h))

  unknown_byte : (pc : ℕ) → num_of < c.bytes.memory pc → decode c.bytes.memory pc ≡ none
  unfolding decode
  unknown_byte pc k = rw (past-none opcodes (c.bytes.memory pc) (omega (arith, k))) refl

  -- The scan does not end at a byte above `num_of` before the end of the code, if no source is noted
  -- for its address: it takes the byte for an instruction of size 0. No number of rounds is enough.
  pub scan_stuck :
      (n pc : ℕ) (objs : List ℕ)
      → pc < end_code c.bytes
      → num_of < c.bytes.memory pc
      → get_src_idx_at c.srclist (pc - c.bytes.code) ≡ 0
      → scan api pool c n pc objs ≡ fail out_of_fuel
  unfolding scan scan_unknown
  scan_stuck zero pc objs h k s = refl
  scan_stuck (suc n) pc objs h k s =
      let on : leb pc (end_code c.bytes) ≡ true = ground (arith, h) in
      let before : (pc == end_code c.bytes) ≡ false = ground (arith, h) in
      let above : ltb num_of (c.bytes.memory pc) ≡ true = ground (arith, k) in
      rw (on, unknown_byte pc k, above, s, before, scan, scan_unknown) (scan_stuck n pc objs h k s)
