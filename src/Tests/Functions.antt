-- ===== src/Tests/Functions.antt =====
-- Functions with one or two code objects, and the theorems about their verification.
use rir.Verifier.Source.{get_src_idx_at}
use rir.Prelude.{
  zero, suc, ◌≤◌, Bool, leb, ◌&&◌, ◌↔◌, ℕ, ◌≡◌, ◌≢◌, refl, true, false, none, List, [], ◌∷◌, arith,
}
use rir.Bytecode.{num_of, push_count}
use rir.Bytecode.Opcode.{add_}
use rir.Bytecode.Decode.{Bc, decode, pops_of, size, jmp_target}
use rir.Verifier.{calculate_and_verify_stack, ok, fail, Failure}
use rir.Verifier.Failure.{out_of_fuel}
use rir.Verifier.Sound.{IsSafe}
use rir.Verifier.Checks.{Api, CodeObject, code_magic, ConstantPool, has_sources, check_instruction}
use rir.Verifier.Layout.{FunctionObject, scan, verify_code, verify_function_layout}
use rir.Verifier.Whole.{first, Verified}
use rir.Verifier.Accepted.{Accepted}
use rir.Verifier.Passes.{check_instruction_iff}
use rir.Verifier.Reports.{IsKnown}
use rir.Verifier.Objects.{body, Part-Verified, Part-run}
use rir.Verifier.Finishes.{IsRanked, verify_function_layout_ends}
use rir.Verifier.Rejects.{verify_code_rejects, scan_stuck}
use rir.Tests.Bytecodes.{jumping, jumping-PopsFit, jumping_run, stored, pushing}

-- The values of R are numbers, all of them symbols with a name.
abbrev symbols : Api ℕ
symbols = record { is_symbol = λ s. true; is_nil = λ s. false; name_length = λ s. 1 }

abbrev no_constants : ConstantPool ℕ
no_constants = record { length = 0; at = λ i. 0 }

abbrev object : CodeObject
object = record {
  bytes = jumping;
  magic = code_magic;
  src = 1;
  stack_length = 1;
  behind = 64;
  srclist = [];
  binding_cache_size = 2;
  promises = [];
}

abbrev function : FunctionObject
function = record { is_external = true; size = 8; xlength = 8; body = 0; default_args = none ∷ [] }

function_passes : verify_function_layout symbols no_constants (λ o. object) 2 function ≡ ok tt
unfolding verify_function_layout decode pops_of size push_count jmp_target
    calculate_and_verify_stack get_src_idx_at
function_passes = refl

Part-Verified_example : (out : List ℕ) × Verified symbols no_constants object out
Part-Verified_example =
    Part-Verified symbols no_constants (λ o. object) 2 function function_passes body

Part-run_example : IsSafe jumping 1 10 1
Part-run_example =
    Part-run symbols no_constants (λ o. object) 2 function function_passes body (omega arith)
      jumping-PopsFit jumping_run

object-IsRanked : IsRanked (λ o. object) (λ o. 0)
object-IsRanked = record { lower = λ o i p e. cc }

known_byte : List ℕ → Bool
known_byte [] = true
known_byte (b ∷ l) = leb b num_of && known_byte l

stored-le : (l : List ℕ) (pc : ℕ) → known_byte l ≡ true → stored l pc ≤ num_of
unfolding known_byte
stored-le [] pc h = omega arith
stored-le (b ∷ l) zero h = ground (arith, h)
stored-le (b ∷ l) (suc pc) h = stored-le l pc (ground (arith, h))

object-IsKnown : IsKnown symbols no_constants object 0
unfolding known_byte
object-IsKnown pc s = stored-le (23 ∷ 0 ∷ 0 ∷ 0 ∷ 0 ∷ 63 ∷ 0 ∷ 0 ∷ 0 ∷ 0 ∷ 87 ∷ []) pc refl

verify_function_layout_ends_example :
    (n : ℕ) × (verify_function_layout symbols no_constants (λ o. object) n function
      ≢ fail out_of_fuel)
verify_function_layout_ends_example =
    verify_function_layout_ends symbols no_constants (λ o. object) (λ o. object-IsKnown) (λ o. 0)
      object-IsRanked function

-- `add_; ret_` without a source for the addition
abbrev adding : CodeObject
adding = record object {
  bytes = record { memory = stored (36 ∷ 87 ∷ []); code = 0; code_size = 2 };
}

abbrev addition : Bc
addition = record pushing { bc = add_ }

addition_fails : ¬ Accepted symbols no_constants adding 0 addition
unfolding has_sources get_src_idx_at
addition_fails v = v.sourced refl refl

verify_code_rejects_example :
    (f : Failure) × (verify_code symbols no_constants adding [] ≡ fail f) × (f ≢ out_of_fuel)
unfolding decode
verify_code_rejects_example =
    verify_code_rejects symbols no_constants adding [] 0 addition first refl addition_fails

check_instruction_iff_example :
    ((out : List ℕ) × (check_instruction symbols no_constants adding 0 addition [] ≡ ok out))
    ↔ Accepted symbols no_constants adding 0 addition
check_instruction_iff_example = check_instruction_iff symbols no_constants adding 0 addition []

-- A byte above the table behind `br_ -5`, which is never reached by a run.
abbrev dead : CodeObject
dead = record object {
  bytes = record {
    memory = stored (63 ∷ 251 ∷ 255 ∷ 255 ∷ 255 ∷ 255 ∷ []);
    code = 0;
    code_size = 6;
  };
  stack_length = 0;
}

scan_stuck_run : scan symbols no_constants dead 1000 5 [] ≡ fail out_of_fuel
unfolding get_src_idx_at
scan_stuck_run = scan_stuck symbols no_constants dead 1000 5 [] (omega arith) (omega arith) refl

-- The rest of the verifier accepts that code, so that the scan is what does not end.
dead_run :
    (calculate_and_verify_stack dead.bytes ≡ ok 0)
    × (verify_code symbols no_constants dead [] ≡ fail out_of_fuel)
unfolding calculate_and_verify_stack decode pops_of size push_count jmp_target verify_code
    get_src_idx_at scan
dead_run = (refl, refl)
