-- ===== src/Tests/Bytecodes.antt =====
-- Code of a few instructions, and the theorems about the verifier at it.
use mathlib.Core.Path.{subst}
use rir.Prelude.{
  ℕ, zero, suc, ◌+◌, ◌^◌, ◌<◌, ◌≡◌, ◌≢◌, refl, Bool, true, ◌&&◌, Option, none, some, List, [], ◌∷◌,
  ltb, ltb→lt, arith, get_elem?, eq_of_some, sym, ◌-◌,
}
use rir.Bytecode.{push_count}
use rir.Bytecode.Opcode.{push_, br_, popn_, named_call_}
use rir.Bytecode.Decode.{Bc, Memory, decode, pops, pops_of, size, copied, jmp_target}
use rir.Verifier.{Code, calculate_and_verify_stack, ok, fail}
use rir.Verifier.Failure.{out_of_fuel}
use rir.Bytecode.Write.{CodeStream, pos, write}
use rir.Bytecode.RoundTrip.{IsWritable, decode-write}
use rir.Verifier.Source.{get_src_idx_at, get_src_idx_at_lem}
use rir.Verifier.Sound.{Runs, enter, fall, jump, IsSafe, PopsFit, verified_run}
use rir.Verifier.Ends.{calculate_and_verify_stack_ends}

-- `push_ 0; br_ 0; ret_`
abbrev pub stored : List ℕ → Memory
stored l a = elim (get_elem? l a) [ some b ↦ b | none ↦ 0 ]

abbrev pub jumping : Code
jumping = record {
  memory = stored (23 ∷ 0 ∷ 0 ∷ 0 ∷ 0 ∷ 63 ∷ 0 ∷ 0 ∷ 0 ∷ 0 ∷ 87 ∷ []);
  code = 0;
  code_size = 11;
}

pub jumping_height : calculate_and_verify_stack jumping ≡ ok 1
unfolding calculate_and_verify_stack decode pops_of size push_count jmp_target
jumping_height = refl

calculate_and_verify_stack_ends_example : calculate_and_verify_stack jumping ≢ fail out_of_fuel
calculate_and_verify_stack_ends_example = calculate_and_verify_stack_ends jumping

-- Whether an instruction pops few values, and a check of this at all addresses below a bound.
few : Option Bc → Bool
few none = true
few (some b) = elim (pops b) [ some n ↦ ltb n (2 ^ 31) | none ↦ true ]

few_lem :
    (o : Option Bc) (b : Bc) (n : ℕ) → few o ≡ true → o ≡ some b → pops b ≡ some n → n < 2 ^ 31
unfolding few
few_lem none b n h d p = cc
few_lem (some c) b n h d p =
    ltb→lt n (2 ^ 31) (rw (p, few) at (subst (λ x. few (some x) ≡ true) (eq_of_some d) h))

all_few : Memory → ℕ → Bool
all_few m zero = true
all_few m (suc n) = few (decode m n) && all_few m n

all_few_lem : (m : Memory) (k pc : ℕ) → all_few m k ≡ true → pc < k → few (decode m pc) ≡ true
unfolding all_few
all_few_lem m zero pc h l = absurd (omega arith)
all_few_lem m (suc k) pc h l = ground (arith, all_few_lem m k pc)

jumping_few : all_few jumping.memory 11 ≡ true
unfolding all_few few decode pops_of
jumping_few = refl

pub jumping-PopsFit : PopsFit jumping
jumping-PopsFit pc b n w d p =
    few_lem (decode jumping.memory pc) b n
      (all_few_lem jumping.memory 11 pc jumping_few (ground arith)) d p

abbrev pub pushing : Bc
pushing = record {
  bc = push_;
  immediate = record { first = 0; second = 0; third = 0; fourth = 0 };
  names = [];
}

abbrev branching : Bc
branching = record pushing { bc = br_ }

-- A run up to `ret_`.
pub jumping_run : Runs jumping 10 1
unfolding decode pops_of size push_count jmp_target
jumping_run =
    jump branching 0 (fall pushing 0 enter refl refl (omega arith) refl refl) refl refl
      (omega arith) refl refl

verified_run_example : IsSafe jumping 1 10 1
verified_run_example =
    verified_run jumping 1 jumping_height (omega arith) jumping-PopsFit jumping_run

-- `nop_` is in the stream, and a call with one named argument is written behind it.
abbrev calling : Bc
calling = record {
  bc = named_call_;
  immediate = record { first = 1; second = 258; third = 0; fourth = 0 };
  names = 7 ∷ [];
}

abbrev before : CodeStream
before = record { code = 1 ∷ []; patchpoints = [] }

abbrev after : CodeStream
after = record {
  code =
      1 ∷ 15 ∷ 1 ∷ 0 ∷ 0 ∷ 0 ∷ 2 ∷ 1 ∷ 0 ∷ 0 ∷ 0 ∷ 0 ∷ 0 ∷ 0 ∷ 0 ∷ 0 ∷ 0 ∷ 0 ∷ 7 ∷ 0 ∷ 0 ∷ 0 ∷ [];
  patchpoints = [];
}

calling_written : write calling before ≡ some after
unfolding write
calling_written = refl

calling-IsWritable : IsWritable calling
unfolding copied
calling-IsWritable = record {
  fits = omega arith;
  trimmed = λ n e. rw (sym (eq_of_some e)) refl;
  named = refl;
  names_fit = (omega arith, tt);
}

decode-write_example :
    (decode (stored after.code) 1 ≡ some calling) × (pos after ≡ pos before + size calling)
decode-write_example =
    decode-write (stored after.code) 0 calling before after calling-IsWritable calling_written
      (omega arith)

abbrev wrapping : Bc
wrapping = record pushing {
  bc = popn_;
  immediate = record { first = 2 ^ 32 - 1; second = 0; third = 0; fourth = 0 };
}

abbrev three_sources : List (ℕ × ℕ)
three_sources = (0, 5) ∷ (4, 6) ∷ (9, 7) ∷ []

get_src_idx_at_lem_example :
    ((j s : ℕ) → get_elem? three_sources j ≡ some (4, s) → get_src_idx_at three_sources 4 ≡ s)
    × (((j s : ℕ) → get_elem? three_sources j ≢ some (4, s)) → get_src_idx_at three_sources 4 ≡ 0)
get_src_idx_at_lem_example = get_src_idx_at_lem three_sources 4 (omega arith)
