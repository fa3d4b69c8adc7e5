-- ===== src/Verifier.antt =====
-- rir/src/bc/CodeVerifier.cpp, `calculateAndVerifyStack`: the heights of the operand stack along
-- all paths of a code object. A failed assertion ends the run with a value that names it. An
-- `int` is the word of its bits, and addresses are numbers.
pub mod Run
pub mod Ends
pub mod Closed
pub mod Kept
pub mod Sound
pub mod Source
pub mod Checks
pub mod Accepted
pub mod Passes
pub mod Layout
pub mod Whole
pub mod Objects
pub mod Reports
pub mod Finishes
pub mod Rejects
use rir.Prelude.{
  ℕ, zero, suc, ◌+◌, ◌-◌, ◌*◌, ◌^◌, ◌%◌, Bool, true, false, not, ◌&&◌, Option, none, some, List, [],
  ◌∷◌, ltb, leb, ◌==◌, if◌then◌else◌,
}
use rir.Bytecode.{Opcode}
use rir.Bytecode.Opcode.{return_}
use rir.Bytecode.Decode.{
  Memory, Bc, decode, size, pops, pushes, is_exit, is_jmp, is_uncond_jmp, jmp_target,
}

-- The part of a code object that the check reads: its bytes are in memory.
pub record Code : Type 0 where
  pub memory : Memory
  pub code : ℕ
  pub code_size : ℕ

abbrev pub end_code : Code → ℕ
end_code c = c.code + c.code_size

pub record State : Type 0 where
  pub pc : ℕ
  pub ostack : ℕ

-- The assertions, the errors that are reported, and a loop that is out of fuel.
pub data Failure : Type 0 where
  imbalance : Failure
  outside : Failure
  no_instruction : Failure
  too_many_pops : Failure
  not_clear : Failure
  invalid_type bad_size magic_number no_ast stack_layout code_length overflow : Failure
  source_required source_not_needed branch_outside arglist_index : Failure
  not_a_symbol empty_name cache_index cache_range no_promise call_target : Failure
  last_opcode : Failure
  out_of_fuel : Failure

-- What a part of the verifier comes to.
pub data Verdict {ℓ} (V : Type ℓ) : Type ℓ where
  fail : Failure → Verdict V
  ok : V → Verdict V

-- The statements behind one that fails are not run.
infixl 5 ◌>>=◌ ◌>>◌
abbrev pub ◌>>=◌ {ℓ κ} : {V : Type ℓ} {W : Type κ} → Verdict V → (V → Verdict W) → Verdict W
v >>= next = elim v [ fail why ↦ fail why | ok x ↦ next x ]

abbrev pub ◌>>◌ {κ} : {W : Type κ} → Verdict (Unit {0}) → Verdict W → Verdict W
v >> w = v >>= (λ _. w)

abbrev pub check : Bool → Failure → Verdict (Unit {0})
check b e = if b then ok tt else fail e

-- The sign of an `int`, and a comparison of two.
abbrev pub is_negative : ℕ → Bool
is_negative w = leb (2 ^ 31) w

abbrev pub biased : ℕ → ℕ
biased w = (w + 2 ^ 31) % 2 ^ 32

unfoldable pub greater : ℕ → ℕ → Bool
greater v w = ltb (biased w) (biased v)

abbrev pub sub_int : ℕ → ℕ → ℕ
sub_int a b = (a + 2 ^ 32 - b % 2 ^ 32) % 2 ^ 32

abbrev pub add_int : ℕ → ℕ → ℕ
add_int a b = (a + b) % 2 ^ 32

abbrev pub is_return : Opcode → Bool
is_return return_ = true
is_return _ = false

-- `updateMax`, on the one field that it changes.
unfoldable pub update_max : ℕ → ℕ → ℕ
unfolding greater
update_max max o = if greater o max then o else max

-- What is left on the stack by the pops of an instruction.
unfoldable pub after_pops : Bc → ℕ → Verdict ℕ
after_pops b o =
    if is_return b.bc
    then ok 0
    else elim (pops b) [ some n ↦ ok (sub_int o n) | none ↦ fail no_instruction ]

unfoldable pub advance : Bc → State → Verdict State
unfolding after_pops
advance b s = do
  o ← after_pops b s.ostack
  check (not (is_negative o)) too_many_pops
  ok (record { pc = s.pc + size b; ostack = add_int o (pushes b) })

-- `std::map<Opcode*, State>`, from an address to the height at it: a later entry hides an earlier.
unfoldable pub find : ℕ → List (ℕ × ℕ) → Option ℕ
find pc [] = none
find pc ((p, o) ∷ m) = if pc == p then some o else find pc m

-- The data of the function between two rounds of its outer loop.
pub record Search : Type 0 where
  pub max : ℕ
  pub state : List (ℕ × ℕ)
  pub q : List State

-- The inner loop goes on with a state, or is left.
pub data Next : Type 0 where
  go_on : State → Search → Next
  leave : Search → Next

-- The jump target with the height behind the jump, on the work list.
abbrev pub push_target : State → ℕ → Bc → Search → Search
push_target i pc b s = record s { q = record i { pc = jmp_target pc b } ∷ s.q }

-- The end of a round of the inner loop: behind instruction `b` at `pc`, in state `i`.
unfoldable pub branch : Bc → ℕ → State → Search → Verdict Next
branch b pc i s =
    if is_exit b.bc
    then check (i.ostack == 0) not_clear >>= (λ _. ok (leave s))
    else if is_uncond_jmp b.bc
    then ok (leave (push_target i pc b s))
    else if is_jmp b.bc
    then ok (go_on i (push_target i pc b s))
    else ok (go_on i s)

module _ (c : Code) where
  abbrev pub inside : ℕ → Bool
  inside pc = leb c.code pc && ltb pc (end_code c)

  unfoldable pub decode_at : ℕ → Verdict Bc
  decode_at pc = elim (decode c.memory pc) [ some b ↦ ok b | none ↦ fail no_instruction ]

  unfoldable pub round : State → Search → Verdict Next
  unfolding advance update_max branch decode_at
  round i s = do
    let s₁ = record s { state = (i.pc, i.ostack) ∷ s.state }
    check (inside i.pc) outside
    b ← decode_at i.pc
    i' ← advance b i
    branch b i.pc i' (record s₁ { max = update_max s.max i'.ostack })

  -- `while (true)`
  unfoldable pub walk : ℕ → State → Search → Verdict Search
  unfolding round
  walk zero i s = fail out_of_fuel
  walk (suc n) i s = round i s >>= (λ r. elim r [ go_on i' s' ↦ walk n i' s' | leave s' ↦ ok s' ])

  -- A state whose address was visited must have the height that is kept for it.
  unfoldable pub compare_heights : State → ℕ → Verdict (Unit {0})
  compare_heights i current = do check (inside i.pc) outside; check (current == i.ostack) imbalance

  -- The body of the outer loop at a work list, with the rounds that follow it, and `k` as fuel for
  -- an inner loop.
  unfoldable pub visit_top : ℕ → (Search → Verdict Search) → Search → List State → Verdict Search
  unfolding walk find compare_heights
  visit_top k rest s [] = ok s
  visit_top k rest s (i ∷ q) = elim (find i.pc s.state) [
    | some o ↦ compare_heights i o >>= (λ _. rest (record s { q = q }))
    | none ↦ walk k i (record s { q = q }) >>= rest
  ]

  -- `while (not q.empty())`
  unfoldable pub visit : ℕ → ℕ → Search → Verdict Search
  unfolding visit_top
  visit k zero s = fail out_of_fuel
  visit k (suc n) s = visit_top k (visit k n) s s.q

  abbrev pub start : Search
  start = record { max = 0; state = []; q = record { pc = c.code; ostack = 0 } ∷ [] }

  -- Enough rounds for any code: an inner loop only moves forward, and starts at a new address.
  abbrev pub inner_fuel : ℕ
  inner_fuel = suc c.code_size

  abbrev pub outer_fuel : ℕ
  outer_fuel = suc (suc (c.code_size * inner_fuel))

  -- The new `stackLength`.
  unfoldable pub calculate_and_verify_stack : Verdict ℕ
  unfolding visit
  calculate_and_verify_stack = visit inner_fuel outer_fuel start >>= (λ s. ok s.max)
