-- ===== src/Verifier/Checks.antt =====
-- rir/src/bc/CodeVerifier.cpp, `verifyFunctionLayout`: the checks of a single instruction.
use rir.Prelude.{
  ℕ, ◌+◌, ◌-◌, ◌^◌, ◌%◌, Bool, true, false, not, ◌&&◌, ◌||◌, none, some, List, [], ◌∷◌, ltb, leb,
  ◌==◌, if◌then◌else◌, get_elem?,
}
use rir.Bytecode.{Opcode}
use rir.Bytecode.Opcode.{
  extract1_1_, extract1_2_, extract2_1_, extract2_2_, extract1_3_, add_, mul_, div_, idiv_, mod_,
  pow_, sub_, uplus_, uminus_, not_, lt_, gt_, le_, ge_, eq_, ne_, colon_, colon_input_effects_,
  subassign1_1_, subassign2_1_, subassign1_2_, subassign2_2_, subassign1_3_, aslogical_, asbool_,
  missing_, br_, brtrue_, brfalse_, ldvar_, ldvar_super_, ldvar_for_update_, ldvar_noforce_,
  ldvar_cached_, stvar_cached_, ldvar_for_update_cache_, clear_binding_cache_, mk_promise_,
  mk_eager_promise_, named_call_,
}
use rir.Bytecode.Decode.{Bc, jmp_target, is_exit, is_jmp}
use rir.Verifier.{Code, Verdict, ok, fail, check, ◌>>=◌, ◌>>◌, end_code}
use rir.Verifier.Failure.{
  source_required, source_not_needed, branch_outside, arglist_index, not_a_symbol, empty_name,
  cache_index, cache_range, no_promise, call_target,
}
use rir.Verifier.Source.{get_src_idx_at}

pub data Sources : Type 0 where
  required may not_needed : Sources

unfoldable pub has_sources : Opcode → Sources
has_sources extract1_1_ = required
has_sources extract1_2_ = required
has_sources extract2_1_ = required
has_sources extract2_2_ = required
has_sources extract1_3_ = required
has_sources add_ = required
has_sources mul_ = required
has_sources div_ = required
has_sources idiv_ = required
has_sources mod_ = required
has_sources pow_ = required
has_sources sub_ = required
has_sources uplus_ = required
has_sources uminus_ = required
has_sources not_ = required
has_sources lt_ = required
has_sources gt_ = required
has_sources le_ = required
has_sources ge_ = required
has_sources eq_ = required
has_sources ne_ = required
has_sources colon_ = required
has_sources colon_input_effects_ = required
has_sources subassign1_1_ = required
has_sources subassign2_1_ = required
has_sources subassign1_2_ = required
has_sources subassign2_2_ = required
has_sources subassign1_3_ = required
has_sources aslogical_ = may
has_sources asbool_ = may
has_sources missing_ = may
has_sources _ = not_needed

-- What the checks ask R about a value.
pub record Api {ℓ} (S : Type ℓ) : Type ℓ where
  pub is_symbol : S → Bool
  pub is_nil : S → Bool
  pub name_length : S → ℕ

-- The constant pool: its length, and what its vector holds at an index. The vector has room behind
-- the length, filled with nil, and `cp_pool_at` reads at any index without a check.
pub record ConstantPool {ℓ} (S : Type ℓ) : Type ℓ where
  pub length : ℕ
  pub at : ℕ → S

abbrev pub code_magic : ℕ
code_magic = 0xc0de0000

-- A code object with its header. Promises are named by numbers, and `behind` is the address that
-- follows the header.
pub record CodeObject : Type 0 where
  pub bytes : Code
  pub magic : ℕ
  pub src : ℕ
  pub stack_length : ℕ
  pub behind : ℕ
  pub srclist : List (ℕ × ℕ)
  pub binding_cache_size : ℕ
  pub promises : List ℕ

abbrev pub is_checked_branch : Opcode → Bool
is_checked_branch br_ = true
is_checked_branch brtrue_ = true
is_checked_branch brfalse_ = true
is_checked_branch _ = false

abbrev pub is_variable : Opcode → Bool
is_variable ldvar_ = true
is_variable ldvar_super_ = true
is_variable ldvar_for_update_ = true
is_variable ldvar_noforce_ = true
is_variable _ = false

abbrev pub is_cached : Opcode → Bool
is_cached ldvar_cached_ = true
is_cached stvar_cached_ = true
is_cached ldvar_for_update_cache_ = true
is_cached _ = false

abbrev pub is_clear : Opcode → Bool
is_clear clear_binding_cache_ = true
is_clear _ = false

abbrev pub is_promise : Opcode → Bool
is_promise mk_promise_ = true
is_promise mk_eager_promise_ = true
is_promise _ = false

abbrev pub is_named_call : Opcode → Bool
is_named_call named_call_ = true
is_named_call _ = false

-- The last instruction must jump backwards or exit.
abbrev pub may_end : Bc → Bool
may_end b = (is_jmp b.bc && leb (2 ^ 31) b.immediate.first) || is_exit b.bc

module _ {ℓ} {S : Type ℓ} (api : Api S) (pool : ConstantPool S) (c : CodeObject) where
  unfoldable pub check_sources : ℕ → Bc → Verdict (Unit {0})
  unfolding has_sources
  check_sources pc b =
      let idx = get_src_idx_at c.srclist (pc - c.bytes.code) in
      elim (has_sources b.bc) [
        | required ↦ check (not (idx == 0)) source_required
        | not_needed ↦ check (idx == 0) source_not_needed
        | may ↦ ok tt
      ]

  -- A branch may lead to the end of the code.
  unfoldable pub check_branch : ℕ → Bc → Verdict (Unit {0})
  check_branch pc b =
      if is_checked_branch b.bc
      then check (leb c.bytes.code (jmp_target pc b) && leb (jmp_target pc b) (end_code c.bytes))
          branch_outside
      else ok tt

  -- The symbol of a load or store.
  unfoldable pub check_binding : ℕ → Verdict (Unit {0})
  check_binding idx = do
    check (ltb idx pool.length) arglist_index
    check (api.is_symbol (pool.at idx)) not_a_symbol
    check (not (api.name_length (pool.at idx) == 0)) empty_name

  unfoldable pub check_variable : Bc → Verdict (Unit {0})
  unfolding check_binding
  check_variable b = if is_variable b.bc then check_binding b.immediate.first else ok tt

  unfoldable pub check_cached : Bc → Verdict (Unit {0})
  unfolding check_binding
  check_cached b =
      if is_cached b.bc
      then (do
        check_binding b.immediate.first
        check (ltb b.immediate.second c.binding_cache_size) cache_index)
      else ok tt

  -- The sum is one of `unsigned` values.
  unfoldable pub check_clear_cache : Bc → Verdict (Unit {0})
  check_clear_cache b =
      if is_clear b.bc
      then check (leb ((b.immediate.first + b.immediate.second) % 2 ^ 32) c.binding_cache_size)
          cache_range
      else ok tt

  -- `objs.push_back(c->getPromise(*promidx))`
  unfoldable pub push_promise : Bc → List ℕ → Verdict (List ℕ)
  push_promise b objs =
      if is_promise b.bc
      then elim (get_elem? c.promises b.immediate.first) [
        | some p ↦ ok (p ∷ objs)
        | none ↦ fail no_promise
      ]
      else ok objs

  -- The names of the arguments: an index of 0 is no name.
  unfoldable pub check_names : List ℕ → Verdict (Unit {0})
  check_names [] = ok tt
  check_names (offset ∷ rest) =
      let later = check_names rest in
      if offset == 0
      then later
      else check (api.is_symbol (pool.at offset) || api.is_nil (pool.at offset)) call_target
        >> later

  unfoldable pub check_call : Bc → Verdict (Unit {0})
  unfolding check_names
  check_call b = if is_named_call b.bc then check_names b.names else ok tt

  -- The checks of one instruction, which may add a promise to the work list.
  unfoldable pub check_instruction : ℕ → Bc → List ℕ → Verdict (List ℕ)
  unfolding check_sources check_branch check_variable check_cached check_clear_cache push_promise
      check_call
  check_instruction pc b objs = do
    check_sources pc b
    check_branch pc b
    check_variable b
    check_cached b
    check_clear_cache b
    objs' ← push_promise b objs
    check_call b
    ok objs'
