-- ===== src/Verifier/Layout.antt =====
-- rir/src/bc/CodeVerifier.cpp, `verifyFunctionLayout`: the checks of a function's code objects, one
-- by one from a work list that starts with the body and the default arguments and grows by promises.
use rir.Prelude.{
  ℕ, zero, suc, ◌+◌, ◌-◌, ◌*◌, ◌^◌, ◌%◌, Bool, true, false, not, Option, none, some, List, [], ◌∷◌,
  leb, ltb, ◌==◌, if◌then◌else◌, length,
}
use rir.Bytecode.{num_of}
use rir.Bytecode.Decode.{Bc, decode, size}
use rir.Verifier.Source.{get_src_idx_at}
use rir.Verifier.{Verdict, ok, fail, check, ◌>>=◌, ◌>>◌, end_code, calculate_and_verify_stack}
use rir.Verifier.Failure.{
  invalid_type, bad_size, magic_number, no_ast, stack_layout, code_length, overflow, last_opcode,
  out_of_fuel, no_instruction, source_not_needed,
}
use rir.Verifier.Checks.{ConstantPool, Api, CodeObject, code_magic, check_instruction, may_end}

-- `is_external` says that the value has the type EXTERNALSXP; code objects are named by numbers.
pub record FunctionObject : Type 0 where
  pub is_external : Bool
  pub size : ℕ
  pub xlength : ℕ
  pub body : ℕ
  pub default_args : List (Option ℕ)

unfoldable pub pad4 : ℕ → ℕ
pad4 n = let x = n % 4 in if x == 0 then n else (n + 4 - x) % 2 ^ 32

module _ {ℓ} {S : Type ℓ} (api : Api S) (pool : ConstantPool S) (c : CodeObject) where
  -- The end of a round behind instruction `b`, with the rounds that follow it.
  unfoldable pub scan_next : (ℕ → List ℕ → Verdict (List ℕ)) → ℕ → Bc → List ℕ → Verdict (List ℕ)
  scan_next rest cptr b objs = elim (cptr + size b == end_code c.bytes) [
    | true ↦ check (may_end b) last_opcode >> ok objs
    | false ↦ rest (cptr + size b) objs
  ]

  -- A round at a byte that is no instruction. `decode` has an assertion against `invalid_` and
  -- `num_of`; a byte above is decoded to something of size 0 that needs no sources, and the scan
  -- stays where it is.
  unfoldable pub scan_unknown : (ℕ → List ℕ → Verdict (List ℕ)) → ℕ → List ℕ → Verdict (List ℕ)
  scan_unknown rest cptr objs =
      if ltb num_of (c.bytes.memory cptr)
      then check (get_src_idx_at c.srclist (cptr - c.bytes.code) == 0) source_not_needed
        >> elim (cptr == end_code c.bytes) [ true ↦ fail last_opcode | false ↦ rest cptr objs ]
      else fail no_instruction

  -- `while (true)` over the instructions, with fuel.
  unfoldable pub scan : ℕ → ℕ → List ℕ → Verdict (List ℕ)
  unfolding check_instruction scan_next scan_unknown
  scan zero cptr objs = fail out_of_fuel
  scan (suc n) cptr objs = do
    check (leb cptr (end_code c.bytes)) overflow
    elim (decode c.bytes.memory cptr) [
      | some b ↦ check_instruction api pool c cptr b objs >>= scan_next (scan n) cptr b
      | none ↦ scan_unknown (scan n) cptr objs
    ]

  -- `sizeof(Code::SrclistEntry)` is 8.
  abbrev pub is_placed : Bool
  is_placed = not ((c.behind + pad4 c.bytes.code_size + length c.srclist * 8) % 2 ^ 64 == 0)

  -- The checks of one code object.
  unfoldable pub verify_code : List ℕ → Verdict (List ℕ)
  unfolding scan pad4
  verify_code objs = do
    check (c.magic == code_magic) magic_number
    check (not (c.src == 0)) no_ast
    l ← calculate_and_verify_stack c.bytes
    check (l == c.stack_length) stack_layout
    check is_placed code_length
    scan (suc (suc c.bytes.code_size)) c.bytes.code objs

-- The default arguments that are there, pushed after the body.
unfoldable pub push_defaults : List (Option ℕ) → List ℕ → List ℕ
push_defaults [] objs = objs
push_defaults (none ∷ args) objs = push_defaults args objs
push_defaults (some a ∷ args) objs = push_defaults args (a ∷ objs)

module _ {ℓ} {S : Type ℓ} (api : Api S) (pool : ConstantPool S) (heap : ℕ → CodeObject) where
  -- `while (!objs.empty())`, with fuel.
  unfoldable pub verify_objects : ℕ → List ℕ → Verdict (Unit {0})
  unfolding verify_code
  verify_objects zero objs = fail out_of_fuel
  verify_objects (suc n) [] = ok tt
  verify_objects (suc n) (o ∷ objs) = verify_code api pool (heap o) objs >>= verify_objects n

  unfoldable pub verify_function_layout : ℕ → FunctionObject → Verdict (Unit {0})
  unfolding verify_objects push_defaults
  verify_function_layout n f = do
    check f.is_external invalid_type
    check (leb f.size f.xlength) bad_size
    verify_objects n (push_defaults f.default_args (f.body ∷ []))
