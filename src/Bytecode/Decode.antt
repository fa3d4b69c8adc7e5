-- ===== src/Bytecode/Decode.antt =====
-- rir/src/bc/BC_inc.h: an instruction read from memory, its size, its effect on the stack and the
-- target of its jump. The memory is a byte for each address, and words are little-endian.
use rir.Prelude.{
  ℕ, zero, suc, ◌+◌, ◌-◌, ◌*◌, ◌^◌, ◌%◌, Bool, true, false, ◌||◌, Option, none, some, List, [], ◌∷◌,
  ltb, if◌then◌else◌, get_elem?,
}
use rir.Bytecode.{Opcode, opcodes, fixed_size, push_count, pop_count}
use rir.Bytecode.Opcode.{
  beginloop_, br_, brfalse_, brtrue_, call_, call_builtin_, call_dots_, clear_binding_cache_,
  guard_fun_, invalid_, is_, ldddvar_, ldfun_, ldvar_, ldvar_cached_, ldvar_for_update_,
  ldvar_for_update_cache_, ldvar_noforce_, ldvar_super_, missing_, mk_eager_promise_, mk_promise_,
  named_call_, pick_, popn_, pull_, push_, put_, record_call_, record_test_, record_type_, ret_,
  return_, stvar_, stvar_cached_, stvar_super_,
}

abbrev pub Memory : Type 0
Memory = ℕ → ℕ

-- The union of immediate arguments, as the four words of its largest members. `nargs`, `pool`,
-- `fun`, `offset` and `i` are all its first word.
pub record Immediates : Type 0 where
  pub first : ℕ
  pub second : ℕ
  pub third : ℕ
  pub fourth : ℕ

-- `names` are the `callArgumentNames` of the extra information.
pub record Bc : Type 0 where
  pub bc : Opcode
  pub immediate : Immediates
  pub names : List ℕ

unfoldable pub read_immediate : Memory → ℕ → ℕ
read_immediate m pc = m pc + 256 * m (pc + 1) + 65536 * m (pc + 2) + 16777216 * m (pc + 3)

-- The words that the switch of `decodeImmediateArguments` copies; absent where it asserts false.
unfoldable pub copied : Opcode → Option ℕ
copied clear_binding_cache_ = some 2
copied push_ = some 1
copied ldfun_ = some 1
copied ldvar_ = some 1
copied ldvar_noforce_ = some 1
copied ldvar_super_ = some 1
copied ldddvar_ = some 1
copied stvar_ = some 1
copied stvar_super_ = some 1
copied ldvar_for_update_ = some 1
copied missing_ = some 1
copied ldvar_cached_ = some 2
copied ldvar_for_update_cache_ = some 2
copied stvar_cached_ = some 2
copied call_ = some 4
copied named_call_ = some 4
copied call_dots_ = some 4
copied call_builtin_ = some 3
copied guard_fun_ = some 3
copied mk_promise_ = some 1
copied mk_eager_promise_ = some 1
copied br_ = some 1
copied brtrue_ = some 1
copied brfalse_ = some 1
copied beginloop_ = some 1
copied popn_ = some 1
copied pick_ = some 1
copied pull_ = some 1
copied is_ = some 1
copied put_ = some 1
copied record_call_ = some 4
copied record_test_ = some 1
copied record_type_ = some 1
copied invalid_ = none
copied _ = some 0

-- The union starts as zeros, and its first `n` words are copied.
unfoldable pub copy_words : Memory → ℕ → ℕ → Immediates
unfolding read_immediate
copy_words m pc n = record {
  first = if ltb 0 n then read_immediate m pc else 0;
  second = if ltb 1 n then read_immediate m (pc + 4) else 0;
  third = if ltb 2 n then read_immediate m (pc + 8) else 0;
  fourth = if ltb 3 n then read_immediate m (pc + 12) else 0;
}

unfoldable pub decode_immediate_arguments : Memory → Opcode → ℕ → Option Immediates
unfolding copied copy_words
decode_immediate_arguments m bc pc = elim (copied bc) [
  | some n ↦ some (copy_words m pc n)
  | none ↦ none
]

abbrev pub is_varlen : Opcode → Bool
is_varlen named_call_ = true
is_varlen call_dots_ = true
is_varlen _ = false

unfoldable pub read_names : Memory → ℕ → ℕ → List ℕ
unfolding read_immediate
read_names m pc zero = []
read_names m pc (suc n) = read_immediate m pc ∷ read_names m (pc + 4) n

-- `decodeExtraInformation`, at the address behind the opcode.
unfoldable pub decode_extra : Memory → Opcode → Immediates → ℕ → List ℕ
unfolding read_names
decode_extra m bc i pc = if is_varlen bc then read_names m (pc + 16) i.first else []

unfoldable pub decode_body : Memory → Opcode → ℕ → Option Bc
unfolding decode_immediate_arguments decode_extra
decode_body m bc pc = elim (decode_immediate_arguments m bc pc) [
  | some i ↦ some (record { bc = bc; immediate = i; names = decode_extra m bc i pc })
  | none ↦ none
]

-- Absent at a byte that is no instruction: whatever is asked of it then fails an assertion.
unfoldable pub decode : Memory → ℕ → Option Bc
unfolding decode_body
decode m pc = elim (get_elem? opcodes (m pc)) [ some bc ↦ decode_body m bc (pc + 1) | none ↦ none ]

-- The member function `size()`.
unfoldable pub size : Bc → ℕ
unfolding fixed_size
size b = if is_varlen b.bc then b.immediate.first * 4 + fixed_size b.bc else fixed_size b.bc

-- The static `size(pc)`, which does not decode.
unfoldable pub size_at : Memory → ℕ → Option ℕ
unfolding read_immediate fixed_size
size_at m pc = elim (get_elem? opcodes (m pc)) [
  | some bc ↦ some (if is_varlen bc then 1 + (4 + read_immediate m (pc + 1)) * 4 else fixed_size bc)
  | none ↦ none
]

unfoldable pub next : Memory → ℕ → Option ℕ
unfolding size_at
next m pc = elim (size_at m pc) [ some n ↦ some (pc + n) | none ↦ none ]

-- The member function `popCount()`, which must not be asked of `return_`; `n` is the first word.
unfoldable pub pops_of : Opcode → ℕ → Option ℕ
unfolding pop_count
pops_of return_ n = none
pops_of call_ n = some (n + 1)
pops_of named_call_ n = some (n + 1)
pops_of call_dots_ n = some (n + 1)
pops_of call_builtin_ n = some n
pops_of popn_ n = some n
pops_of bc n = pop_count bc

abbrev pub pops : Bc → Option ℕ
pops b = pops_of b.bc b.immediate.first

abbrev pub pushes : Bc → ℕ
pushes b = push_count b.bc

abbrev pub is_cond_jmp : Opcode → Bool
is_cond_jmp brtrue_ = true
is_cond_jmp brfalse_ = true
is_cond_jmp beginloop_ = true
is_cond_jmp _ = false

abbrev pub is_uncond_jmp : Opcode → Bool
is_uncond_jmp br_ = true
is_uncond_jmp _ = false

abbrev pub is_jmp : Opcode → Bool
is_jmp b = is_cond_jmp b || is_uncond_jmp b

abbrev pub is_exit : Opcode → Bool
is_exit ret_ = true
is_exit return_ = true
is_exit _ = false

abbrev pub is_call : Opcode → Bool
is_call call_ = true
is_call named_call_ = true
is_call call_dots_ = true
is_call call_builtin_ = true
is_call _ = false

-- The offset is an `int32_t`, extended to the width of an address.
abbrev pub sign_extend : ℕ → ℕ
sign_extend w = if ltb w (2 ^ 31) then w else w + (2 ^ 64 - 2 ^ 32)

unfoldable pub jmp_target : ℕ → Bc → ℕ
unfolding size
jmp_target pos b = (pos + size b + sign_extend b.immediate.first) % 2 ^ 64
