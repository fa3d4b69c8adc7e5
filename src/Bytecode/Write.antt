-- ===== src/Bytecode/Write.antt =====
-- rir/src/bc/BC.cpp (`BC::write`) and rir/src/bc/CodeStream.h: an instruction appended to a stream
-- of code. A jump is written with a placeholder, and its label noted as a patchpoint.
use rir.Prelude.{
  ℕ, zero, suc, ◌-◌, ◌/◌, ◌^◌, ◌%◌, Bool, true, false, Option, none, some, List, [], ◌∷◌, ◌++◌,
  ◌==◌, if◌then◌else◌, length,
}
use rir.Bytecode.{Opcode, code_of}
use rir.Bytecode.Opcode.{
  invalid_, clear_binding_cache_, push_, ldfun_, ldvar_, ldvar_noforce_, ldvar_super_, ldddvar_,
  stvar_, stvar_super_, ldvar_for_update_, missing_, ldvar_cached_, ldvar_for_update_cache_,
  stvar_cached_, call_, named_call_, call_dots_, call_builtin_, guard_fun_, mk_promise_,
  mk_eager_promise_, br_, brtrue_, brfalse_, beginloop_, popn_, pick_, pull_, is_, put_,
  record_call_, record_test_, record_type_,
}
use rir.Bytecode.Decode.{Bc, Immediates}

-- The bytes written so far, and the label that belongs to each placeholder.
pub record CodeStream : Type 0 where
  pub code : List ℕ
  pub patchpoints : List (ℕ × ℕ)

abbrev pub pos : CodeStream → ℕ
pos cs = length cs.code

-- The bytes of a word in memory.
unfoldable pub word_bytes : ℕ → List ℕ
word_bytes w = w % 256 ∷ w / 256 % 256 ∷ w / 65536 % 256 ∷ w / 16777216 % 256 ∷ []

unfoldable pub words_bytes : List ℕ → List ℕ
unfolding word_bytes
words_bytes [] = []
words_bytes (w ∷ ws) = word_bytes w ++ words_bytes ws

abbrev pub insert : List ℕ → CodeStream → CodeStream
insert bytes cs = record cs { code = cs.code ++ bytes }

-- Whether a patchpoint stands at a position.
unfoldable pub has_patchpoint : ℕ → List (ℕ × ℕ) → Bool
has_patchpoint p [] = false
has_patchpoint p ((q, l) ∷ ps) = if p == q then true else has_patchpoint p ps

-- The placeholder is -1.
unfoldable pub patchpoint : ℕ → CodeStream → Option CodeStream
unfolding has_patchpoint words_bytes
patchpoint l cs =
    if has_patchpoint (pos cs) cs.patchpoints
    then none
    else some (record {
      code = cs.code ++ words_bytes ((2 ^ 32 - 1) ∷ []);
      patchpoints = (pos cs, l) ∷ cs.patchpoints;
    })

abbrev pub member : ℕ → Immediates → List ℕ
member zero i = []
member (suc zero) i = i.first ∷ []
member (suc (suc zero)) i = i.first ∷ i.second ∷ []
member (suc (suc (suc zero))) i = i.first ∷ i.second ∷ i.third ∷ []
member (suc (suc (suc (suc n)))) i = i.first ∷ i.second ∷ i.third ∷ i.fourth ∷ []

-- What a case of the switch of `write` does behind the opcode.
pub data Operand : Type 0 where
  words : ℕ → Operand
  words_and_names : Operand
  feedback : Operand
  label : Operand
  refused : Operand

unfoldable pub operand : Opcode → Operand
operand clear_binding_cache_ = words 2
operand record_call_ = feedback
operand record_test_ = words 1
operand record_type_ = words 1
operand push_ = words 1
operand ldfun_ = words 1
operand ldddvar_ = words 1
operand ldvar_ = words 1
operand ldvar_noforce_ = words 1
operand ldvar_for_update_ = words 1
operand ldvar_super_ = words 1
operand stvar_ = words 1
operand stvar_super_ = words 1
operand missing_ = words 1
operand ldvar_cached_ = words 2
operand ldvar_for_update_cache_ = words 2
operand stvar_cached_ = words 2
operand guard_fun_ = words 3
operand call_ = words 4
operand named_call_ = words_and_names
operand call_dots_ = words_and_names
operand call_builtin_ = words 3
operand mk_promise_ = words 1
operand mk_eager_promise_ = words 1
operand br_ = label
operand brtrue_ = label
operand beginloop_ = label
operand brfalse_ = label
operand popn_ = words 1
operand pick_ = words 1
operand pull_ = words 1
operand is_ = words 1
operand put_ = words 1
operand invalid_ = refused
operand _ = words 0

-- The low two bits of the first word of a call feedback are its number of targets.
unfoldable pub write_operand : Operand → Bc → CodeStream → Option CodeStream
unfolding words_bytes patchpoint
write_operand (words n) b cs = some (insert (words_bytes (member n b.immediate)) cs)
write_operand words_and_names b cs =
    some (insert (words_bytes (member 4 b.immediate) ++ words_bytes b.names) cs)
write_operand feedback b cs =
    if b.immediate.first % 4 == 0
    then some (insert (words_bytes (member 4 b.immediate)) cs)
    else none
write_operand label b cs = patchpoint b.immediate.first cs
write_operand refused b cs = none

unfoldable pub write : Bc → CodeStream → Option CodeStream
unfolding write_operand operand code_of
write b cs = write_operand (operand b.bc) b (insert (code_of b.bc ∷ []) cs)
