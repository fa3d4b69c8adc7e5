-- ===== src/Bytecode/RoundTrip.antt =====
-- rir/src/bc/BC_inc.h and BC.cpp: the tables, `write` and `decode` agree.
use mathlib.Core.Path.{subst}
use rir.Prelude.{
  ℕ, zero, suc, ◌+◌, ◌*◌, ◌^◌, ◌<◌, ◌≡◌, ◌≢◌, refl, true, false, some, List, [], ◌∷◌, ◌++◌, ◌∙◌,
  sym, ap, ◌-◌, if◌then◌else◌, length, length-append, All, arith, eq_of_some, Bool-cases, inl, inr,
  ◌==◌, ◌%◌,
}
use rir.Bytecode.{Opcode, code_of, fixed_size}
use rir.Bytecode.Decode.{
  Memory, Bc, Immediates, copied, copy_words, is_varlen, decode_extra, decode, size, size_at,
  is_jmp,
}
use rir.Bytecode.Write.{
  insert, has_patchpoint, CodeStream, pos, word_bytes, words_bytes, patchpoint, member, Operand,
  operand, write_operand, write,
}
use rir.Bytecode.Write.Operand.{words, words_and_names, feedback, label, refused}
use rir.Bytecode.Operands.{
  Holds, Holds-append, Agrees, words-Agrees, names-Agrees, feedback-Agrees, label-Agrees,
  none-neq-some, trim, Fits, read_first, read_names-words, copy_words-member, decode-opcode,
}

-- An instruction as the factory methods build it: its words fit, those that its opcode does not
-- use are zero, and it has a name for each argument exactly if it is a call with names.
pub record IsWritable (b : Bc) : Type 0 where
  pub fits : Fits b.immediate
  pub trimmed : (n : ℕ) → copied b.bc ≡ some n → trim n b.immediate ≡ b.immediate
  pub named : length b.names ≡ (if is_varlen b.bc then b.immediate.first else 0)
  pub names_fit : All (λ n. n < 2 ^ 32) b.names

-- A jump reads back with the placeholder as its offset.
abbrev pub placed : Bc → Bc
placed b = record b {
  immediate = record (b.immediate) {
    first = if is_jmp b.bc then 2 ^ 32 - 1 else b.immediate.first;
  };
}

nil_of_length : (ns : List ℕ) → length ns ≡ 0 → [] ≡ ns
nil_of_length [] h = refl
nil_of_length (n ∷ ns) h = absurd (omega (arith, h))

module _ (m : Memory) (pc : ℕ) (b : Bc) (w : IsWritable b) (op : m pc ≡ code_of b.bc) where
  no_extra : (i : Immediates) → is_varlen b.bc ≡ false → decode_extra m b.bc i (pc + 1) ≡ b.names
  unfolding decode_extra
  no_extra i v = rw v (nil_of_length b.names (rw v at w.named))

  extra_names :
      is_varlen b.bc ≡ true
      → Holds m (pc + 17) (words_bytes b.names)
      → decode_extra m b.bc b.immediate (pc + 1) ≡ b.names
  unfolding decode_extra
  extra_names v h =
      let e : pc + 1 + 16 ≡ pc + 17 = omega arith in
      let n : length b.names ≡ b.immediate.first = rw v at w.named in
      rw (v, e, sym n) (read_names-words m (pc + 17) b.names w.names_fit h)

  decode_words :
      (n : ℕ)
      → n < 5
      → Agrees b.bc n false false
      → Holds m (pc + 1) (words_bytes (member n b.immediate))
      → decode m pc ≡ some (placed b)
  decode_words n small (c, v, j) h = rw j (
      decode-opcode m pc n b.bc b.immediate b.names op c
        (copy_words-member m (pc + 1) n b.immediate small w.fits h ∙ w.trimmed n c)
        (no_extra b.immediate v))

  decode_names :
      Agrees b.bc 4 true false
      → Holds m (pc + 1) (words_bytes (member 4 b.immediate))
      → Holds m (pc + 17) (words_bytes b.names)
      → decode m pc ≡ some (placed b)
  decode_names (c, v, j) h k = rw j (
      decode-opcode m pc 4 b.bc b.immediate b.names op c
        (copy_words-member m (pc + 1) 4 b.immediate (omega arith) w.fits h ∙ w.trimmed 4 c)
        (extra_names v k))

  label_words :
      Agrees b.bc 1 false true
      → Holds m (pc + 1) (words_bytes ((2 ^ 32 - 1) ∷ []))
      → copy_words m (pc + 1) 1 ≡ record (b.immediate) { first = 2 ^ 32 - 1 }
  unfolding copy_words
  label_words (c, v, j) h =
      let (x, _) = read_first m (pc + 1) (2 ^ 32 - 1) [] (omega arith) h in
      let zeros = w.trimmed 1 c in rw x (ground (arith, ap (λ i. i.second) zeros))

  decode_label :
      Agrees b.bc 1 false true
      → Holds m (pc + 1) (words_bytes ((2 ^ 32 - 1) ∷ []))
      → decode m pc ≡ some (placed b)
  decode_label (c, v, j) h = rw j (
      decode-opcode m pc 1 b.bc (record (b.immediate) { first = 2 ^ 32 - 1 }) b.names op c
        (label_words (c, v, j) h) (no_extra (record (b.immediate) { first = 2 ^ 32 - 1 }) v))

-- The opcode and the operand, in the bytes that `write` appends.
appended :
    (m : Memory) (base : ℕ) (code : List ℕ) (op : ℕ) (rest : List ℕ)
    → Holds m base ((code ++ op ∷ []) ++ rest)
    → (m (base + length code) ≡ op) × Holds m (base + length code + 1) rest
appended m base code op rest h =
    let (front, back) = Holds-append m base (code ++ op ∷ []) rest h in
    let (_, here) = Holds-append m base code (op ∷ []) front in
    (here.0, subst (λ k. Holds m k rest) (omega (arith, length-append code (op ∷ []))) back)

-- The bytes behind the opcode.
abbrev operand_bytes : Operand → Bc → List ℕ
operand_bytes (words n) b = words_bytes (member n b.immediate)
operand_bytes words_and_names b = words_bytes (member 4 b.immediate) ++ words_bytes b.names
operand_bytes feedback b = words_bytes (member 4 b.immediate)
operand_bytes label b = words_bytes ((2 ^ 32 - 1) ∷ [])
operand_bytes refused b = []

code-write_operand :
    (k : Operand) (b : Bc) (cs t : CodeStream)
    → write_operand k b cs ≡ some t
    → t.code ≡ cs.code ++ operand_bytes k b
unfolding write_operand patchpoint
code-write_operand (words n) b cs t e = ap (λ s. s.code) (sym (eq_of_some e))
code-write_operand words_and_names b cs t e = ap (λ s. s.code) (sym (eq_of_some e))
code-write_operand feedback b cs t e = elim (Bool-cases (b.immediate.first % 4 == 0)) [
  | inl y ↦ ap (λ s. s.code) (sym (eq_of_some (rw y at e)))
  | inr n ↦ absurd (none-neq-some (rw n at e))
]
code-write_operand label b cs t e = elim (Bool-cases (has_patchpoint (pos cs) cs.patchpoints)) [
  | inl y ↦ absurd (none-neq-some (rw y at e))
  | inr n ↦ ap (λ s. s.code) (sym (eq_of_some (rw n at e)))
]
code-write_operand refused b cs t e = absurd (none-neq-some e)

length-words_bytes : (ws : List ℕ) → length (words_bytes ws) ≡ 4 * length ws
unfolding words_bytes word_bytes
length-words_bytes [] = refl
length-words_bytes (w ∷ ws) = omega (arith, length-words_bytes ws)

length-member : (n : ℕ) (i : Immediates) → n < 5 → length (words_bytes (member n i)) ≡ 4 * n
unfolding words_bytes word_bytes
length-member zero i h = refl
length-member (suc zero) i h = refl
length-member (suc (suc zero)) i h = refl
length-member (suc (suc (suc zero))) i h = refl
length-member (suc (suc (suc (suc zero)))) i h = refl
length-member (suc (suc (suc (suc (suc n))))) i h = absurd (omega arith)

pub copied-fixed_size : (o : Opcode) (n : ℕ) → copied o ≡ some n → fixed_size o ≡ 1 + 4 * n
unfolding copied fixed_size
copied-fixed_size o n h = ground arith

size-operand :
    (b : Bc) (k : Operand)
    → IsWritable b
    → operand b.bc ≡ k
    → k ≢ refused
    → length (operand_bytes k b) + 1 ≡ size b
unfolding size words_bytes
size-operand b (words n) w o r =
    let (small, (c, v, j)) = words-Agrees b.bc n o in
    rw v (omega (arith, length-member n b.immediate small, copied-fixed_size b.bc n c))
size-operand b words_and_names w o r =
    let (c, v, j) = names-Agrees b.bc o in
    let named : length b.names ≡ b.immediate.first = rw v at w.named in
    rw v (
      omega (
        arith,
        length-append (words_bytes (member 4 b.immediate)) (words_bytes b.names),
        length-member 4 b.immediate (omega arith),
        length-words_bytes b.names,
        copied-fixed_size b.bc 4 c,
      ))
size-operand b feedback w o r =
    let (c, v, j) = feedback-Agrees b.bc o in
    rw v (omega (arith, length-member 4 b.immediate (omega arith), copied-fixed_size b.bc 4 c))
size-operand b label w o r =
    let (c, v, j) = label-Agrees b.bc o in rw v (omega (arith, copied-fixed_size b.bc 1 c))
size-operand b refused w o r = absurd (r refl)

module _ (m : Memory) (base : ℕ) (b : Bc) (cs : CodeStream) (w : IsWritable b) where
  decode-operand :
      (k : Operand)
      → operand b.bc ≡ k
      → k ≢ refused
      → m (base + pos cs) ≡ code_of b.bc
      → Holds m (base + pos cs + 1) (operand_bytes k b)
      → decode m (base + pos cs) ≡ some (placed b)
  decode-operand (words n) o r op h =
      let (small, agrees) = words-Agrees b.bc n o in
      decode_words m (base + pos cs) b w op n small agrees h
  decode-operand words_and_names o r op h =
      let (front, back) =
        Holds-append m (base + pos cs + 1) (words_bytes (member 4 b.immediate))
          (words_bytes b.names) h in
      decode_names m (base + pos cs) b w op (names-Agrees b.bc o) front (
        subst (λ k. Holds m k (words_bytes b.names))
          (omega (arith, length-member 4 b.immediate (omega arith))) back)
  decode-operand feedback o r op h =
      decode_words m (base + pos cs) b w op 4 (omega arith) (feedback-Agrees b.bc o) h
  decode-operand label o r op h = decode_label m (base + pos cs) b w op (label-Agrees b.bc o) h
  decode-operand refused o r op h = absurd (r refl)

not_refused :
    (k : Operand) (b : Bc) (cs t : CodeStream) → write_operand k b cs ≡ some t → k ≢ refused
unfolding write_operand
not_refused k b cs t e r = none-neq-some (rw r at e)

-- What `write` appends decodes to the instruction that was written, at the position where it was
-- written, and takes up as many bytes as `size` says. A jump has the placeholder for its offset.
pub decode-write :
    (m : Memory) (base : ℕ) (b : Bc) (cs t : CodeStream)
    → IsWritable b
    → write b cs ≡ some t
    → Holds m base t.code
    → (decode m (base + pos cs) ≡ some (placed b)) × (pos t ≡ pos cs + size b)
unfolding write
decode-write m base b cs t w e h =
    let k = operand b.bc in
    let cs' = insert (code_of b.bc ∷ []) cs in
    let c : t.code ≡ cs'.code ++ operand_bytes k b = code-write_operand k b cs' t e in
    let r = not_refused k b cs' t e in
    let (op, rest) =
      appended m base cs.code (code_of b.bc) (operand_bytes k b) (subst (Holds m base) c h) in
    (
      decode-operand m base b cs w k refl r op rest,
      omega (
        arith,
        ap length c,
        length-append cs'.code (operand_bytes k b),
        length-append cs.code (code_of b.bc ∷ []),
        size-operand b k w refl r,
      ),
    )

-- The static `size`, which reads only what it needs, is the size of the decoded instruction.
pub size_at_lem :
    (m : Memory) (pc : ℕ) (b : Bc) → decode m pc ≡ some b → size_at m pc ≡ some (size b)
unfolding size_at decode size
size_at_lem m pc b h = ground arith
