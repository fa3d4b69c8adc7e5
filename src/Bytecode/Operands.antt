-- ===== src/Bytecode/Operands.antt =====
-- rir/src/bc/BC_inc.h and BC.cpp: the tables of `write` and `decode` agree, and words that were
-- written are read back.
use mathlib.Core.Path.{subst}
use rir.Prelude.{
  ℕ, zero, suc, ◌+◌, ◌^◌, ◌<◌, ◌≡◌, ◌≢◌, refl, Bool, true, false, none, some, List, [], ◌∷◌, ◌++◌,
  ap, if◌then◌else◌, get_elem?, length, All, arith, ap₂, ltb,
}
use rir.Bytecode.{Opcode, opcodes, code_of}
use rir.Bytecode.Decode.{
  Memory, Immediates, read_immediate, copied, copy_words, decode_immediate_arguments, is_varlen,
  read_names, decode_extra, decode_body, decode, is_jmp,
}
use rir.Bytecode.Write.{word_bytes, words_bytes, member, operand}
use rir.Bytecode.Write.Operand.{words, words_and_names, feedback, label}

-- The bytes stand in memory from an address on.
abbrev pub Holds : Memory → ℕ → List ℕ → Type 0
Holds m a [] = Unit
Holds m a (b ∷ bs) = (m a ≡ b) × Holds m (a + 1) bs

pub Holds-append :
    (m : Memory) (a : ℕ) (xs ys : List ℕ)
    → Holds m a (xs ++ ys)
    → Holds m a xs × Holds m (a + length xs) ys
Holds-append m a [] ys h = (tt, subst (λ k. Holds m k ys) (omega arith) h)
Holds-append m a (x ∷ xs) ys h =
    let (front, back) = Holds-append m (a + 1) xs ys h.1 in
    ((h.0, front), subst (λ k. Holds m k ys) (omega arith) back)

-- What a kind of operand says of the opcodes that have it.
abbrev pub Agrees : Opcode → ℕ → Bool → Bool → Type 0
Agrees o n varlen jmp = (copied o ≡ some n) × (is_varlen o ≡ varlen) × (is_jmp o ≡ jmp)

pub words-Agrees : (o : Opcode) (n : ℕ) → operand o ≡ words n → (n < 5) × Agrees o n false false
unfolding operand copied
words-Agrees o n h = ground arith

pub names-Agrees : (o : Opcode) → operand o ≡ words_and_names → Agrees o 4 true false
unfolding operand copied
names-Agrees o h = ground arith

pub feedback-Agrees : (o : Opcode) → operand o ≡ feedback → Agrees o 4 false false
unfolding operand copied
feedback-Agrees o h = ground arith

pub label-Agrees : (o : Opcode) → operand o ≡ label → Agrees o 1 false true
unfolding operand copied
label-Agrees o h = ground arith

pub none-neq-some {ℓ} : {A : Type ℓ} {a : A} → none ≢ some a
none-neq-some = λ h. cc

pub opcode_at : (o : Opcode) → get_elem? opcodes (code_of o) ≡ some o
unfolding code_of
opcode_at o = ground arith

pub read-word :
    (m : Memory) (a w : ℕ) → w < 2 ^ 32 → Holds m a (word_bytes w) → read_immediate m a ≡ w
unfolding read_immediate word_bytes
read-word m a w h p =
    let e : a + 1 + 1 ≡ a + 2 = omega arith in
    let e' : a + 1 + 1 + 1 ≡ a + 3 = omega arith in omega (arith, ap m e, ap m e')

-- The members behind the first `n` words are zero, as in a fresh union.
abbrev pub trim : ℕ → Immediates → Immediates
trim n i = record {
  first = if ltb 0 n then i.first else 0;
  second = if ltb 1 n then i.second else 0;
  third = if ltb 2 n then i.third else 0;
  fourth = if ltb 3 n then i.fourth else 0;
}

pub record Fits (i : Immediates) : Type 0 where
  pub first : i.first < 2 ^ 32
  pub second : i.second < 2 ^ 32
  pub third : i.third < 2 ^ 32
  pub fourth : i.fourth < 2 ^ 32

pub read_first :
    (m : Memory) (a w : ℕ) (ws : List ℕ)
    → w < 2 ^ 32
    → Holds m a (words_bytes (w ∷ ws))
    → (read_immediate m a ≡ w) × Holds m (a + 4) (words_bytes ws)
unfolding words_bytes
read_first m a w ws h p =
    let (front, back) = Holds-append m a (word_bytes w) (words_bytes ws) p in
    (read-word m a w h front, back)

pub read_names-words :
    (m : Memory) (a : ℕ) (ns : List ℕ)
    → All (λ n. n < 2 ^ 32) ns
    → Holds m a (words_bytes ns)
    → read_names m a (length ns) ≡ ns
unfolding read_names
read_names-words m a [] h p = refl
read_names-words m a (n ∷ ns) h p =
    let (here, rest) = read_first m a n ns h.0 p in
    ap₂ (λ x xs. x ∷ xs) here (read_names-words m (a + 4) ns h.1 rest)

pub copy_words-member :
    (m : Memory) (a n : ℕ) (i : Immediates)
    → n < 5
    → Fits i
    → Holds m a (words_bytes (member n i))
    → copy_words m a n ≡ trim n i
unfolding copy_words
copy_words-member m a zero i h f p = refl
copy_words-member m a (suc zero) i h f p =
    let (x, _) = read_first m a i.first [] f.first p in rw x refl
copy_words-member m a (suc (suc zero)) i h f p =
    let (x, p₁) = read_first m a i.first (i.second ∷ []) f.first p in
    let (y, _) = read_first m (a + 4) i.second [] f.second p₁ in rw (x, y) refl
copy_words-member m a (suc (suc (suc zero))) i h f p =
    let (x, p₁) = read_first m a i.first (i.second ∷ i.third ∷ []) f.first p in
    let (y, p₂) = read_first m (a + 4) i.second (i.third ∷ []) f.second p₁ in
    let (z, _) = read_first m (a + 4 + 4) i.third [] f.third p₂ in
    let e : a + 4 + 4 ≡ a + 8 = omega arith in ground (arith, ap (read_immediate m) e)
copy_words-member m a (suc (suc (suc (suc n)))) i h f p =
    let (x, p₁) = read_first m a i.first (i.second ∷ i.third ∷ i.fourth ∷ []) f.first p in
    let (y, p₂) = read_first m (a + 4) i.second (i.third ∷ i.fourth ∷ []) f.second p₁ in
    let (z, p₃) = read_first m (a + 4 + 4) i.third (i.fourth ∷ []) f.third p₂ in
    let (w, _) = read_first m (a + 4 + 4 + 4) i.fourth [] f.fourth p₃ in
    let e : a + 4 + 4 ≡ a + 8 = omega arith in
    let e' : a + 4 + 4 + 4 ≡ a + 12 = omega arith in
    ground (arith, ap (read_immediate m) e, ap (read_immediate m) e')

-- The instruction whose opcode stands in memory, from its immediates and its names.
pub decode-opcode :
    (m : Memory) (pc n : ℕ) (o : Opcode) (i : Immediates) (ns : List ℕ)
    → m pc ≡ code_of o
    → copied o ≡ some n
    → copy_words m (pc + 1) n ≡ i
    → decode_extra m o i (pc + 1) ≡ ns
    → decode m pc ≡ some (record { bc = o; immediate = i; names = ns })
unfolding decode decode_body decode_immediate_arguments
decode-opcode m pc n o i ns h k e e' = ground (arith, opcode_at o)
