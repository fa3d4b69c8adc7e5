-- ===== src/Context/Improving.antt =====
-- `Context::toI` and `Context::isImproving`: the packed word, and what the measure of an
-- improvement sees of it.
use rir.Prelude.{
  ℕ, suc, ◌+◌, ◌-◌, ◌*◌, ◌<◌, ◌^◌, ◌≡◌, refl, bit_and, Bool, true, false, arith, ltb, if◌then◌else◌,
  Bool-cases, inl, inr, zero,
}
use rir.Prelude.Bits.{bit, complement, popcount, bit-bit_and, bit-complement}
use rir.Prelude.Bits.Subset.{Subset}
use rir.Prelude.Bits.Fields.{bit_fields, popcount_none}
use rir.Prelude.Bits.Bound.{bit_and-lt}
use rir.EnumSet
use rir.Context.{
  Assumption, code, no_explicitly_missing_args, statically_argmatched, Fact, not_obj, type_code,
  Context, IsContext, num_typed_args, for_args, to_i, of_i, remove, reset_fact, set_num_missing,
  normalized, is_improving,
}

-- The packed word has all of a context: reading it back gives the context.
pub of_i-to_i : (c : Context) → IsContext c → of_i (to_i c) ≡ c
unfolding of_i to_i
of_i-to_i c v = ground (arith, v.flags_lt, v.types_lt, v.missing_lt)

-- So different contexts have different words.
pub to_i-injective : (a b : Context) → IsContext a → IsContext b → to_i a ≡ to_i b → a ≡ b
unfolding to_i
to_i-injective a b va vb e = ground (arith, va.flags_lt, vb.flags_lt, va.types_lt, vb.types_lt)

to_i-lt : (c : Context) → IsContext c → to_i c < 2 ^ 64
unfolding to_i
to_i-lt c v = omega (arith, v.flags_lt, v.types_lt, v.missing_lt)

-- The low 32 bits of the word are the flags and the first 24 typed facts.
low_bit :
    (c : Context) (i : ℕ)
    → c.flags < 2 ^ 8
    → c.type_flags < 2 ^ 32
    → i < 32
    → bit (to_i c) i ≡ (if ltb i 8 then bit c.flags i else bit c.type_flags (i - 8))
unfolding to_i
low_bit c i h t k =
    let e : c.flags + 2 ^ 8 * c.type_flags + 2 ^ 40 * c.missing
        ≡ c.flags + 2 ^ 8 * (c.type_flags + 2 ^ 32 * c.missing) =
      omega arith in
    rw e (
      ground (
        arith,
        bit_fields 8 c.flags (c.type_flags + 2 ^ 32 * c.missing) i h,
        bit_fields 32 c.type_flags c.missing (i - 8) t,
      ))

-- `n` assumes no more than `c`, in fields of their width.
record IsPart (n c : Context) : Type 0 where
  flags : Subset n.flags c.flags
  types : Subset n.type_flags c.type_flags
  flags_lt : n.flags < 2 ^ 8
  types_lt : n.type_flags < 2 ^ 32

reset-Subset : (s e : ℕ) → Subset (EnumSet.reset s e) s
unfolding EnumSet.reset
reset-Subset s e i h = ground (arith, bit-bit_and s (complement 64 (2 ^ e)) i)

reset-lt : (w s e : ℕ) → s < 2 ^ w → EnumSet.reset s e < 2 ^ w
unfolding EnumSet.reset
reset-lt w s e h = bit_and-lt w s (complement 64 (2 ^ e)) h

remove-IsPart : (n c : Context) (a : Assumption) → IsPart n c → IsPart (remove n a) c
unfolding remove
remove-IsPart n c a h = record {
  flags = λ i p. h.flags i (reset-Subset n.flags (code a) i p);
  types = h.types;
  flags_lt = reset-lt 8 n.flags (code a) h.flags_lt;
  types_lt = h.types_lt;
}

reset_fact-IsPart : (X : Fact) (n c : Context) (i : ℕ) → IsPart n c → IsPart (reset_fact X n i) c
reset_fact-IsPart X n c i h = elim (Bool-cases (ltb i num_typed_args)) [
  | inl typed ↦
      unfold reset_fact in
      rw typed (record {
        flags = h.flags;
        types = λ j p. h.types j (reset-Subset n.type_flags (type_code X i) j p);
        flags_lt = h.flags_lt;
        types_lt = reset-lt 32 n.type_flags (type_code X i) h.types_lt;
      })
  | inr out ↦ unfold reset_fact in rw out h
]

for_args-IsPart :
    (k : ℕ) (n c : Context) → IsPart n c → IsPart (for_args k (reset_fact not_obj) n) c
for_args-IsPart zero n c h = h
for_args-IsPart (suc k) n c h = for_args-IsPart k _ c (reset_fact-IsPart not_obj n c _ h)

whole-IsPart : (c : Context) → IsContext c → IsPart c c
whole-IsPart c v = record {
  flags = λ i p. p;
  types = λ i p. p;
  flags_lt = omega (arith, v.flags_lt);
  types_lt = omega (arith, v.types_lt);
}

normalized-IsPart : (c : Context) (d f : Bool) → IsContext c → IsPart (normalized c d f) c
unfolding normalized
normalized-IsPart c true true v = for_args-IsPart 6 c c (whole-IsPart c v)
normalized-IsPart c true false v =
    for_args-IsPart 6 _ c (remove-IsPart c c no_explicitly_missing_args (whole-IsPart c v))
normalized-IsPart c false true v =
    for_args-IsPart 6 _ c (remove-IsPart c c statically_argmatched (whole-IsPart c v))
normalized-IsPart c false false v = for_args-IsPart 6 _ c (
    remove-IsPart _ c no_explicitly_missing_args
      (remove-IsPart c c statically_argmatched (whole-IsPart c v)))

missing-normalized : (c : Context) (d f : Bool) → (normalized c d f).missing ≡ c.missing
unfolding normalized
missing-normalized c true true = refl
missing-normalized c true false = refl
missing-normalized c false true = refl
missing-normalized c false false = refl

module _ (c other : Context) (vo : IsContext other) (sf : Subset c.flags other.flags)
    (st : (i : ℕ) → i < 24 → bit c.type_flags i ≡ true → bit other.type_flags i ≡ true) where
  -- No low bit of a part of `c` is missing in `other`.
  quiet :
      (m : Context) → IsPart m c → popcount 32 (bit_and (to_i m) (complement 64 (to_i other))) ≡ 0
  quiet m h = popcount_none 32 _ λ i k. ground (
    arith,
    bit-bit_and (to_i m) (complement 64 (to_i other)) i,
    bit-complement 64 (to_i other) i (to_i-lt other vo),
    low_bit m i h.flags_lt h.types_lt k,
    low_bit other i (omega (arith, vo.flags_lt)) (omega (arith, vo.types_lt)) k,
    h.flags i,
    h.types (i - 8),
    sf i,
    st (i - 8),
  )

set_num_missing-IsPart : (m c : Context) (i : ℕ) → IsPart m c → IsPart (set_num_missing m i) c
unfolding set_num_missing
set_num_missing-IsPart m c i h = record {
  flags = h.flags;
  types = h.types;
  flags_lt = h.flags_lt;
  types_lt = h.types_lt;
}

-- The measure sees nothing of the facts that an argument is a simple real: a context that differs
-- from the other in those alone, of equal counts, is not an improvement, whatever the signature.
pub is_improving_blind :
    (c other : Context) (has_dots has_defaults : Bool)
    → IsContext c
    → IsContext other
    → c.missing ≡ other.missing
    → Subset c.flags other.flags
    → ((i : ℕ) → i < 24 → bit c.type_flags i ≡ true → bit other.type_flags i ≡ true)
    → is_improving c other has_dots has_defaults ≡ 0
unfolding is_improving
is_improving_blind c other d f vc vo em sf st =
    let part = normalized-IsPart c d f vc in
    ground (
      arith,
      missing-normalized c d f,
      quiet c other vo sf st (normalized c d f) part,
      quiet c other vo sf st (set_num_missing (normalized c d f) other.missing)
          (set_num_missing-IsPart (normalized c d f) c other.missing part),
    )
