-- ===== src/Context/Levels.antt =====
-- The passes that give assumptions up: `clearTypeFlags`, `clearNargs`, `clearExcept` and the levels
-- of `setSpecializationLevel` (rir/src/runtime/Context.cpp).
use rir.Prelude.{ℕ, zero, suc, ◌+◌, ◌≤◌, ◌≡◌, ◌^◌, dec_lt, refl, true, false, arith}
use rir.Prelude.Bits.{bit, bit-bit_and, bit-bit_or, bit-zero, bit_above, complement}
use rir.Prelude.Bits.Subset.{Subset}
use rir.EnumSet
use rir.EnumSet.Laws.{bit-reset}
use rir.Context.{
  no_explicitly_missing_args, correct_order_of_arguments, not_too_many_arguments,
  statically_argmatched, flag, flags_enum, eager, not_obj, Context, all_args_flags, minimal_context,
  clear_except, clear_type_flags, clear_nargs, set_specialization_level,
}
use rir.Context.Flags.{has, flags_enum-IsEnum}
use rir.Context.Smaller.{IsSmaller, IsSmaller-refl, IsSmaller-trans}

-- A context that keeps some flags and facts, counts no missing argument, and does not exclude
-- explicitly missing ones is more general.
generalises :
    (c d : Context)
    → Subset d.flags c.flags
    → Subset d.type_flags c.type_flags
    → d.missing ≡ 0
    → has d.flags no_explicitly_missing_args ≡ false
    → IsSmaller c d
generalises c d f t m n = record {
  not_more = λ p. omega arith;
  not_fewer = λ p. cc;
  flags = f;
  types = t;
}

Subset-intersection_left : (s t : ℕ) → Subset (EnumSet.intersection s t) s
unfolding EnumSet.intersection
Subset-intersection_left s t i h = ground (arith, bit-bit_and t s i)

Subset-reset : (s e : ℕ) → Subset (EnumSet.reset s e) s
unfolding EnumSet.reset
Subset-reset s e i h = ground (arith, bit-bit_and s (complement 64 (2 ^ e)) i)

Subset-zero : (s : ℕ) → Subset 0 s
Subset-zero s i h = cc (h, bit-zero i)

-- The flags that levels 0 and 1 preserve: the minimal context and the static argument matching.
abbrev preserved : ℕ
preserved = EnumSet.union minimal_context (flag statically_argmatched)

preserved_lem : preserved ≡ 14
unfolding EnumSet.union
preserved_lem = refl

preserved_flag : (s : ℕ) → has (EnumSet.intersection s preserved) no_explicitly_missing_args ≡ false
unfolding EnumSet.intersection
preserved_flag s = rw preserved_lem (ground (arith, bit-bit_and 14 s 0, low))
  where
    low : bit 14 0 ≡ false
    low = unfold bit in refl

reset_flag : (s : ℕ) → has (EnumSet.reset s 0) no_explicitly_missing_args ≡ false
reset_flag s =
    ground (arith, bit-reset flags_enum flags_enum-IsEnum s 0 0 (omega arith) (omega arith))

preserved_above : (s i : ℕ) → 4 ≤ i → bit (EnumSet.intersection s preserved) i ≡ false
unfolding EnumSet.intersection
preserved_above s i h =
    rw preserved_lem (ground (arith, bit-bit_and 14 s i, bit_above 4 14 i (omega arith) h))

Subset-preserved-reset : (s : ℕ) → Subset (EnumSet.intersection s preserved) (EnumSet.reset s 0)
Subset-preserved-reset s zero h = cc (h, preserved_flag s)
Subset-preserved-reset s (suc i) h = elim (dec_lt (suc i) 64) [
  | yes p ↦ ground (
    arith,
    bit-reset flags_enum flags_enum-IsEnum s 0 (suc i) (omega arith) p,
    Subset-intersection_left s preserved (suc i) h,
  )
  | no q ↦ cc (h, preserved_above s (suc i) (omega arith))
]

Subset-intersection_mono :
    (s t u : ℕ) → Subset t u → Subset (EnumSet.intersection s t) (EnumSet.intersection s u)
unfolding EnumSet.intersection
Subset-intersection_mono s t u h i p = ground (arith, bit-bit_and t s i, bit-bit_and u s i, h i)

Subset-union_left : (s t : ℕ) → Subset s (EnumSet.union s t)
unfolding EnumSet.union
Subset-union_left s t i h = ground (arith, bit-bit_or t s i)

-- Each level keeps all the assumptions of the level below it.
pub level_step :
    (c : Context) (n : ℕ)
    → IsSmaller (set_specialization_level c (suc n)) (set_specialization_level c n)
unfolding set_specialization_level
level_step c zero = generalises _ _ (λ i p. p) (Subset-zero _) refl (preserved_flag c.flags)
level_step c (suc zero) =
    generalises _ _ (Subset-preserved-reset c.flags) (λ i p. p) refl (preserved_flag c.flags)
level_step c (suc (suc zero)) =
    generalises _ _ (λ i p. p)
      (Subset-intersection_mono c.type_flags (all_args_flags eager) _
        (Subset-union_left (all_args_flags eager) (all_args_flags not_obj)))
      refl (reset_flag c.flags)
level_step c (suc (suc (suc zero))) =
    generalises _ _ (λ i p. p) (Subset-intersection_left c.type_flags _) refl (reset_flag c.flags)
level_step c (suc (suc (suc (suc zero)))) =
    generalises _ _ (λ i p. p) (λ i p. p) refl (reset_flag c.flags)
level_step c (suc (suc (suc (suc (suc zero))))) = record {
  not_more = λ p. omega arith;
  not_fewer = λ p. omega arith;
  flags = Subset-reset c.flags 0;
  types = λ i p. p;
}
level_step c (suc (suc (suc (suc (suc (suc n)))))) = IsSmaller-refl c

all_levels : (c : Context) (n : ℕ) → set_specialization_level c (6 + n) ≡ c
unfolding set_specialization_level
all_levels c n = let e : 6 + n ≡ suc (suc (suc (suc (suc (suc n))))) = omega arith in rw e refl

-- The more specialization is allowed, the more is assumed; and no level adds an assumption.
pub level_monotone :
    (c : Context) (n k : ℕ)
    → IsSmaller (set_specialization_level c (k + n)) (set_specialization_level c n)
      × IsSmaller c (set_specialization_level c n)
level_monotone c n k = (climb k n, top n)
  where
    climb :
        (k n : ℕ) → IsSmaller (set_specialization_level c (k + n)) (set_specialization_level c n)
    climb zero n = let e : 0 + n ≡ n = omega arith in rw e (IsSmaller-refl _)
    climb (suc k) n =
        let e : suc k + n ≡ suc (k + n) = omega arith in
        rw e (IsSmaller-trans _ _ _ (level_step c (k + n)) (climb k n))

    top : (n : ℕ) → IsSmaller c (set_specialization_level c n)
    top n = let e : set_specialization_level c (6 + n) ≡ c = all_levels c n in rw e at (climb 6 n)

-- `d` has the flags of the minimal context that `c` has.
pub record Keeps (c d : Context) : Type 0 where
  pub ordered :
      has c.flags correct_order_of_arguments ≡ true → has d.flags correct_order_of_arguments ≡ true
  pub bounded :
      has c.flags not_too_many_arguments ≡ true → has d.flags not_too_many_arguments ≡ true

pub Keeps-trans : (a b c : Context) → Keeps a b → Keeps b c → Keeps a c
Keeps-trans a b c h k = record {
  ordered = λ p. k.ordered (h.ordered p);
  bounded = λ p. k.bounded (h.bounded p);
}

pub Keeps-same : (c d : Context) → d.flags ≡ c.flags → Keeps c d
Keeps-same c d e = record { ordered = λ p. rw e p; bounded = λ p. rw e p }

Keeps-reset : (c d : Context) → d.flags ≡ EnumSet.reset c.flags 0 → Keeps c d
Keeps-reset c d e = record {
  ordered = λ p. rw e (
      ground
        (arith, bit-reset flags_enum flags_enum-IsEnum c.flags 0 1 (omega arith) (omega arith)));
  bounded = λ p. rw e (
      ground
        (arith, bit-reset flags_enum flags_enum-IsEnum c.flags 0 2 (omega arith) (omega arith)));
}

-- A mask that has the flags of the minimal context keeps them.
Keeps-mask :
    (c d : Context) (mask : ℕ)
    → d.flags ≡ EnumSet.intersection c.flags mask
    → bit mask 1 ≡ true
    → bit mask 2 ≡ true
    → Keeps c d
unfolding EnumSet.intersection
Keeps-mask c d mask e one two = record {
  ordered = λ p. rw e (ground (arith, bit-bit_and mask c.flags 1));
  bounded = λ p. rw e (ground (arith, bit-bit_and mask c.flags 2));
}

preserved_bits : (bit preserved 1 ≡ true) × (bit preserved 2 ≡ true)
unfolding bit
preserved_bits = rw preserved_lem (refl, refl)

level-Keeps : (c : Context) (n : ℕ) → Keeps c (set_specialization_level c n)
unfolding set_specialization_level
level-Keeps c zero = Keeps-mask c _ preserved refl preserved_bits.0 preserved_bits.1
level-Keeps c (suc zero) = Keeps-mask c _ preserved refl preserved_bits.0 preserved_bits.1
level-Keeps c (suc (suc zero)) = Keeps-reset c _ refl
level-Keeps c (suc (suc (suc zero))) = Keeps-reset c _ refl
level-Keeps c (suc (suc (suc (suc zero)))) = Keeps-reset c _ refl
level-Keeps c (suc (suc (suc (suc (suc zero))))) = Keeps-reset c _ refl
level-Keeps c (suc (suc (suc (suc (suc (suc n)))))) = Keeps-same c c refl

-- The pass gives assumptions up and keeps the minimal context.
pub record IsGeneral (c d : Context) : Type 0 where
  pub smaller : IsSmaller c d
  pub keeps : Keeps c d

pub IsGeneral-refl : (c : Context) → IsGeneral c c
IsGeneral-refl c = record { smaller = IsSmaller-refl c; keeps = Keeps-same c c refl }

pub IsGeneral-trans : (a b c : Context) → IsGeneral a b → IsGeneral b c → IsGeneral a c
IsGeneral-trans a b c h k = record {
  smaller = IsSmaller-trans a b c h.smaller k.smaller;
  keeps = Keeps-trans a b c h.keeps k.keeps;
}

pub level-IsGeneral : (c : Context) (n : ℕ) → IsGeneral c (set_specialization_level c n)
level-IsGeneral c n = record { smaller = (level_monotone c n 0).1; keeps = level-Keeps c n }

pub clear_type_flags-IsGeneral : (c : Context) → IsGeneral c (clear_type_flags c)
unfolding clear_type_flags
clear_type_flags-IsGeneral c = record {
  smaller = record {
    not_more = λ p. omega arith;
    not_fewer = λ p. omega arith;
    flags = λ i p. p;
    types = Subset-zero c.type_flags;
  };
  keeps = Keeps-same c _ refl;
}

pub clear_nargs-IsGeneral : (c : Context) → IsGeneral c (clear_nargs c)
unfolding clear_nargs
clear_nargs-IsGeneral c = record {
  smaller = generalises c _ (Subset-reset c.flags 0) (λ i p. p) refl (reset_flag c.flags);
  keeps = Keeps-reset c _ refl;
}

minimal_flag :
    (s : ℕ) → has (EnumSet.intersection s minimal_context) no_explicitly_missing_args ≡ false
unfolding EnumSet.intersection bit
minimal_flag s = ground (arith, bit-bit_and minimal_context s 0)

pub clear_minimal-IsGeneral : (c : Context) → IsGeneral c (clear_except c minimal_context)
unfolding clear_except
clear_minimal-IsGeneral c = record {
  smaller =
      generalises c _ (Subset-intersection_left c.flags minimal_context) (Subset-zero c.type_flags)
        refl (minimal_flag c.flags);
  keeps = Keeps-mask c _ minimal_context refl (unfold bit in refl) (unfold bit in refl);
}
