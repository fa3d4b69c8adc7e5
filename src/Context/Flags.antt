-- ===== src/Context/Flags.antt =====
-- rir/src/runtime/Context.h: the flags of a context one by one, and the passes that clear some.
use rir.Prelude.{ℕ, ◌≡◌, Bool, arith}
use rir.Prelude.Bits.{bit}
use rir.EnumSet
use rir.EnumSet.{IsEnum}
use rir.EnumSet.Laws.{contains-bit}
use rir.Context.{
  Assumption, no_explicitly_missing_args, correct_order_of_arguments, not_too_many_arguments,
  statically_argmatched, code, flags_enum, type_enum,
}

pub flags_enum-IsEnum : IsEnum flags_enum
flags_enum-IsEnum = omega arith

pub type_enum-IsEnum : IsEnum type_enum
type_enum-IsEnum = omega arith

-- Whether a set of flags has an assumption.
abbrev pub has : ℕ → Assumption → Bool
has fs a = bit fs (code a)

pub contains_flag : (fs : ℕ) (a : Assumption) → EnumSet.contains flags_enum fs (code a) ≡ has fs a
contains_flag fs no_explicitly_missing_args = contains-bit _ flags_enum-IsEnum fs 0 (omega arith)
contains_flag fs correct_order_of_arguments = contains-bit _ flags_enum-IsEnum fs 1 (omega arith)
contains_flag fs not_too_many_arguments = contains-bit _ flags_enum-IsEnum fs 2 (omega arith)
contains_flag fs statically_argmatched = contains-bit _ flags_enum-IsEnum fs 3 (omega arith)
