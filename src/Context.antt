-- ===== src/Context.antt =====
-- rir/src/runtime/Context.h and Context.cpp: the assumptions that a version of a function is
-- compiled under. The packed fields are numbers: `flags` a set of `Assumption`, `type_flags` a set
-- of `TypeAssumption`, `missing` a byte. Printing and the byte copies of `serialize` are left out.
pub mod Flags
pub mod Smaller
pub mod Lattice
pub mod Order
pub mod Improving
pub mod Levels
use rir.Prelude.{
  ℕ, zero, suc, ◌+◌, ◌-◌, ◌*◌, ◌/◌, ◌%◌, ◌^◌, ◌<◌, bit_and, bit_or, Bool, true, false, not, ◌&&◌,
  ◌||◌, Option, none, some, leb, ltb, ◌==◌, if◌then◌else◌,
}
use rir.Prelude.Bits.{bit, complement, popcount}
use rir.EnumSet
use rir.EnumSet.{Enum}

-- enum class Assumption
pub data Assumption : Type 0 where
  no_explicitly_missing_args correct_order_of_arguments : Assumption
  not_too_many_arguments statically_argmatched : Assumption

abbrev pub code : Assumption → ℕ
code no_explicitly_missing_args = 0
code correct_order_of_arguments = 1
code not_too_many_arguments = 2
code statically_argmatched = 3

abbrev pub flags_enum : Enum
flags_enum = record { first = 0; last = 3; digits = 8 }

abbrev pub num_typed_args : ℕ
num_typed_args = 6

-- enum class TypeAssumption: `ArgiIsX_` is the `i`-th of the six values of its fact X.
pub data Fact : Type 0 where
  eager non_refl not_obj simple_int simple_real : Fact

abbrev pub type_code : Fact → ℕ → ℕ
type_code eager i = i
type_code non_refl i = 6 + i
type_code not_obj i = 12 + i
type_code simple_int i = 18 + i
type_code simple_real i = 24 + i

abbrev pub type_enum : Enum
type_enum = record { first = 0; last = 29; digits = 32 }

pub record Context : Type 0 where
  pub flags : ℕ
  pub type_flags : ℕ
  pub missing : ℕ

abbrev pub empty_context : Context
empty_context = record { flags = 0; type_flags = 0; missing = 0 }

abbrev pub flag : Assumption → ℕ
flag a = 2 ^ code a

unfoldable pub add : Context → Assumption → Context
add c a = record c { flags = EnumSet.set flags_enum c.flags (code a) }

unfoldable pub remove : Context → Assumption → Context
remove c a = record c { flags = EnumSet.reset c.flags (code a) }

unfoldable pub includes : Context → Assumption → Bool
includes c a = EnumSet.includes_elem flags_enum c.flags (code a)

unfoldable pub includes_flags : Context → ℕ → Bool
includes_flags c fs = EnumSet.includes c.flags fs

-- The members that the macro TYPE_ASSUMPTIONS makes: isEager, resetEager, setEager and so on.
unfoldable pub is_fact : Fact → Context → ℕ → Bool
is_fact X c i = ltb i num_typed_args && EnumSet.includes_elem type_enum c.type_flags (type_code X i)

unfoldable pub reset_fact : Fact → Context → ℕ → Context
reset_fact X c i =
    if ltb i num_typed_args
    then record c { type_flags = EnumSet.reset c.type_flags (type_code X i) }
    else c

unfoldable pub set_fact : Fact → Context → ℕ → Context
set_fact X c i =
    if ltb i num_typed_args
    then record c { type_flags = EnumSet.set type_enum c.type_flags (type_code X i) }
    else c

-- for (i = NUM_TYPED_ARGS - n; i < NUM_TYPED_ARGS; ++i) a = body(a, i)
abbrev for_args : ℕ → (Context → ℕ → Context) → Context → Context
for_args zero body a = a
for_args (suc n) body a = for_args n body (body a (num_typed_args - suc n))

-- allEagerArgsFlags, allNonObjArgsFlags
unfoldable pub all_args_flags : Fact → ℕ
unfolding set_fact
all_args_flags X = (for_args 6 (set_fact X) empty_context).type_flags

-- The setter; the assertion `i < 255` is a hypothesis of its users.
unfoldable pub set_num_missing : Context → ℕ → Context
set_num_missing c i = record c { missing = i % 256 }

unfoldable pub empty : Context → Bool
empty c = EnumSet.empty c.flags && EnumSet.empty c.type_flags && (c.missing == 0)

unfoldable pub count : Context → ℕ
count c = EnumSet.count c.flags + EnumSet.count c.type_flags

unfoldable pub equal : Context → Context → Bool
equal a b = (a.flags == b.flags) && (a.type_flags == b.type_flags) && (a.missing == b.missing)

-- operator| ; `none` is the failed assertion that the contexts are compatible.
unfoldable pub join : Context → Context → Option Context
join a b =
    let least = if ltb b.missing a.missing then b.flags else a.flags in
    if not (a.missing == b.missing)
      && EnumSet.contains flags_enum least (code no_explicitly_missing_args)
    then none
    else some (record {
      flags = EnumSet.union b.flags a.flags;
      type_flags = EnumSet.union b.type_flags a.type_flags;
      missing = if ltb a.missing b.missing then b.missing else a.missing;
    })

-- operator&
unfoldable pub meet : Context → Context → Context
meet a b =
    if not (a.missing == b.missing)
    then record {
      flags = EnumSet.intersection (EnumSet.intersection b.flags a.flags) (
          EnumSet.negation flags_enum
            (EnumSet.singleton flags_enum (code no_explicitly_missing_args)));
      type_flags = EnumSet.intersection b.type_flags a.type_flags;
      missing = if ltb b.missing a.missing then b.missing else a.missing;
    }
    else record {
      flags = EnumSet.intersection b.flags a.flags;
      type_flags = EnumSet.intersection b.type_flags a.type_flags;
      missing = a.missing;
    }

-- `a` assumes at least what `b` assumes. The sign of `argdiff` is the order of the two counts.
unfoldable pub smaller : Context → Context → Bool
smaller a b =
    if ltb a.missing b.missing && EnumSet.contains flags_enum b.flags (code not_too_many_arguments)
    then false
    else if ltb b.missing a.missing
        && EnumSet.contains flags_enum b.flags (code no_explicitly_missing_args)
    then false
    else EnumSet.includes a.flags b.flags && EnumSet.includes a.type_flags b.type_flags

-- operator<
unfoldable pub less : Context → Context → Bool
less a b =
    if equal a b
    then false
    else if smaller a b
    then true
    else if smaller b a
    then false
    else if not (EnumSet.count a.flags == EnumSet.count b.flags)
    then ltb (EnumSet.count b.flags) (EnumSet.count a.flags)
    else if not (EnumSet.count a.type_flags == EnumSet.count b.type_flags)
    then ltb (EnumSet.count b.type_flags) (EnumSet.count a.type_flags)
    else if not (a.missing == b.missing)
    then ltb b.missing a.missing
    else if not (a.flags == b.flags)
    then ltb b.flags a.flags
    else ltb b.type_flags a.type_flags

-- clearExcept, clearTypeFlags, clearNargs, clearObjFlags
unfoldable pub clear_except : Context → ℕ → Context
clear_except c filter = record {
  flags = EnumSet.intersection c.flags filter;
  type_flags = 0;
  missing = 0;
}

unfoldable pub clear_type_flags : Context → Context
clear_type_flags c = record c { type_flags = 0 }

unfoldable pub clear_nargs : Context → Context
clear_nargs c = record c {
  flags = EnumSet.reset c.flags (code no_explicitly_missing_args);
  missing = 0;
}

unfoldable pub clear_obj_flags : Context → Context
unfolding reset_fact
clear_obj_flags c = for_args 6 (reset_fact not_obj) c

-- Compiler::minimalContext (rir/src/compiler/compiler.h)
abbrev pub minimal_context : ℕ
minimal_context = bit_or (flag not_too_many_arguments) (flag correct_order_of_arguments)

-- The levels 0 to 5 restrict the context, a greater level leaves it alone.
unfoldable pub set_specialization_level : Context → ℕ → Context
set_specialization_level c zero = record {
  flags = EnumSet.intersection c.flags (EnumSet.union minimal_context (flag statically_argmatched));
  type_flags = 0;
  missing = 0;
}
set_specialization_level c (suc zero) = record {
  flags = EnumSet.intersection c.flags (EnumSet.union minimal_context (flag statically_argmatched));
  type_flags = EnumSet.intersection c.type_flags (all_args_flags eager);
  missing = 0;
}
set_specialization_level c (suc (suc zero)) = record {
  flags = EnumSet.reset c.flags (code no_explicitly_missing_args);
  type_flags = EnumSet.intersection c.type_flags (all_args_flags eager);
  missing = 0;
}
set_specialization_level c (suc (suc (suc zero))) = record {
  flags = EnumSet.reset c.flags (code no_explicitly_missing_args);
  type_flags =
      EnumSet.intersection c.type_flags
        (EnumSet.union (all_args_flags eager) (all_args_flags not_obj));
  missing = 0;
}
set_specialization_level c (suc (suc (suc (suc zero)))) = record c {
  flags = EnumSet.reset c.flags (code no_explicitly_missing_args);
  missing = 0;
}
set_specialization_level c (suc (suc (suc (suc (suc zero))))) = record c {
  flags = EnumSet.reset c.flags (code no_explicitly_missing_args);
}
set_specialization_level c _ = c

-- operator-
unfoldable pub minus : Context → Context → Context
minus a b = record {
  flags = EnumSet.intersection a.flags (EnumSet.negation flags_enum b.flags);
  type_flags = EnumSet.intersection a.type_flags (EnumSet.negation type_enum b.type_flags);
  missing = (a.missing + 256 - b.missing) % 256;
}

-- The eight bytes of the packed struct as a little-endian `unsigned long`, and back.
unfoldable pub to_i : Context → ℕ
to_i c = c.flags + 2 ^ 8 * c.type_flags + 2 ^ 40 * c.missing

unfoldable pub of_i : ℕ → Context
of_i n = record { flags = n % 2 ^ 8; type_flags = n / 2 ^ 8 % 2 ^ 32; missing = n / 2 ^ 40 % 2 ^ 8 }

-- isImproving: the context without the assumptions that are not worth a recompilation.
unfoldable pub normalized : Context → Bool → Bool → Context
unfolding remove clear_obj_flags
normalized c has_dots has_defaults =
    let n1 = if has_dots then c else remove c statically_argmatched in
    let n2 = if has_defaults then n1 else remove n1 no_explicitly_missing_args in clear_obj_flags n2

-- isImproving. `__builtin_popcount` takes an `unsigned int`, so it sees 32 bits of the difference.
unfoldable pub is_improving : Context → Context → Bool → Bool → ℕ
unfolding equal normalized set_num_missing to_i
is_improving c other has_dots has_defaults =
    let n = normalized c has_dots has_defaults in
    let keep = has_dots || has_defaults in
    if equal other c
    then 0
    else if keep && not (n.missing == other.missing)
    then 20
    else let m = if keep then n else set_num_missing n other.missing in
      2 * popcount 32 (bit_and (to_i m) (complement 64 (to_i other)))

-- A context whose fields are sets of declared values, with a count that fits its byte.
pub record IsContext (c : Context) : Type 0 where
  pub flags_lt : c.flags < 2 ^ 4
  pub types_lt : c.type_flags < 2 ^ 30
  pub missing_lt : c.missing < 256
