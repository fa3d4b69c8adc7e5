-- ===== src/Function/Flags.antt =====
-- The flags of a version: deoptimization and inheritance.
use rir.Prelude.{
  ℕ, ◌+◌, ◌≤◌, ◌<◌, ◌^◌, ◌≡◌, inl, inr, refl, Bool, true, false, ◌&&◌, ◌||◌, List, [], ◌∷◌, arith,
  ◌==◌, Bool-cases, ==_iff,
}
use rir.EnumSet
use rir.EnumSet.{IsEnum}
use rir.EnumSet.Laws.{membership}
use rir.Function.{
  Flag, deopt, flag_code, function_flags, Function, has_flag, set_flag, inherited, inherit_loop,
  inherit_flags, register_deopt, disabled, uint_max,
}

pub function_flags-IsEnum : IsEnum function_flags
function_flags-IsEnum = omega arith

flag_code-le : (f : Flag) → flag_code f ≤ 12
flag_code-le f = ground arith

abbrev pub same_flag : Flag → Flag → Bool
same_flag f g = flag_code f == flag_code g

-- Setting a flag sets that one only.
pub has_flag-set_flag :
    (fs : ℕ) (f g : Flag)
    → fs < 2 ^ 64
    → has_flag (set_flag fs f) g ≡ (same_flag f g || has_flag fs g)
has_flag-set_flag fs f g h =
    (membership function_flags function_flags-IsEnum fs (flag_code f) (flag_code g) h
      (flag_code-le f) (flag_code-le g)).0

set_flag-lt : (fs : ℕ) (f : Flag) → fs < 2 ^ 64 → set_flag fs f < 2 ^ 64
unfolding EnumSet.set
set_flag-lt fs f h = omega arith

-- Whether a list of flags has a flag that the version `from` has set.
abbrev offered : ℕ → List Flag → Flag → Bool
offered from [] g = false
offered from (f ∷ fs) g = (same_flag f g && has_flag from f) || offered from fs g

inherit_loop_lem :
    (from : ℕ) (gs : List Flag) (fs : ℕ) (g : Flag)
    → fs < 2 ^ 64
    → has_flag (inherit_loop from gs fs) g ≡ (has_flag fs g || offered from gs g)
unfolding inherit_loop
inherit_loop_lem from [] fs g h = ground arith
inherit_loop_lem from (f ∷ gs) fs g h = elim (Bool-cases (has_flag from f)) [
  | inl on ↦ rw on (
      ground (
        arith,
        inherit_loop_lem from gs (set_flag fs f) g (set_flag-lt fs f h),
        has_flag-set_flag fs f g h,
      ))
  | inr off ↦ rw off (ground (arith, inherit_loop_lem from gs fs g h))
]

abbrev pub one_of : List Flag → Flag → Bool
one_of [] g = false
one_of (f ∷ fs) g = same_flag f g || one_of fs g

has_flag_same : (fs : ℕ) (f g : Flag) → same_flag f g ≡ true → has_flag fs f ≡ has_flag fs g
has_flag_same fs f g e =
    let c : flag_code f ≡ flag_code g = (==_iff (flag_code f) (flag_code g)).0 e in rw c

offered-one_of :
    (from : ℕ) (gs : List Flag) (g : Flag) → offered from gs g ≡ (one_of gs g && has_flag from g)
offered-one_of from [] g = refl
offered-one_of from (f ∷ gs) g = elim (Bool-cases (same_flag f g)) [
  | inl e ↦ rw e (ground (arith, has_flag_same from f g e, offered-one_of from gs g))
  | inr e ↦ rw e (ground (arith, offered-one_of from gs g))
]

-- A version inherits exactly the six inherited flags that the other version has, and keeps its own:
-- in particular it is disabled after that only if it was before.
pub inherit_flags_lem :
    (f other : Function) (g : Flag)
    → f.flags < 2 ^ 64
    → (has_flag (inherit_flags f other).flags g
        ≡ (has_flag f.flags g || (one_of inherited g && has_flag other.flags g)))
      × (disabled (inherit_flags f other) ≡ disabled f)
unfolding inherit_flags disabled
inherit_flags_lem f other g h = (
  ground (
    arith,
    inherit_loop_lem other.flags inherited f.flags g h,
    offered-one_of other.flags inherited g,
  ),
  ground (
    arith,
    inherit_loop_lem other.flags inherited f.flags deopt h,
    offered-one_of other.flags inherited deopt,
  ),
)

-- A deoptimization disables the version, sets no other flag, and counts up to the limit.
pub register_deopt_lem :
    (f : Function) (g : Flag)
    → f.flags < 2 ^ 64
    → f.deopt_count ≤ uint_max
    → (disabled (register_deopt f) ≡ true)
      × (has_flag (register_deopt f).flags g ≡ (same_flag deopt g || has_flag f.flags g))
      × (f.deopt_count ≤ (register_deopt f).deopt_count)
      × ((register_deopt f).deopt_count ≤ uint_max)
      × (f.deopt_count < uint_max → (register_deopt f).deopt_count ≡ f.deopt_count + 1)
unfolding register_deopt disabled
register_deopt_lem f g h k = (
  ground (arith, has_flag-set_flag f.flags deopt deopt h),
  has_flag-set_flag f.flags deopt g h,
  ground arith,
  ground arith,
  λ p. ground arith,
)
