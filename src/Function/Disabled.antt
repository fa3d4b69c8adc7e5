-- ===== src/Function/Disabled.antt =====
-- `Function::clearDisabledAssumptions`: what a call context loses to a version's flags.
use rir.Prelude.{ℕ, Bool, true, false, ltb, if◌then◌else◌}
use rir.Context.{Context}
use rir.Context.Levels.{
  IsGeneral, IsGeneral-refl, IsGeneral-trans, level-IsGeneral, clear_type_flags-IsGeneral,
  clear_nargs-IsGeneral, clear_minimal-IsGeneral,
}
use rir.Function.{
  Function, has_flag, disable_all_specialization, disable_argument_type_specialization,
  disable_num_arguments_specialization, clear_disabled_assumptions,
}

IsGeneral-if : (b : Bool) (c d : Context) → IsGeneral c d → IsGeneral c (if b then d else c)
IsGeneral-if true c d h = h
IsGeneral-if false c d h = IsGeneral-refl c

-- The context that is left assumes no more than the given one, and has each flag of the minimal
-- context that the given one has.
pub clear_disabled_assumptions-IsGeneral :
    (level : ℕ) (f : Function) (given : Context)
    → IsGeneral given (clear_disabled_assumptions level f given)
unfolding clear_disabled_assumptions
clear_disabled_assumptions-IsGeneral level f given =
    let s1 =
      IsGeneral-if (has_flag f.flags disable_argument_type_specialization) given _
        (clear_type_flags-IsGeneral given) in
    let s2 =
      IsGeneral-if (has_flag f.flags disable_num_arguments_specialization) _ _
        (clear_nargs-IsGeneral _) in
    let s3 =
      IsGeneral-if (has_flag f.flags disable_all_specialization) _ _ (clear_minimal-IsGeneral _) in
    let s4 = IsGeneral-if (ltb level 100) _ _ (level-IsGeneral _ level) in
    IsGeneral-trans _ _ _ s1 (IsGeneral-trans _ _ _ s2 (IsGeneral-trans _ _ _ s3 s4))
