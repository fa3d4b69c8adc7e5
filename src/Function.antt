-- ===== src/Function.antt =====
-- rir/src/runtime/Function.h and Function.cpp: a version of a function, with its flags, its counters
-- and the context that it was compiled for. A pointer (the container, the body) is a number; the
-- time stamp counter is an argument of the methods that read it.
pub mod Flags
pub mod Counters
pub mod Disabled
use rir.Prelude.{
  ℕ, zero, suc, ◌+◌, ◌-◌, ◌%◌, ◌^◌, Bool, true, false, not, ◌&&◌, List, [], ◌∷◌, ltb, ◌==◌,
  if◌then◌else◌,
}
use rir.EnumSet
use rir.EnumSet.{Enum}
use rir.Context.{
  Context, minimal_context, clear_type_flags, clear_nargs, clear_except, set_specialization_level,
}

-- FunctionSignature::OptimizationLevel
pub data OptimizationLevel : Type 0 where
  baseline optimized contextual : OptimizationLevel

-- enum Flag (RIR_FUNCTION_FLAGS)
pub data Flag : Type 0 where
  deopt mark_opt force_inline disable_inline depromise_args not_optimizable : Flag
  not_inlineable inner_function disable_all_specialization : Flag
  disable_argument_type_specialization needs_full_env reoptimize : Flag
  disable_num_arguments_specialization : Flag

abbrev pub flag_code : Flag → ℕ
flag_code deopt = 0
flag_code mark_opt = 1
flag_code force_inline = 2
flag_code disable_inline = 3
flag_code depromise_args = 4
flag_code not_optimizable = 5
flag_code not_inlineable = 6
flag_code inner_function = 7
flag_code disable_all_specialization = 8
flag_code disable_argument_type_specialization = 9
flag_code needs_full_env = 10
flag_code reoptimize = 11
flag_code disable_num_arguments_specialization = 12

abbrev pub function_flags : Enum
function_flags = record { first = 0; last = 12; digits = 64 }

-- DeoptReason::Reason (rir/src/runtime/TypeFeedback.h)
pub data Reason : Type 0 where
  unknown typecheck dead_call call_target force_and_call : Reason
  env_stub_materialized dead_branch_reached : Reason

pub record Function : Type 0 where
  pub container : ℕ
  pub body : ℕ
  pub pending_compilation : Bool
  pub optimization : OptimizationLevel
  pub context : Context
  pub flags : ℕ
  pub num_args : ℕ
  pub invocation_count : ℕ
  pub deopt_count : ℕ
  pub dead_call_reached : ℕ
  pub invoked : ℕ
  pub exec_time : ℕ

abbrev pub uint_max : ℕ
uint_max = 2 ^ 32 - 1

abbrev pub max_time_measure : ℕ
max_time_measure = 1_000_000_000

abbrev pub has_flag : ℕ → Flag → Bool
has_flag fs f = EnumSet.contains function_flags fs (flag_code f)

abbrev pub set_flag : ℕ → Flag → ℕ
set_flag fs f = EnumSet.set function_flags fs (flag_code f)

unfoldable pub is_optimized : Function → Bool
is_optimized f = elim f.optimization [ baseline ↦ false | optimized ↦ true | contextual ↦ true ]

unfoldable pub disabled : Function → Bool
disabled f = has_flag f.flags deopt

unfoldable pub add_deopt_count : Function → ℕ → Function
add_deopt_count f n = record f { deopt_count = (f.deopt_count + n) % 2 ^ 32 }

unfoldable pub expected_nargs : Function → ℕ
expected_nargs f = (f.num_args + 2 ^ 32 - f.context.missing) % 2 ^ 32

unfoldable pub unregister_invocation : Function → Function
unregister_invocation f = record f {
  invocation_count =
      if ltb 0 f.invocation_count then f.invocation_count - 1 else f.invocation_count;
  invoked = 0;
}

-- The part of registerInvocation under the time limit.
measure_start : ℕ → Function → Function
measure_start now f =
    if not (f.invoked == 0)
    then record f { exec_time = (f.exec_time + 500_000) % 2 ^ 64 }
    else record f { invoked = now }

unfoldable pub register_invocation : ℕ → Function → Function
unfolding measure_start
register_invocation now f =
    let g = if ltb f.exec_time max_time_measure then measure_start now f else f in
    record g {
      invocation_count =
          if ltb g.invocation_count uint_max then g.invocation_count + 1 else g.invocation_count;
    }

unfoldable pub register_end_invocation : ℕ → Function → Function
register_end_invocation now f =
    if not (f.invoked == 0)
    then record f {
      exec_time = (f.exec_time + (now + 2 ^ 64 - f.invoked) % 2 ^ 64) % 2 ^ 64;
      invoked = 0;
    }
    else f

-- inheritFlags
abbrev pub inherited : List Flag
inherited =
    force_inline ∷ disable_inline ∷ disable_all_specialization
    ∷ disable_argument_type_specialization ∷ disable_num_arguments_specialization ∷ depromise_args
    ∷ []

inherit_loop : ℕ → List Flag → ℕ → ℕ
inherit_loop from [] fs = fs
inherit_loop from (g ∷ gs) fs = inherit_loop from gs (if has_flag from g then set_flag fs g else fs)

unfoldable pub inherit_flags : Function → Function → Function
unfolding inherit_loop
inherit_flags f other = record f { flags = inherit_loop other.flags inherited f.flags }

-- registerDeopt; the assertion that the version is optimized is a hypothesis of its users.
unfoldable pub register_deopt : Function → Function
register_deopt f = record f {
  flags = set_flag f.flags deopt;
  deopt_count = if ltb f.deopt_count uint_max then f.deopt_count + 1 else f.deopt_count;
}

is_dead_call : Reason → Bool
is_dead_call dead_call = true
is_dead_call _ = false

is_env_stub : Reason → Bool
is_env_stub env_stub_materialized = true
is_env_stub _ = false

unfoldable pub register_deopt_reason : Reason → Function → Function
unfolding is_dead_call is_env_stub
register_deopt_reason r f = record f {
  flags = if is_env_stub r then set_flag f.flags needs_full_env else f.flags;
  dead_call_reached =
      if is_dead_call r then (f.dead_call_reached + 1) % 2 ^ 32 else f.dead_call_reached;
}

-- clearDisabledAssumptions; `level` is the environment variable PIR_GLOBAL_SPECIALIZATION_LEVEL.
unfoldable pub clear_disabled_assumptions : ℕ → Function → Context → Context
clear_disabled_assumptions level f given =
    let c1 =
      if has_flag f.flags disable_argument_type_specialization
      then clear_type_flags given
      else given in
    let c2 = if has_flag f.flags disable_num_arguments_specialization then clear_nargs c1 else c1 in
    let c3 =
      if has_flag f.flags disable_all_specialization then clear_except c2 minimal_context else c2 in
    if ltb level 100 then set_specialization_level c3 level else c3
