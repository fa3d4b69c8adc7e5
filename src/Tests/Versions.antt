-- ===== src/Tests/Versions.antt =====
-- Tests of the versions of a function (rir/src/runtime/Function.h and Function.cpp).
use rir.Prelude.{ℕ, ◌+◌, ◌≡◌, refl, false}
use rir.EnumSet
use rir.Context.{Context}
use rir.Function.{Function, optimized, inherit_flags}
use rir.Tests.Contexts.{plain}

-- An optimized version for a context.
abbrev pub version : ℕ → Context → Function
version n c = record {
  container = n;
  body = n + 100;
  pending_compilation = false;
  optimization = optimized;
  context = c;
  flags = 0;
  num_args = 2;
  invocation_count = 3;
  deopt_count = 0;
  dead_call_reached = 0;
  invoked = 0;
  exec_time = 10;
}

abbrev pub v1 : Function
v1 = version 1 plain

-- A version that is deoptimized and must be inlined.
abbrev deopted : Function
deopted = record v1 { flags = 5 }

inherit_run : (inherit_flags v1 deopted).flags ≡ 4
unfolding inherit_flags EnumSet.contains EnumSet.set
inherit_run = refl

abbrev running : Function
running = record v1 { invoked = 40 }
