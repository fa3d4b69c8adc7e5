-- ===== src/Function/Counters.antt =====
-- The invocation counter and the execution time of a version.
use rir.Prelude.{ℕ, ◌+◌, ◌-◌, ◌≤◌, ◌<◌, ◌^◌, ◌≡◌, refl, arith}
use rir.Function.{
  Function, uint_max, max_time_measure, register_invocation, unregister_invocation,
  register_end_invocation,
}

-- Each invocation is counted, up to the limit of the counter, and taking one back restores it
-- below that limit.
pub invocation_count_lem :
    (f : Function) (now : ℕ)
    → f.invocation_count ≤ uint_max
    → ((register_invocation now f).invocation_count ≤ uint_max)
      × (f.invocation_count ≤ (register_invocation now f).invocation_count)
      × (f.invocation_count < uint_max
          → (unregister_invocation (register_invocation now f)).invocation_count
            ≡ f.invocation_count)
      × ((unregister_invocation (register_invocation now f)).invoked ≡ 0)
unfolding register_invocation unregister_invocation
invocation_count_lem f now h = (ground arith, ground arith, λ p. ground arith, refl)

-- An outermost invocation from `now` to `later` adds the time between the two to the execution
-- time, if the measured time is not yet at its limit and the sum fits its word.
pub measured_time :
    (f : Function) (now later : ℕ)
    → f.invoked ≡ 0
    → f.exec_time < max_time_measure
    → 0 < now
    → now ≤ later
    → later < 2 ^ 63
    → ((register_end_invocation later (register_invocation now f)).exec_time
        ≡ f.exec_time + (later - now))
      × ((register_end_invocation later (register_invocation now f)).invoked ≡ 0)
unfolding register_invocation register_end_invocation
measured_time f now later z lim pos ord fits = (ground arith, ground arith)

-- A recursive invocation adds a constant and leaves the start of the outermost one alone.
pub recursive_time :
    (f : Function) (now : ℕ)
    → 0 < f.invoked
    → f.exec_time < max_time_measure
    → ((register_invocation now f).exec_time ≡ f.exec_time + 500_000)
      × ((register_invocation now f).invoked ≡ f.invoked)
unfolding register_invocation
recursive_time f now pos lim = (ground arith, ground arith)
