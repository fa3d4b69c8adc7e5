-- ===== src/Tests/Feedback.antt =====
-- Values, conditions, callees and deoptimizations recorded at a program point.
use rir.Prelude.{
  ℕ, ◌+◌, ◌/◌, ◌<◌, ◌≡◌, refl, arith, true, false, not, ◌||◌, some, [], ◌∷◌, ltb, ◌==◌,
  if◌then◌else◌, map, ◌≤◌, length,
}
use rir.Prelude.Eq.{nat_eq}
use rir.Prelude.Distinct.{any, take, push_new}
use rir.Tests.Versions.{v1}
use rir.Function.Reason.{call_target}
use rir.TypeFeedback.{
  Api, Origin, ExtraPool, ObservedCallees, fresh_values, fast_vecelt_ok, record_deopt,
  record_callee, get_entry, counter_overflow,
}
use rir.TypeFeedback.Feedback.{values, callees}
use rir.TypeFeedback.Values.{
  types, type_byte, distinct_after, record_values, record_values_lem, not_scalar, attributed,
}
use rir.TypeFeedback.Callees.{IsPool, IsObserved, is_callee, noted_callees, record_callee_lem}
use rir.TypeFeedback.Deopt.{call_deopt_lem}

-- A value is a number whose tens are its type.
abbrev sample : Api ℕ
sample = record {
  type_of = λ v. v / 10;
  xlength = λ v. 1;
  is_object = λ v. v == 77;
  attrib = λ v. 0;
  tag = λ v. 0;
  cdr = λ v. 0;
  prvalue = λ v. 4;
  nil = 0;
  dim_symbol = 1;
  true_value = 2;
  false_value = 3;
  unbound_value = 4;
  unknown_deopt_trigger = 5;
  promsxp = 5;
}

record_values_lem_example :
    let p = record_values sample (71 ∷ 77 ∷ 81 ∷ 11 ∷ 91 ∷ []) fresh_values in
    (types p ≡ take 3 (distinct_after [] (map (type_byte sample) (71 ∷ 77 ∷ 81 ∷ 11 ∷ 91 ∷ []))))
    × (p.not_scalar ≡ any (not_scalar sample) (71 ∷ 77 ∷ 81 ∷ 11 ∷ 91 ∷ []))
    × (p.object ≡ any sample.is_object (71 ∷ 77 ∷ 81 ∷ 11 ∷ 91 ∷ []))
    × (p.attribs ≡ any (attributed sample) (71 ∷ 77 ∷ 81 ∷ 11 ∷ 91 ∷ []))
    × (p.not_fast_vecelt ≡ any (λ v. not (fast_vecelt_ok sample v)) (71 ∷ 77 ∷ 81 ∷ 11 ∷ 91 ∷ []))
record_values_lem_example = record_values_lem sample (71 ∷ 77 ∷ 81 ∷ 11 ∷ 91 ∷ [])

abbrev pool : ExtraPool ℕ
pool = record { cells = 40 ∷ 41 ∷ []; size = 2 }

abbrev seen : ObservedCallees
seen = record { num_targets = 1; taken = 6; invalid = false; targets = 1 ∷ 0 ∷ 0 ∷ [] }

pool-IsPool : IsPool pool
pool-IsPool = record { within = omega arith; bounded = omega arith }

seen-IsObserved : IsObserved sample pool seen
seen-IsObserved = record {
  notes = record { room = refl; within = omega arith };
  valid = (omega arith, tt);
}

record_callee_lem_example :
    let (q, after) = record_callee sample 42 false pool seen in
    (noted_callees sample q after ≡ (
      if ltb seen.num_targets 3
      then push_new (is_callee sample 42) (some 42) (noted_callees sample pool seen)
      else noted_callees sample pool seen))
    × (after.taken ≡ (if ltb seen.taken counter_overflow then seen.taken + 1 else seen.taken))
    × (after.invalid ≡ (if ltb seen.num_targets 3 then seen.invalid else seen.invalid || false))
    × ((i : ℕ) → i < pool.size → get_entry sample q i ≡ get_entry sample pool i)
    × IsObserved sample q after
    × (q.size ≤ length q.cells)
record_callee_lem_example = record_callee_lem sample 42 false pool seen pool-IsPool seen-IsObserved

abbrev call_site : Origin ℕ
call_site = record { function = v1; pool = pool; feedback = callees seen }

abbrev type_site : Origin ℕ
type_site = record { function = v1; pool = pool; feedback = values fresh_values }

call_deopt_lem_example :
    (p : Origin ℕ) × (after : ObservedCallees) × (record_deopt sample call_target 42 call_site
      ≡ some p)
    × (p.feedback ≡ callees after)
    × ((any (is_callee sample 42) (noted_callees sample p.pool after) || after.invalid) ≡ true)
    × (0 < after.taken)
call_deopt_lem_example =
    call_deopt_lem sample call_target 42 call_site seen refl refl refl pool-IsPool seen-IsObserved
