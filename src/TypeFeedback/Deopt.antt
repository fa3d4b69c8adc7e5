-- ===== src/TypeFeedback/Deopt.antt =====
-- DeoptReason::record: the profile after a deoptimization no longer supports what was speculated on.
use rir.Prelude.{
  ℕ, ◌+◌, ◌<◌, ◌≡◌, refl, ◌∙◌, inl, inr, Bool, true, false, ◌||◌, some, ltb, ◌==◌, ==_refl,
  if◌then◌else◌, arith, Bool-cases, lt→ltb, ◌&&◌, List,
}
use rir.Prelude.Eq.{Eq, beq_refl}
use rir.Prelude.Distinct.{any, any-push_new}
use rir.Function.{Reason, register_deopt_reason}
use rir.Function.Reason.{
  unknown, typecheck, dead_call, call_target, force_and_call, env_stub_materialized,
  dead_branch_reached,
}
use rir.TypeFeedback.{
  Api, ObservedValues, ObservedCallees, Origin, record_value, record_force, record_callee,
  record_deopt, record_type_deopt, record_call_deopt, rank, counter_overflow,
}
use rir.TypeFeedback.StateBeforeLastForce.{promise, evaluated_promise}
use rir.TypeFeedback.Feedback.{values, callees}
use rir.TypeFeedback.Values.{types, type_byte, noted_types, record_value-types}
use rir.TypeFeedback.Slots.{IsNotes}
use rir.TypeFeedback.Callees.{IsPool, IsObserved, is_callee, noted_callees, record_callee_lem}

abbrev pub is_call : Reason → Bool
is_call dead_call = true
is_call call_target = true
is_call force_and_call = true
is_call _ = false

either :
    (b : Bool) (x y : ObservedValues) (ts : List ℕ)
    → types x ≡ ts
    → types y ≡ ts
    → types (if b then x else y) ≡ ts
either true x y ts h k = h
either false x y ts h k = k

module _ {ℓ} {S : Type ℓ} ⦃e : Eq S⦄ (r : Api S) where
  record_deopt-call :
      (reason : Reason) (v : S) (o : Origin S)
      → is_call reason ≡ true
      → record_deopt r reason v o
        ≡ record_call_deopt r v (record o { function = register_deopt_reason reason o.function })
  unfolding record_deopt
  record_deopt-call dead_call v o h = refl
  record_deopt-call call_target v o h = refl
  record_deopt-call force_and_call v o h = refl
  record_deopt-call unknown v o h = absurd (cc)
  record_deopt-call typecheck v o h = absurd (cc)
  record_deopt-call env_stub_materialized v o h = absurd (cc)
  record_deopt-call dead_branch_reached v o h = absurd (cc)

  -- The callee is among those noted, or the record has become invalid.
  learned :
      (v : S) (o : Origin S) (seen : ObservedCallees)
      → IsPool o.pool
      → IsObserved r o.pool seen
      → let (q, after) = record_callee r v true o.pool seen in
        ((any (is_callee r v) (noted_callees r q after) || after.invalid) ≡ true)
        × (0 < after.taken)
  learned v o seen w x =
      let (noted, taken, invalid, kept, valid, _) = record_callee_lem r v true o.pool seen w x in
      elim (Bool-cases (ltb seen.num_targets 3)) [
        | inl on ↦ (
          rw
              (
                noted,
                on,
                any-push_new (is_callee r v) (some v) (noted_callees r o.pool seen) (beq_refl v),
              )
              refl,
          rw taken (counted seen.taken),
        )
        | inr off ↦ (
          rw (invalid, off)
              (full
                (any (is_callee r v) (
                  noted_callees r (record_callee r v true o.pool seen).0
                    (record_callee r v true o.pool seen).1))
                seen.invalid),
          rw taken (counted seen.taken),
        )
      ]
    where
      counted : (n : ℕ) → 0 < (if ltb n counter_overflow then n + 1 else n)
      counted n = ground arith

      full : (a b : Bool) → (a || (b || true)) ≡ true
      full true b = refl
      full false true = refl
      full false false = refl

  record_call_deopt-some :
      (v : S) (o : Origin S) (seen : ObservedCallees)
      → o.feedback ≡ callees seen
      → e.beq v r.unknown_deopt_trigger ≡ false
      → let (q, after) = record_callee r v true o.pool seen in
        record_call_deopt r v o ≡ some (record o { pool = q; feedback = callees after })
  unfolding record_call_deopt
  record_call_deopt-some v o seen f h = rw (f, h)

  -- A deoptimization at a call, with a well-formed pool of fewer than 2^31 cells, a well-formed record
  -- and a callee that is not the unknown trigger, is recorded: the callee that was met is among those noted afterwards,
  -- or the record is invalid, so that no call target is speculated on; and some call is counted.
  pub call_deopt_lem :
      (reason : Reason) (v : S) (o : Origin S) (seen : ObservedCallees)
      → is_call reason ≡ true
      → o.feedback ≡ callees seen
      → e.beq v r.unknown_deopt_trigger ≡ false
      → IsPool o.pool
      → IsObserved r o.pool seen
      → (p : Origin S) × (after : ObservedCallees) × (record_deopt r reason v o ≡ some p)
        × (p.feedback ≡ callees after)
        × ((any (is_callee r v) (noted_callees r p.pool after) || after.invalid) ≡ true)
        × (0 < after.taken)
  call_deopt_lem reason v o seen c f h w x =
      let (known, counted) = learned v o seen w x in
      let given = record o { function = register_deopt_reason reason o.function } in
      let (q, after) = record_callee r v true o.pool seen in
      (
        record given { pool = q; feedback = callees after },
        after,
        record_deopt-call reason v o c ∙ record_call_deopt-some v given seen f h,
        refl,
        known,
        counted,
      )

  record_type_deopt-some :
      (v : S) (o : Origin S) (seen : ObservedValues)
      → o.feedback ≡ values seen
      → e.beq v r.unknown_deopt_trigger ≡ false
      → record_deopt r typecheck v o
        ≡ some (record o {
          function = register_deopt_reason typecheck o.function;
          feedback = values (record_force r v (record_value r v seen));
        })
  unfolding record_deopt record_type_deopt
  record_type_deopt-some v o seen f h = rw (f, h)

  record_force-types : (v : S) (o : ObservedValues) → types (record_force r v o) ≡ types o
  unfolding record_force
  record_force-types v o =
      either (r.type_of v == r.promsxp) _ _ (types o)
        (either
          (e.beq (r.prvalue v) r.unbound_value
            && ltb (rank o.state_before_last_force) (rank promise))
          _ _ (types o) refl
          (either (ltb (rank o.state_before_last_force) (rank evaluated_promise)) _ _ (types o) refl
            refl))
        refl

  -- A deoptimization at a type check, whose value is not the unknown trigger, is recorded in a
  -- record with fewer than three types: the type of the value is among those noted afterwards.
  pub type_deopt_lem :
      (v : S) (o : Origin S) (seen : ObservedValues)
      → o.feedback ≡ values seen
      → e.beq v r.unknown_deopt_trigger ≡ false
      → IsNotes seen.num_types seen.seen
      → seen.num_types < 3
      → (p : Origin S) × (after : ObservedValues) × (record_deopt r typecheck v o ≡ some p)
        × (p.feedback ≡ values after)
        × (any (λ t. t == type_byte r v) (types after) ≡ true)
  unfolding noted_types
  type_deopt_lem v o seen f h w room = (
    record o {
      function = register_deopt_reason typecheck o.function;
      feedback = values (record_force r v (record_value r v seen));
    },
    record_force r v (record_value r v seen),
    record_type_deopt-some v o seen f h,
    refl,
    rw
        (
          record_force-types v (record_value r v seen),
          record_value-types r v seen w,
          lt→ltb seen.num_types 3 room,
        )
        (any-push_new (λ t. t == type_byte r v) (type_byte r v) (types seen)
          (==_refl (type_byte r v))),
  )
