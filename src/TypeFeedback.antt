-- ===== src/TypeFeedback.antt =====
-- rir/src/runtime/TypeFeedback.h and TypeFeedback.cpp, with the extra pool of rir/src/runtime/Code.cpp:
-- what the record_ instructions note of the values, callees and tests at a program point.
pub mod Slots
pub mod Values
pub mod Callees
pub mod Deopt
use rir.Prelude.{
  ℕ, zero, suc, ◌+◌, ◌-◌, ◌*◌, ◌^◌, ◌%◌, Bool, true, false, not, ◌&&◌, ◌||◌, Option, none, some,
  List, [], ◌∷◌, ◌++◌, ltb, ◌==◌, if◌then◌else◌, length, get_elem?, set,
}
use rir.Prelude.Eq.{Eq}
use rir.Function.{Function, Reason, register_deopt_reason}
use rir.Function.Reason.{
  unknown, typecheck, dead_call, call_target, force_and_call, env_stub_materialized,
  dead_branch_reached,
}

-- What the code asks R about a value, and the values it compares with.
pub record Api {ℓ} (S : Type ℓ) : Type ℓ where
  pub type_of : S → ℕ
  pub xlength : S → ℕ
  pub is_object : S → Bool
  pub attrib : S → S
  pub tag : S → S
  pub cdr : S → S
  pub prvalue : S → S
  pub nil : S
  pub dim_symbol : S
  pub true_value : S
  pub false_value : S
  pub unbound_value : S
  pub unknown_deopt_trigger : S
  pub promsxp : ℕ

-- ObservedTest::seen
pub data Seen : Type 0 where
  unseen : Seen
  only_true : Seen
  only_false : Seen
  both : Seen

pub data StateBeforeLastForce : Type 0 where
  unknown_state : StateBeforeLastForce
  value : StateBeforeLastForce
  evaluated_promise : StateBeforeLastForce
  promise : StateBeforeLastForce

-- The number that C++ compares.
abbrev pub rank : StateBeforeLastForce → ℕ
rank unknown_state = 0
rank value = 1
rank evaluated_promise = 2
rank promise = 3

abbrev pub max_types : ℕ
max_types = 3

abbrev pub max_targets : ℕ
max_targets = 3

abbrev pub counter_overflow : ℕ
counter_overflow = 2 ^ 29 - 1

pub record ObservedValues : Type 0 where
  pub num_types : ℕ
  pub state_before_last_force : StateBeforeLastForce
  pub not_scalar : Bool
  pub attribs : Bool
  pub object : Bool
  pub not_fast_vecelt : Bool
  pub seen : List ℕ

pub record ObservedCallees : Type 0 where
  pub num_targets : ℕ
  pub taken : ℕ
  pub invalid : Bool
  pub targets : List ℕ

-- A reset record, all zero.
abbrev pub fresh_values : ObservedValues
fresh_values = record {
  num_types = 0;
  state_before_last_force = unknown_state;
  not_scalar = false;
  attribs = false;
  object = false;
  not_fast_vecelt = false;
  seen = 0 ∷ 0 ∷ 0 ∷ [];
}

-- The extra pool: the cells of the R vector, and how many of them are in use.
pub record ExtraPool {ℓ} (S : Type ℓ) : Type ℓ where
  pub cells : List S
  pub size : ℕ

-- The loop `for (; i < n; ++i) if (p(xs[i])) break`, as the index at its end.
unfoldable pub slot {ℓ} : {A : Type ℓ} → ℕ → (A → Bool) → List A → ℕ
slot zero p xs = 0
slot (suc n) p [] = suc n
slot (suc n) p (x ∷ xs) = let rest = suc (slot n p xs) in if p x then 0 else rest

-- The last assignment of a record: `if (i == n) xs[n++] = x`, where `n` has two bits.
unfoldable pub note {ℓ} : {A : Type ℓ} → ℕ → ℕ → List A → A → ℕ × List A
note i n xs x = if i == n then ((n + 1) % 4, set xs n x) else (n, xs)

-- `seen` after R_TrueValue
abbrev pub see_true : Seen → Seen
see_true unseen = only_true
see_true only_true = only_true
see_true only_false = both
see_true both = both

-- `seen` after R_FalseValue
abbrev pub see_false : Seen → Seen
see_false unseen = only_false
see_false only_true = both
see_false only_false = only_false
see_false both = both

module _ {ℓ} {S : Type ℓ} ⦃e : Eq S⦄ (r : Api S) where
  unfoldable pub fast_vecelt_ok : S → Bool
  fast_vecelt_ok v =
      not (r.is_object v)
      && (e.beq (r.attrib v) r.nil
          || (e.beq (r.tag (r.attrib v)) r.dim_symbol && e.beq (r.cdr (r.attrib v)) r.nil))

  -- ObservedTest::record, by what was seen
  unfoldable pub record_test : S → Seen → Seen
  record_test v seen =
      if e.beq v r.true_value
      then see_true seen
      else if e.beq v r.false_value
      then see_false seen
      else both

  -- ObservedValues::record; a type is a uint8_t.
  unfoldable pub record_value : S → ObservedValues → ObservedValues
  record_value v o =
      let object = o.object || r.is_object v in
      let type = r.type_of v % 2 ^ 8 in
      let noted = note (slot o.num_types (λ t. t == type) o.seen) o.num_types o.seen type in
      let kept =
        if ltb o.num_types max_types then record o { num_types = noted.0; seen = noted.1 } else o in
      record kept {
        not_scalar = o.not_scalar || not (r.xlength v == 1);
        object = object;
        attribs = o.attribs || object || not (e.beq (r.attrib v) r.nil);
        not_fast_vecelt = o.not_fast_vecelt || not (fast_vecelt_ok v);
      }

  -- The promise case of DeoptReason::record: what is known of the value before its last force.
  unfoldable pub record_force : S → ObservedValues → ObservedValues
  record_force v o =
      if r.type_of v == r.promsxp
      then if e.beq (r.prvalue v) r.unbound_value
          && ltb (rank o.state_before_last_force) (rank promise)
        then record o { state_before_last_force = promise }
        else if ltb (rank o.state_before_last_force) (rank evaluated_promise)
        then record o { state_before_last_force = evaluated_promise }
        else o
      else o

  -- getExtraPoolEntry; an index out of bounds is a failed assertion.
  unfoldable pub get_entry : ExtraPool S → ℕ → Option S
  get_entry p i = if ltb i p.size then get_elem? p.cells i else none

  abbrev pub replicate : ℕ → S → List S
  replicate zero v = []
  replicate (suc n) v = v ∷ replicate n v

  -- The new vector of addExtraPoolEntry when the old one is full.
  unfoldable pub grown : ExtraPool S → List S
  grown p =
      let len = length p.cells in
      let capacity = if len == 0 then 2 else (len * 2) % 2 ^ 32 in
      if len == p.size then p.cells ++ replicate (capacity - len) r.nil else p.cells

  unfoldable pub add_entry : ExtraPool S → S → ℕ × ExtraPool S
  add_entry p v =
      (p.size, record p { cells = set (grown p) p.size v; size = (p.size + 1) % 2 ^ 32 })

  -- The comparison of a noted target with the callee.
  unfoldable pub is_target : ExtraPool S → S → ℕ → Bool
  is_target p callee i = elim (get_entry p i) [ none ↦ false | some v ↦ e.beq v callee ]

  -- ObservedCallees::record on the caller's pool
  unfoldable pub record_callee :
      S → Bool → ExtraPool S → ObservedCallees → ExtraPool S × ObservedCallees
  record_callee callee invalidate p o =
      let taken = if ltb o.taken counter_overflow then o.taken + 1 else o.taken in
      let i = slot o.num_targets (is_target p callee) o.targets in
      let (idx, q) = add_entry p callee in
      let noted = note i o.num_targets o.targets idx in
      if ltb o.num_targets max_targets
      then (
        (if i == o.num_targets then q else p),
        record o { taken = taken; num_targets = noted.0; targets = noted.1 },
      )
      else (p, record o { taken = taken; invalid = o.invalid || invalidate })

-- The operand of the record_ instruction at the origin of a deoptimization.
pub data Feedback : Type 0 where
  test : Seen → Feedback
  values : ObservedValues → Feedback
  callees : ObservedCallees → Feedback

-- The baseline version of the origin's code with its extra pool, and the operand.
pub record Origin {ℓ} (S : Type ℓ) : Type ℓ where
  pub function : Function
  pub pool : ExtraPool S
  pub feedback : Feedback

module _ {ℓ} {S : Type ℓ} ⦃e : Eq S⦄ (r : Api S) where
  -- The cases of DeoptReason::record; an instruction of another kind is a failed assertion.
  unfoldable pub record_test_deopt : Origin S → Option (Origin S)
  record_test_deopt o = elim o.feedback [
    | test seen ↦ some (record o { feedback = test both })
    | values _ ↦ none
    | callees _ ↦ none
  ]

  unfoldable pub record_type_deopt : S → Origin S → Option (Origin S)
  record_type_deopt v o = elim o.feedback [
    | test _ ↦ none
    | values seen ↦ some (
        if e.beq v r.unknown_deopt_trigger
        then o
        else record o { feedback = values (record_force r v (record_value r v seen)) })
    | callees _ ↦ none
  ]

  unfoldable pub record_call_deopt : S → Origin S → Option (Origin S)
  record_call_deopt v o = elim o.feedback [
    | test _ ↦ none
    | values _ ↦ none
    | callees seen ↦ some (
        if e.beq v r.unknown_deopt_trigger
        then o
        else let (q, noted) = record_callee r v true o.pool seen in
          record o { pool = q; feedback = callees noted })
  ]

  -- DeoptReason::record
  unfoldable pub record_deopt : Reason → S → Origin S → Option (Origin S)
  record_deopt reason v given =
      let o = record given { function = register_deopt_reason reason given.function } in
      elim reason [
        | unknown ↦ some o
        | typecheck ↦ record_type_deopt v o
        | dead_call ↦ record_call_deopt v o
        | call_target ↦ record_call_deopt v o
        | force_and_call ↦ record_call_deopt v o
        | env_stub_materialized ↦ some o
        | dead_branch_reached ↦ record_test_deopt o
      ]
