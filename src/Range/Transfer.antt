-- ===== src/Range/Transfer.antt =====
-- RangeAnalysis of rir/src/compiler/analysis/range.h: the ranges after an instruction and on entry
-- to a branch. The range of a simple scalar constant, floor and ceiling for a real one, is the
-- parameter `constant`; `none` is a value that is not such a constant.
use rir.Prelude.{
  ℕ, Bool, true, false, not, ◌||◌, Option, none, some, List, [], ◌∷◌, ◌++◌, if◌then◌else◌,
}
use rir.Prelude.Eq.{nat_eq}
use rir.SmallMap.Scan.{assoc, or_else}
use rir.Range.{
  Range, max_range, same_range, merge, RangeAnalysisState, assign, member, binop_range, Comparison,
  lhs_range, rhs_range,
}

-- An instruction as the analysis looks at it, with its operands.
pub data Instruction : Type 0 where
  arithmetic : (ℕ → ℕ → ℕ) → Bool → ℕ → ℕ → Instruction
  phi : List ℕ → Instruction
  other : Instruction

-- The operand of a CheckTrueFalse that is an instruction; `negation_opaque` is the Not of another value.
pub data Condition : Type 0 where
  compare : Comparison → Bool → ℕ → ℕ → Condition
  negation : Condition → Condition
  negation_opaque : Condition
  opaque : Condition

-- The block that is entered, by the guards of applyEntry.
pub record Entry : Type 0 where
  pub single_pred : Bool
  pub pred_empty : Bool
  pub ends_in_branch : Bool
  pub checks_true_false : Bool
  pub true_branch : Bool
  pub condition : Option Condition

-- `!=` of two ranges
abbrev pub differ : Range → Range → Bool
differ r s = not (same_range r s)

abbrev pub or_max : Option Range → Range
or_max none = max_range
or_max (some r) = r

module _ (constant : ℕ → Option Range) where
  -- getRange, where a pair with `false` is `none`
  unfoldable pub get_range : RangeAnalysisState → ℕ → Option Range
  get_range s v = or_else (assoc s.range v) (constant v)

  -- The assignment at the end of applyCond: whether it is an update, and the state.
  unfoldable pub narrow : Range → ℕ → Range → Bool × RangeAnalysisState → Bool × RangeAnalysisState
  narrow cur v new (updated, s) =
      if differ cur new then (true, record s { range = assign s.range v new }) else (updated, s)

  unfoldable pub apply_cond :
      Comparison → Bool → ℕ → ℕ → Bool → RangeAnalysisState → Bool × RangeAnalysisState
  apply_cond t executes_code l r holds s =
      let lhs = if holds then l else r in
      let rhs = if holds then r else l in
      let a = or_max (get_range s lhs) in
      let b = or_max (get_range s rhs) in
      if executes_code
      then (false, s)
      else narrow b rhs (rhs_range t a.begin a.end b.begin b.end)
          (narrow a lhs (lhs_range t a.begin a.end b.begin b.end) (false, s))

  unfoldable pub apply_test : Condition → Bool → RangeAnalysisState → Bool × RangeAnalysisState
  apply_test (compare t executes_code l r) holds s = apply_cond t executes_code l r holds s
  apply_test (negation c) holds s = (false, s)
  apply_test negation_opaque holds s = (false, s)
  apply_test opaque holds s = (false, s)

  unfoldable pub apply_condition :
      Option Condition → Bool → RangeAnalysisState → Bool × RangeAnalysisState
  apply_condition none holds s = (false, s)
  apply_condition (some negation_opaque) holds s = (false, s)
  apply_condition (some (negation c)) holds s = apply_test c (not holds) s
  apply_condition (some opaque) holds s = (false, s)
  apply_condition (some (compare t x l r)) holds s = apply_test (compare t x l r) holds s

  -- applyEntry
  unfoldable pub apply_entry : Entry → RangeAnalysisState → Bool × RangeAnalysisState
  apply_entry b s =
      if not b.single_pred || b.pred_empty || not b.ends_in_branch || not b.checks_true_false
      then (false, s)
      else apply_condition b.condition b.true_branch s

  -- binop for the instruction `i`
  unfoldable pub apply_binop :
      (ℕ → ℕ → ℕ) → Bool → ℕ → ℕ → ℕ → RangeAnalysisState → Bool × RangeAnalysisState
  apply_binop op executes_code i l r s =
      if executes_code then (false, s) else elim (get_range s l) [
        | none ↦ (false, s)
        | some a ↦ elim (get_range s r) [
          | none ↦ (false, s)
          | some b ↦
              let up = binop_range op a b in
              elim (assoc s.range i) [
                | none ↦ (true, record s { range = s.range ++ (i, up) ∷ [] })
                | some cur ↦
                    if differ cur up
                    then (true, record s { range = assign s.range i up })
                    else (false, s)
              ]
        ]
      ]

  -- emplace, which leaves a range that is there alone
  unfoldable pub emplace : List (ℕ × Range) → ℕ → Range → List (ℕ × Range)
  emplace es v r = elim (assoc es v) [ some _ ↦ es | none ↦ es ++ (v, r) ∷ [] ]

  -- The loop over the arguments of the phi `p`: the state, and the merged range.
  unfoldable pub phi_loop :
      ℕ → List ℕ → Bool → Range → RangeAnalysisState → RangeAnalysisState × Range
  phi_loop p [] first m s = (s, m)
  phi_loop p (v ∷ vs) first m s = elim (get_range s v) [
    | some r ↦ phi_loop p vs false (if first then r else merge m r) s
    | none ↦
        if member s.seen p
        then phi_loop p vs false max_range (record s { range = emplace s.range v max_range })
        else phi_loop p vs false m s
  ]

  unfoldable pub apply_phi : ℕ → List ℕ → RangeAnalysisState → Bool × RangeAnalysisState
  apply_phi p vs s0 =
      let (s, m) = phi_loop p vs true max_range s0 in
      if member s.seen p
      then (false, record s { range = assign s.range p m })
      else (true, record { range = emplace s.range p m; seen = p ∷ s.seen })

  -- apply
  unfoldable pub apply : Instruction → ℕ → RangeAnalysisState → Bool × RangeAnalysisState
  apply (arithmetic op executes_code l r) i s = apply_binop op executes_code i l r s
  apply (phi vs) i s = apply_phi i vs s
  apply other i s = (false, s)
