-- ===== src/Range.antt =====
-- rir/src/compiler/analysis/range.h and range.cpp: integer ranges of values. An int is held as its
-- distance from INT_MIN, so that the order of ints is that of ℕ and the int 0 is 2^31.
pub mod Cover
pub mod Transfer
pub mod Branch
pub mod State
pub mod Sound
use rir.Prelude.{
  ℕ, zero, suc, ◌+◌, ◌-◌, ◌*◌, ◌^◌, ◌%◌, Bool, true, false, not, ◌&&◌, ◌||◌, Option, none, some,
  List, [], ◌∷◌, ◌++◌, ltb, leb, ◌==◌, if◌then◌else◌,
}
use rir.Prelude.Eq.{nat_eq}
use rir.SmallMap.{scan, set_value}
use rir.SmallMap.Scan.{assoc}

abbrev pub int_min : ℕ
int_min = 0

abbrev pub int_zero : ℕ
int_zero = 2 ^ 31

abbrev pub int_max : ℕ
int_max = 2 ^ 32 - 1

pub record Range : Type 0 where
  pub begin : ℕ
  pub end : ℕ

abbrev pub max_range : Range
max_range = record { begin = int_min; end = int_max }

abbrev pub neg_range : Range
neg_range = record { begin = int_min; end = int_zero - 1 }

abbrev pub above0_range : Range
above0_range = record { begin = int_zero + 1; end = int_max }

abbrev pub pos_range : Range
pos_range = record { begin = int_zero; end = int_max }

abbrev pub zero_range : Range
zero_range = record { begin = int_zero; end = int_zero }

abbrev pub one_range : Range
one_range = record { begin = int_zero + 1; end = int_zero + 1 }

-- operator==
unfoldable pub same_range : Range → Range → Bool
same_range r s = (r.begin == s.begin) && (r.end == s.end)

unfoldable pub covers : Range → ℕ → ℕ → Bool
covers r a b = leb r.begin a && leb b r.end

-- The loops of Range::get and merge: the first range of a list that covers what is asked.
unfoldable pub first_cover : List Range → ℕ → ℕ → Range
first_cover [] a b = max_range
first_cover (r ∷ rs) a b = let rest = first_cover rs a b in if covers r a b then r else rest

-- Range::get(int, int)
unfoldable pub get : ℕ → ℕ → Range
get a b = first_cover (zero_range ∷ one_range ∷ neg_range ∷ above0_range ∷ pos_range ∷ []) a b

unfoldable pub first_common : List Range → Range → Range → Range
first_common [] r s = max_range
first_common (t ∷ ts) r s =
    let rest = first_common ts r s in
    if leb t.begin r.begin && leb t.begin s.begin && leb r.end t.end && leb s.end t.end
    then t
    else rest

-- Range::merge
unfoldable pub merge : Range → Range → Range
merge r other =
    if same_range r max_range
    then max_range
    else if covers other r.begin r.end
    then other
    else if covers r other.begin other.end
    then r
    else first_common (neg_range ∷ above0_range ∷ pos_range ∷ []) r other

-- RangeAnalysisState: the ranges by value, and the phis seen.
pub record RangeAnalysisState : Type 0 where
  pub range : List (ℕ × Range)
  pub seen : List ℕ

-- range[v] = r, of a value that is there or not
unfoldable pub assign : List (ℕ × Range) → ℕ → Range → List (ℕ × Range)
assign es v r = elim (scan es v) [ some i ↦ set_value es i r | none ↦ es ++ (v, r) ∷ [] ]

-- The loop of RangeAnalysisState::merge over the other ranges, with what `res` has become.
unfoldable pub merge_loop : List (ℕ × Range) → List (ℕ × Range) → Bool → Bool × List (ℕ × Range)
merge_loop [] mine updated = (updated, mine)
merge_loop ((v, their) ∷ other) mine updated = elim (assoc mine v) [
  | none ↦ merge_loop other (mine ++ (v, their) ∷ []) true
  | some r ↦
      let merged = merge r their in
      if same_range r merged
      then merge_loop other mine updated
      else merge_loop other (assign mine v merged) true
]

unfoldable pub member : List ℕ → ℕ → Bool
member [] p = false
member (q ∷ qs) p = (q == p) || member qs p

unfoldable pub subset : List ℕ → List ℕ → Bool
subset [] qs = true
subset (p ∷ ps) qs = member qs p && subset ps qs

-- seen.insert of each phi
unfoldable pub insert_all : List ℕ → List ℕ → List ℕ
insert_all [] qs = qs
insert_all (p ∷ ps) qs = let rest = insert_all ps qs in if member qs p then rest else p ∷ rest

-- RangeAnalysisState::merge: whether it is an update, and the state after it
unfoldable pub merge_state : RangeAnalysisState → RangeAnalysisState → Bool × RangeAnalysisState
merge_state other mine =
    let (updated, range) = merge_loop other.range mine.range false in
    let alike = subset mine.seen other.seen && subset other.seen mine.seen in
    (
      updated || not alike,
      record { range = range; seen = if alike then mine.seen else insert_all other.seen mine.seen },
    )

-- The int operators of `apply`; an overflow wraps, as on every target, though C++ leaves it undefined.
unfoldable pub add_int : ℕ → ℕ → ℕ
add_int a b = (a + b + 2 ^ 31) % 2 ^ 32

unfoldable pub sub_int : ℕ → ℕ → ℕ
sub_int a b = (a + 2 ^ 31 + 2 ^ 32 - b) % 2 ^ 32

unfoldable pub mul_int : ℕ → ℕ → ℕ
mul_int a b = ((a + 2 ^ 31) * (b + 2 ^ 31) + 2 ^ 31) % 2 ^ 32

-- The range that `binop` gives a result.
unfoldable pub binop_range : (ℕ → ℕ → ℕ) → Range → Range → Range
binop_range op a b =
    let lower =
      if (a.begin == int_min) || (b.begin == int_min) then int_min else op a.begin b.begin in
    let upper = if (a.end == int_max) || (b.begin == int_max) then int_max else op a.end b.end in
    get lower upper

unfoldable pub max_int : ℕ → ℕ → ℕ
max_int a b = if ltb a b then b else a

unfoldable pub min_int : ℕ → ℕ → ℕ
min_int a b = if ltb b a then b else a

-- The tag of a comparison.
pub data Comparison : Type 0 where
  lte lt gte gt : Comparison

abbrev pub is_lt : Comparison → Bool
is_lt lt = true
is_lt _ = false

abbrev pub is_lte : Comparison → Bool
is_lte lte = true
is_lte _ = false

abbrev pub is_gt : Comparison → Bool
is_gt gt = true
is_gt _ = false

abbrev pub is_gte : Comparison → Bool
is_gte gte = true
is_gte _ = false

-- The functions that applyEntry gives applyCond for the left and the right operand.
unfoldable pub lower_lhs : Comparison → ℕ → ℕ → ℕ → ℕ → Range
lower_lhs t a b c d =
    let bound = if is_lt t && (c == d) then d - 1 else d in get (min_int a bound) (min_int b bound)

unfoldable pub lower_rhs : Comparison → ℕ → ℕ → ℕ → ℕ → Range
lower_rhs t a b c d =
    let bound = if is_lte t && (a == b) then a + 1 else a in get (max_int bound c) (max_int bound d)

unfoldable pub upper_lhs : Comparison → ℕ → ℕ → ℕ → ℕ → Range
upper_lhs t a b c d =
    let bound = if is_gt t && (c == d) then c + 1 else c in get (max_int a bound) (max_int b bound)

unfoldable pub upper_rhs : Comparison → ℕ → ℕ → ℕ → ℕ → Range
upper_rhs t a b c d =
    let bound = if is_gte t && (c == d) then b - 1 else b in get (min_int bound c) (min_int bound d)

unfoldable pub lhs_range : Comparison → ℕ → ℕ → ℕ → ℕ → Range
lhs_range lte = lower_lhs lte
lhs_range lt = lower_lhs lt
lhs_range gte = upper_lhs gte
lhs_range gt = upper_lhs gt

unfoldable pub rhs_range : Comparison → ℕ → ℕ → ℕ → ℕ → Range
rhs_range lte = lower_rhs lte
rhs_range lt = lower_rhs lt
rhs_range gte = upper_rhs gte
rhs_range gt = upper_rhs gt
