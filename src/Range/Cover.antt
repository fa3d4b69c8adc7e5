-- ===== src/Range/Cover.antt =====
-- Range::get and merge as the lattice of the six ranges, and the narrowing on a branch.
use rir.Prelude.{
  ℕ, ◌≤◌, ◌≡◌, refl, inl, inr, Bool, true, false, not, ◌&&◌, ◌||◌, List, [], ◌∷◌, leb,
  if◌then◌else◌, arith, Bool-cases,
}
use rir.Range.{
  Range, int_max, max_range, neg_range, above0_range, pos_range, zero_range, one_range, same_range,
  covers, first_cover, get, first_common, merge,
}

-- The ints between two bounds lie in a range.
abbrev pub IsWithin : ℕ → ℕ → Range → Type 0
IsWithin a b r = (r.begin ≤ a) × (b ≤ r.end)

IsWithin-max : (a b : ℕ) → b ≤ int_max → IsWithin a b max_range
IsWithin-max a b h = (omega arith, h)

within : (r : Range) (a b : ℕ) → (leb r.begin a && leb b r.end) ≡ true → IsWithin a b r
within r a b h = ground arith

first_cover-IsWithin : (rs : List Range) (a b : ℕ) → b ≤ int_max → IsWithin a b (first_cover rs a b)
unfolding first_cover covers
first_cover-IsWithin [] a b h = IsWithin-max a b h
first_cover-IsWithin (r ∷ rs) a b h = elim (Bool-cases (leb r.begin a && leb b r.end)) [
  | inl on ↦ rw on (within r a b on)
  | inr off ↦ rw off (first_cover-IsWithin rs a b h)
]

-- The range that Range::get gives holds the bounds that it is given.
pub get-IsWithin : (a b : ℕ) → b ≤ int_max → IsWithin a b (get a b)
unfolding get
get-IsWithin a b h = first_cover-IsWithin _ a b h

-- The six ranges that the analysis works with.
pub data Known : Type 0 where
  zero_known one_known neg_known above0_known pos_known max_known : Known

abbrev pub range_of : Known → Range
range_of zero_known = zero_range
range_of one_known = one_range
range_of neg_known = neg_range
range_of above0_known = above0_range
range_of pos_known = pos_range
range_of max_known = max_range

get_least :
    (k : Known) (a b : ℕ)
    → a ≤ b
    → b ≤ int_max
    → IsWithin a b (range_of k)
    → IsWithin (get a b).begin (get a b).end (range_of k)
unfolding get first_cover covers
get_least zero_known a b o h w = ground arith
get_least one_known a b o h w = ground arith
get_least neg_known a b o h w = ground arith
get_least above0_known a b o h w = ground arith
get_least pos_known a b o h w = ground arith
get_least max_known a b o h w = ground arith

-- One more case of a search.
choose :
    (b : Bool) (k : Known) (r : Range)
    → (l : Known) × (r ≡ range_of l)
    → (m : Known) × ((if b then range_of k else r) ≡ range_of m)
choose true k r (l, e) = (k, refl)
choose false k r (l, e) = (l, e)

pub known_get : (a b : ℕ) → (k : Known) × (get a b ≡ range_of k)
unfolding get first_cover
known_get a b = choose (covers zero_range a b) zero_known _ (
    choose (covers one_range a b) one_known _ (
      choose (covers neg_range a b) neg_known _ (
        choose (covers above0_range a b) above0_known _
          (choose (covers pos_range a b) pos_known _ (max_known, refl)))))

-- Range::get gives one of the six ranges; the bounds are in it, and it is the least such range.
pub get_lem :
    (a b : ℕ)
    → a ≤ b
    → b ≤ int_max
    → (k : Known) × (get a b ≡ range_of k)
      × IsWithin a b (range_of k)
      × ((l : Known)
          → IsWithin a b (range_of l)
          → IsWithin (range_of k).begin (range_of k).end (range_of l))
get_lem a b o h =
    let (k, e) = known_get a b in
    (k, e, rw⁻¹ e (get-IsWithin a b h), λ l w. rw⁻¹ e (get_least l a b o h w))

-- A test of all six ranges.
all : (Known → Bool) → Bool
all p =
    p zero_known
    && (p one_known && (p neg_known && (p above0_known && (p pos_known && p max_known))))

all_lem : (p : Known → Bool) (k : Known) → all p ≡ true → p k ≡ true
unfolding all
all_lem p zero_known h = ground arith
all_lem p one_known h = ground arith
all_lem p neg_known h = ground arith
all_lem p above0_known h = ground arith
all_lem p pos_known h = ground arith
all_lem p max_known h = ground arith

-- One range lies in another.
abbrev inside : Range → Range → Bool
inside r t = leb t.begin r.begin && leb r.end t.end

bounds_test : Known → Known → Bool
bounds_test k l =
    inside (range_of k) (merge (range_of k) (range_of l))
    && inside (range_of l) (merge (range_of k) (range_of l))

bounds_all : all (λ k. all (bounds_test k)) ≡ true
unfolding all bounds_test merge first_common covers same_range
bounds_all = refl

least_test : Known → Known → Known → Bool
least_test k l t =
    not (inside (range_of k) (range_of t) && inside (range_of l) (range_of t))
    || inside (merge (range_of k) (range_of l)) (range_of t)

least_all : all (λ k. all (λ l. all (least_test k l))) ≡ true
unfolding all least_test merge first_common covers same_range
least_all = refl

inside-IsWithin : (r t : Range) → inside r t ≡ true → IsWithin r.begin r.end t
inside-IsWithin r t h = ground arith

IsWithin-inside : (r t : Range) → IsWithin r.begin r.end t → inside r t ≡ true
IsWithin-inside r t w = ground arith

bounds_lem :
    (r t m : Range)
    → (inside r m && inside t m) ≡ true
    → IsWithin r.begin r.end m × IsWithin t.begin t.end m
bounds_lem r t m h = ground arith

implied : (a b c : Bool) → (not (a && b) || c) ≡ true → a ≡ true → b ≡ true → c ≡ true
implied true true c h p q = h
implied true false c h p q = absurd (cc)
implied false b c h p q = absurd (cc)

-- Range::merge of two of the six ranges is their least upper bound: both lie in it, and it lies in
-- each of the six ranges that both lie in.
pub merge_lem :
    (k l : Known)
    → let m = merge (range_of k) (range_of l) in
      IsWithin (range_of k).begin (range_of k).end m
      × IsWithin (range_of l).begin (range_of l).end m
      × ((t : Known)
          → IsWithin (range_of k).begin (range_of k).end (range_of t)
          → IsWithin (range_of l).begin (range_of l).end (range_of t)
          → IsWithin m.begin m.end (range_of t))
unfolding bounds_test least_test
merge_lem k l =
    let m = merge (range_of k) (range_of l) in
    let (lower, upper) =
      bounds_lem (range_of k) (range_of l) m
        (all_lem (bounds_test k) l (all_lem (λ j. all (bounds_test j)) k bounds_all)) in
    (
      lower,
      upper,
      λ t p q. inside-IsWithin m (range_of t) (
          implied _ _ _
            (all_lem (least_test k l) t (
              all_lem (λ j. all (least_test k j)) l
                (all_lem (λ i. all (λ j. all (least_test i j))) k least_all)))
            (IsWithin-inside (range_of k) (range_of t) p)
            (IsWithin-inside (range_of l) (range_of t) q)),
    )
