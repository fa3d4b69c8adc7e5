-- ===== src/Range/State.antt =====
-- RangeAnalysisState::merge: the state where two paths meet.
use rir.Prelude.{
  ℕ, ◌≡◌, refl, ap, ap₂, sym, ◌∙◌, inl, inr, Bool, true, false, not, ◌&&◌, ◌||◌, Option, none, some,
  List, [], ◌∷◌, ◌++◌, ◌==◌, if◌then◌else◌, ==_iff, Bool-cases, Option-cases, arith,
}
use rir.Prelude.Eq.{nat_eq}
use rir.SmallMap.{scan}
use rir.SmallMap.Scan.{Unique, assoc, assoc-hit, assoc-push, assoc-set_value, bind-scan}
use rir.Range.{
  Range, RangeAnalysisState, same_range, merge, assign, merge_loop, merge_state, subset,
}

-- What is known of a value after two paths: the merge of both ranges, or the one there is.
abbrev pub combine : Option Range → Option Range → Option Range
combine none their = their
combine (some r) none = some r
combine (some r) (some s) = some (merge r s)

same_range-eq : (r s : Range) → same_range r s ≡ true → r ≡ s
unfolding same_range
same_range-eq r s h = ap₂ (λ a b. record { begin = a; end = b }) (low r s h) (high r s h)
  where
    low : (r s : Range) → same_range r s ≡ true → r.begin ≡ s.begin
    low r s h = ground arith

    high : (r s : Range) → same_range r s ≡ true → r.end ≡ s.end
    high r s h = ground arith

scan-none : (es : List (ℕ × Range)) (v : ℕ) → assoc es v ≡ none → scan es v ≡ none
scan-none es v h = elim (Option-cases (scan es v)) [
  | inl e ↦ e
  | inr (i, e) ↦ let (r, given) = assoc-hit es v i e in absurd (cc (given, h))
]

assoc-none : (es : List (ℕ × Range)) (v : ℕ) → scan es v ≡ none → assoc es v ≡ none
assoc-none es v h = sym (bind-scan es v) ∙ rw h

pub assign_lem :
    (es : List (ℕ × Range)) (w : ℕ) (m : Range) (v : ℕ)
    → assoc (assign es w m) v ≡ (if w == v then some m else assoc es v)
unfolding assign
assign_lem es w m v = elim (Option-cases (scan es w)) [
  | inl e ↦ rw (e, assign) (assoc-push es w m v e)
  | inr (i, e) ↦ rw (e, assign) (assoc-set_value es i m w v e)
]

combine-none : (o : Option Range) → o ≡ combine o none
combine-none none = refl
combine-none (some r) = refl

-- One entry of the other path, merged into the ranges.
met :
    (mine after other : List (ℕ × Range)) (w : ℕ) (their m : Range) (v : ℕ)
    → assoc after v ≡ (if w == v then some m else assoc mine v)
    → combine (assoc mine w) (some their) ≡ some m
    → assoc other w ≡ none
    → combine (assoc after v) (assoc other v)
      ≡ combine (assoc mine v) (if w == v then some their else assoc other v)
met mine after other w their m v h k n = elim (Bool-cases (w == v)) [
  | inl on ↦
      let same = (==_iff w v).0 on in
      rw (h, on, sym (ap (assoc other) same) ∙ n)
        (sym k ∙ ap (λ x. combine (assoc mine x) (some their)) same)
  | inr off ↦ rw (h, off)
]

unchanged :
    (mine : List (ℕ × Range)) (w : ℕ) (r : Range) (v : ℕ)
    → assoc mine w ≡ some r
    → assoc mine v ≡ (if w == v then some r else assoc mine v)
unchanged mine w r v e = elim (Bool-cases (w == v)) [
  | inl on ↦ rw on (sym (ap (assoc mine) ((==_iff w v).0 on)) ∙ e)
  | inr off ↦ rw off
]

-- Whatever the loop has updated before, it merges the ranges value by value.
merge_loop-lookup :
    (other mine : List (ℕ × Range)) (updated : Bool) (v : ℕ)
    → Unique other
    → assoc (merge_loop other mine updated).1 v ≡ combine (assoc mine v) (assoc other v)
unfolding merge_loop
merge_loop-lookup [] mine updated v u = combine-none (assoc mine v)
merge_loop-lookup ((w, their) ∷ other) mine updated v u = elim (Option-cases (assoc mine w)) [
  | inl e ↦
      rw (e, merge_loop)
        (merge_loop-lookup other (mine ++ (w, their) ∷ []) true v u.1
          ∙ met mine (mine ++ (w, their) ∷ []) other w their their v
              (assoc-push mine w their v (scan-none mine w e)) (rw e refl) (assoc-none other w u.0))
  | inr (r, e) ↦ elim (Bool-cases (same_range r (merge r their))) [
    | inl same ↦
        rw (e, same, merge_loop)
          (merge_loop-lookup other mine updated v u.1
            ∙ met mine mine other w their r v (unchanged mine w r v e)
                (rw e (ap some (sym (same_range-eq r (merge r their) same))))
                (assoc-none other w u.0))
    | inr changed ↦
        rw (e, changed, merge_loop)
          (merge_loop-lookup other (assign mine w (merge r their)) true v u.1
            ∙ met mine (assign mine w (merge r their)) other w their (merge r their) v
                (assign_lem mine w (merge r their) v) (rw e refl) (assoc-none other w u.0))
  ]
]

merge_loop-true : (other mine : List (ℕ × Range)) → (merge_loop other mine true).0 ≡ true
unfolding merge_loop
merge_loop-true [] mine = refl
merge_loop-true ((w, their) ∷ other) mine = elim (Option-cases (assoc mine w)) [
  | inl e ↦ rw (e, merge_loop) (merge_loop-true other (mine ++ (w, their) ∷ []))
  | inr (r, e) ↦ elim (Bool-cases (same_range r (merge r their))) [
    | inl same ↦ rw (e, same, merge_loop) (merge_loop-true other mine)
    | inr changed ↦
        rw (e, changed, merge_loop) (merge_loop-true other (assign mine w (merge r their)))
  ]
]

merge_loop-false :
    (other mine : List (ℕ × Range))
    → (merge_loop other mine false).0 ≡ false
    → (merge_loop other mine false).1 ≡ mine
unfolding merge_loop
merge_loop-false [] mine = λ h. refl
merge_loop-false ((w, their) ∷ other) mine = elim (Option-cases (assoc mine w)) [
  | inl e ↦
      rw (e, merge_loop)
        (λ h. absurd (let moved = merge_loop-true other (mine ++ (w, their) ∷ []) in cc (h, moved)))
  | inr (r, e) ↦ elim (Bool-cases (same_range r (merge r their))) [
    | inl same ↦ rw (e, same, merge_loop) (merge_loop-false other mine)
    | inr changed ↦
        rw (e, changed, merge_loop)
          (λ h.
            absurd
              (let moved = merge_loop-true other (assign mine w (merge r their)) in cc (h, moved)))
  ]
]

-- After the merge of two states, each value has the merge of its two ranges, or the one that is
-- known; the other state lists no value twice.
pub merge_state-lookup :
    (other mine : RangeAnalysisState) (v : ℕ)
    → Unique other.range
    → assoc (merge_state other mine).1.range v ≡ combine (assoc mine.range v) (assoc other.range v)
unfolding merge_state
merge_state-lookup other mine v u = merge_loop-lookup other.range mine.range false v u

-- A merge that reports no update leaves the state as it is.
pub merge_state_stable :
    (other mine : RangeAnalysisState)
    → (merge_state other mine).0 ≡ false
    → (merge_state other mine).1 ≡ mine
unfolding merge_state
merge_state_stable other mine h =
    elim (Bool-cases (subset mine.seen other.seen && subset other.seen mine.seen)) [
      | inl on ↦ rw on (
          ap (λ es. record { range = es; seen = mine.seen })
            (merge_loop-false other.range mine.range (quiet _ _ h)))
      | inr off ↦ absurd (cc (off, settled _ _ h))
    ]
  where
    quiet : (a b : Bool) → (a || not b) ≡ false → a ≡ false
    quiet a b h = ground arith

    settled : (a b : Bool) → (a || not b) ≡ false → b ≡ true
    settled a b h = ground arith
