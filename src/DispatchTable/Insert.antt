-- ===== src/DispatchTable/Insert.antt =====
-- `DispatchTable::insert`: the place that the loop finds, and the table with the new version.
use rir.Prelude.{
  ℕ, zero, suc, ◌+◌, ◌-◌, ◌≤◌, ◌<◌, ◌≡◌, inl, inr, refl, ap, true, false, not, some, List, arith,
  dec_lt, if◌then◌else◌, Bool-cases, length, get_elem?, set,
}
use rir.Prelude.Arrays.{insert_at, get_elem?-some, get_elem?-lt}
use rir.Context.{Context, less, equal}
use rir.Context.Smaller.{equal_iff}
use rir.Context.Order.{IsDispatchable}
use rir.Function.{Function, add_deopt_count}
use rir.DispatchTable.{DispatchTable, size, Place, replace, behind, fault, find_place, insert}
use rir.DispatchTable.Sorted.{At, IsSorted, IsTable, FitsAt, less_trans, less_cases}

module _ (es : List Function) (s : IsSorted es) (c : Context) (v : IsDispatchable c) where
  -- What the loop of `insert` knows after it has looked at the entries from `top` down.
  abbrev pub IsPlace : ℕ → Place → Type 0
  IsPlace top (replace k old) = (1 ≤ k) × (k ≤ top) × At es k old × (old.context ≡ c)
  IsPlace top (behind k) =
      (k ≤ top)
      × ((j : ℕ) (e : Function) → k < j → j ≤ top → At es j e → less c e.context ≡ true)
      × ((j : ℕ) (e : Function) → 1 ≤ j → j ≤ k → At es j e → less e.context c ≡ true)
  IsPlace top fault = ⊥

  widen :
      (i : ℕ) (old : Function) (p : Place)
      → At es (suc i) old
      → less c old.context ≡ true
      → IsPlace i p
      → IsPlace (suc i) p
  widen i old (replace k d) a l h = (h.0, omega (arith, h.1), h.2, h.3)
  widen i old (behind k) a l h = (omega (arith, h.0), λ j e p q b. above j e p q b (h.1 j e p), h.2)
    where
      above :
          (j : ℕ) (e : Function)
          → k < j
          → j ≤ suc i
          → At es j e
          → (j ≤ i → At es j e → less c e.context ≡ true)
          → less c e.context ≡ true
      above j e p q b below = elim (dec_lt i j) [
        | yes r ↦ ground (arith, ap (get_elem? es) {x = j} {y = suc i} (omega arith))
        | no r ↦ below (omega arith) b
      ]
  widen i old fault a l h = absurd h

  found_here :
      (i : ℕ) (old : Function)
      → At es (suc i) old
      → equal old.context c ≡ false
      → less c old.context ≡ false
      → IsPlace (suc i) (behind (suc i))
  found_here i old a ne l =
      (omega arith, λ j e p q b. absurd (omega arith), λ j e p q b. below j e p q b)
    where
      greater : less old.context c ≡ true
      greater = ground (
        arith,
        less_cases old.context c (s.versions (suc i) old (omega arith) a) v,
        (equal_iff old.context c).1,
      )

      below : (j : ℕ) (e : Function) → 1 ≤ j → j ≤ suc i → At es j e → less e.context c ≡ true
      below j e p q b = elim (dec_lt j (suc i)) [
        | yes r ↦
            less_trans e.context old.context c (s.versions j e p b)
              (s.versions (suc i) old (omega arith) a) v (s.ordered j (suc i) e old p r b a) greater
        | no r ↦ ground (arith, greater, ap (get_elem? es) {x = j} {y = suc i} (omega arith))
      ]

  find_place-suc :
      (i : ℕ) (old : Function)
      → At es (suc i) old
      → find_place es c (suc i) ≡ (
          if equal old.context c
          then replace (suc i) old
          else if not (less c old.context)
          then behind (suc i)
          else find_place es c i)
  unfolding find_place
  find_place-suc i old a = rw (a, find_place)

  -- The loop finds the entry with the context, or the place that keeps the table sorted.
  find_place-IsPlace : (i : ℕ) → i < length es → IsPlace i (find_place es c i)
  find_place-IsPlace zero h =
      unfold find_place in
      (omega arith, λ j e p q b. absurd (omega arith), λ j e p q b. absurd (omega arith))
  find_place-IsPlace (suc i) h =
      let (old, a) = get_elem?-some es (suc i) h in
      rw (find_place-suc i old a) (elim (Bool-cases (equal old.context c)) [
        | inl same ↦ rw same (omega arith, omega arith, a, (equal_iff old.context c).0 same)
        | inr ne ↦ elim (Bool-cases (less c old.context)) [
          | inl l ↦
              rw (ne, l) (widen i old (find_place es c i) a l (find_place-IsPlace i (omega arith)))
          | inr l ↦ rw (ne, l) (found_here i old a ne l)
        ]
      ])

-- Either a version with the same context is replaced, and hands its deopt count on, or the new
-- version is shifted in at the one place where the table stays sorted.
pub data Inserted (f : Function) (t u : DispatchTable) : Type 0 where
  replaced :
      (k : ℕ) (old : Function)
      → 1 ≤ k
      → At t.entries k old
      → old.context ≡ f.context
      → u ≡ record t { entries = set t.entries k (add_deopt_count f old.deopt_count) }
      → Inserted f t u
  shifted :
      (k : ℕ)
      → FitsAt t.entries k f
      → u ≡ record t { entries = insert_at k f t.entries }
      → Inserted f t u

pub IsPlace-FitsAt :
    (es : List Function) (s : IsSorted es) (f : Function) (v : IsDispatchable f.context) (top k : ℕ)
    → top + 1 ≡ length es
    → IsPlace es s f.context v top (behind k)
    → FitsAt es (suc k) f
IsPlace-FitsAt es s f v top k e h = record {
  positive = omega arith;
  in_range = omega (arith, h.0);
  before = λ j d p q a. h.2 j d p (omega arith) a;
  after = λ j d p a. h.1 j d (omega arith) (omega (arith, get_elem?-lt es j d a)) a;
}

module _ (f : Function) (v : IsDispatchable f.context) (t : DispatchTable) (i : IsTable t) where
  -- The loop starts at the last entry.
  pub place :
      IsPlace t.entries i.sorted f.context v
        (size t - 1)
        (find_place t.entries f.context (size t - 1))
  place =
      find_place-IsPlace t.entries i.sorted f.context v (size t - 1) (omega (arith, i.has_baseline))

  pub step_replaced :
      (fuel : ℕ) (r : ℕ → ℕ) (k : ℕ) (old : Function)
      → find_place t.entries f.context (size t - 1) ≡ replace k old
      → insert (suc fuel) r f t
        ≡ some (record t { entries = set t.entries k (add_deopt_count f old.deopt_count) })
  unfolding insert
  step_replaced fuel r k old e = rw (e, insert)

  step_shifted :
      (fuel : ℕ) (r : ℕ → ℕ) (k : ℕ)
      → find_place t.entries f.context (size t - 1) ≡ behind k
      → size t < t.capacity
      → insert (suc fuel) r f t ≡ some (record t { entries = insert_at (suc k) f t.entries })
  unfolding insert
  step_shifted fuel r k e h = rw (e, insert) (ground arith)

  -- A table with room takes the version at once.
  pub insert_room :
      (fuel : ℕ) (r : ℕ → ℕ)
      → size t < t.capacity
      → (u : DispatchTable) × (insert (suc fuel) r f t ≡ some u) × Inserted f t u
  insert_room fuel r h = go (find_place t.entries f.context (size t - 1)) place refl
    where
      go :
          (p : Place)
          → IsPlace t.entries i.sorted f.context v (size t - 1) p
          → find_place t.entries f.context (size t - 1) ≡ p
          → (u : DispatchTable) × (insert (suc fuel) r f t ≡ some u) × Inserted f t u
      go (replace k old) q e = (_, step_replaced fuel r k old e, replaced k old q.0 q.2 q.3 refl)
      go (behind k) q e = (
        _,
        step_shifted fuel r k e h,
        shifted (suc k)
            (IsPlace-FitsAt t.entries i.sorted f v (size t - 1) k (omega (arith, i.has_baseline)) q)
            refl,
      )
      go fault q e = absurd q
