-- ===== src/DispatchTable/Evict.antt =====
-- `DispatchTable::insert` as a whole: a full table drops a version and takes the new one.
use rir.Prelude.{
  ℕ, suc, ◌+◌, ◌-◌, ◌%◌, ◌≤◌, ◌<◌, ◌≡◌, refl, sym, ◌∙◌, some, arith, dec_lt, get_elem?, set,
  length-set,
}
use native.Mathlib.Nat.{mod-lt}
use rir.Prelude.Arrays.{
  insert_at, remove_at, length-insert_at, length-remove_at, get_elem?-remove_at,
  get_elem?-insert_at, get_elem?-lt, get_elem?-set,
}
use rir.Context.Order.{IsDispatchable}
use rir.Function.{Function, add_deopt_count}
use rir.DispatchTable.{DispatchTable, size, Place, replace, behind, fault, find_place, insert}
use rir.DispatchTable.Sorted.{
  At, IsTable, FitsAt, insert_at-IsSorted, set-IsSorted, remove_at-IsSorted,
}
use rir.DispatchTable.Insert.{
  Inserted, replaced, shifted, insert_room, place, step_replaced, IsPlace,
}

-- Both outcomes keep the invariant, the baseline, the capacity and the user's context; the table
-- has the new version, with some deopt count, behind the baseline.
pub record HasNew (f : Function) (t u : DispatchTable) : Type 0 where
  pub table : IsTable u
  pub capacity : u.capacity ≡ t.capacity
  pub user_context : u.user_context ≡ t.user_context
  pub baseline : get_elem? u.entries 0 ≡ get_elem? t.entries 0
  pub index : ℕ
  pub deopts : ℕ
  pub behind_baseline : 1 ≤ index
  pub present : At u.entries index (record f { deopt_count = deopts })

context-add_deopt_count : (f : Function) (n : ℕ) → (add_deopt_count f n).context ≡ f.context
unfolding add_deopt_count
context-add_deopt_count f n = refl

module _ (f : Function) (t : DispatchTable) (v : IsDispatchable f.context) (i : IsTable t) where
  replaced-HasNew :
      (k : ℕ) (old : Function)
      → 1 ≤ k
      → At t.entries k old
      → old.context ≡ f.context
      → HasNew f t (record t { entries = set t.entries k (add_deopt_count f old.deopt_count) })
  replaced-HasNew k old p a c =
      let g = add_deopt_count f old.deopt_count in
      let inside = get_elem?-lt t.entries k old a in
      record {
        table = record {
          has_baseline = rw length-set i.has_baseline;
          fits = rw length-set i.fits;
          sorted =
              set-IsSorted t.entries i.sorted k old g a
                (context-add_deopt_count f old.deopt_count ∙ sym c);
        };
        capacity = refl;
        user_context = refl;
        baseline = get_elem?-set t.entries k 0 g inside ∙ ground arith;
        index = k;
        deopts = g.deopt_count;
        behind_baseline = p;
        present = get_elem?-set t.entries k k g inside ∙ (unfold add_deopt_count in ground arith);
      }

  shifted-HasNew :
      (k : ℕ)
      → size t < t.capacity
      → FitsAt t.entries k f
      → HasNew f t (record t { entries = insert_at k f t.entries })
  shifted-HasNew k room h = record {
    table = record {
      has_baseline = omega (arith, length-insert_at k f t.entries);
      fits = omega (arith, length-insert_at k f t.entries);
      sorted = insert_at-IsSorted t.entries i.sorted k f v h;
    };
    capacity = refl;
    user_context = refl;
    baseline = ground (arith, get_elem?-insert_at k f t.entries 0 h.in_range, h.positive);
    index = k;
    deopts = f.deopt_count;
    behind_baseline = h.positive;
    present = ground (arith, get_elem?-insert_at k f t.entries k h.in_range);
  }

  Inserted-HasNew : (u : DispatchTable) → size t < t.capacity → Inserted f t u → HasNew f t u
  Inserted-HasNew u room (replaced k old p a c e) = rw e (replaced-HasNew k old p a c)
  Inserted-HasNew u room (shifted k h e) = rw e (shifted-HasNew k room h)

module _ (f : Function) (t : DispatchTable) (v : IsDispatchable f.context) (i : IsTable t) where
  -- The table without the version that a random number picks.
  abbrev evicted : ℕ → DispatchTable
  evicted n = record t { entries = remove_at (1 + n % (size t - 1)) t.entries }

  module _ (n : ℕ) (big : 2 ≤ size t) where
    picked : 1 + n % (size t - 1) < size t
    picked = omega (arith, mod-lt n {m = size t - 1} (omega arith))

    size-evicted : size (evicted n) + 1 ≡ size t
    size-evicted = length-remove_at (1 + n % (size t - 1)) t.entries picked

    evicted-IsTable : IsTable (evicted n)
    evicted-IsTable = record {
      has_baseline = omega (arith, size-evicted);
      fits = omega (arith, size-evicted, i.fits);
      sorted = remove_at-IsSorted t.entries i.sorted (1 + n % (size t - 1)) (omega arith);
    }

    baseline-evicted : get_elem? (evicted n).entries 0 ≡ get_elem? t.entries 0
    baseline-evicted = get_elem?-remove_at (1 + n % (size t - 1)) t.entries 0 ∙ ground arith

    evicted-HasNew : (u : DispatchTable) → HasNew f (evicted n) u → HasNew f t u
    evicted-HasNew u h = record {
      table = h.table;
      capacity = h.capacity;
      user_context = h.user_context;
      baseline = h.baseline ∙ baseline-evicted;
      index = h.index;
      deopts = h.deopts;
      behind_baseline = h.behind_baseline;
      present = h.present;
    }

  step_full :
      (fuel : ℕ) (r : ℕ → ℕ) (k : ℕ)
      → find_place t.entries f.context (size t - 1) ≡ behind k
      → size t ≡ t.capacity
      → 2 ≤ size t
      → insert (suc fuel) r f t ≡ insert fuel r f (evicted (r fuel))
  step_full fuel r k e full big = unfold insert in rw (e, insert) (ground arith)

  -- An insertion always succeeds in a table that can hold two entries, full or not: two rounds are
  -- enough. The table stays sorted within its capacity, with its baseline, and has the new version.
  pub insert_lem :
      (fuel : ℕ) (r : ℕ → ℕ)
      → 2 ≤ t.capacity
      → (u : DispatchTable) × (insert (suc (suc fuel)) r f t ≡ some u) × HasNew f t u
  insert_lem fuel r cap = elim (dec_lt (size t) t.capacity) [
    | yes room ↦
        let (u, e, d) = insert_room f v t i (suc fuel) r room in
        (u, e, Inserted-HasNew f t v i u room d)
    | no full ↦
        go (omega (arith, i.fits)) (find_place t.entries f.context (size t - 1)) (place f v t i)
          refl
  ]
    where
      go :
          size t ≡ t.capacity
          → (p : Place) → IsPlace t.entries i.sorted f.context v (size t - 1) p
          → find_place t.entries f.context (size t - 1) ≡ p
          → (u : DispatchTable) × (insert (suc (suc fuel)) r f t ≡ some u) × HasNew f t u
      go full (replace k old) q e =
          (_, step_replaced f v t i (suc fuel) r k old e, replaced-HasNew f t v i k old q.0 q.2 q.3)
      go full fault q e = absurd q
      go full (behind k) q e =
          let big : 2 ≤ size t = omega arith in
          let n = r (suc fuel) in
          let there = evicted-IsTable n big in
          let room : size (evicted n) < t.capacity = omega (arith, size-evicted n big) in
          let (u, e', d) = insert_room f v (evicted n) there fuel r room in
          (
            u,
            step_full (suc fuel) r k e full big ∙ e',
            evicted-HasNew n big u (Inserted-HasNew f (evicted n) v there u room d),
          )
