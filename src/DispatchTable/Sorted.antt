-- ===== src/DispatchTable/Sorted.antt =====
-- The invariant of a dispatch table, and the three moves of entries that keep it.
use rir.Prelude.{
  ℕ, suc, ◌-◌, ◌≤◌, ◌<◌, ◌≡◌, ◌⊎◌, refl, true, false, some, List, arith, ℕ_discrete, ◌==◌,
  if◌then◌else◌, length, get_elem?, set,
}
use rir.Prelude.Arrays.{
  insert_at, remove_at, get_elem?-insert_at, get_elem?-remove_at, get_elem?-set, get_elem?-lt,
}
use rir.Context.{Context, less}
use rir.Context.Order.{IsDispatchable, less_strict_total}
use rir.Function.{Function}
use rir.DispatchTable.{DispatchTable, size}

abbrev pub At : List Function → ℕ → Function → Type 0
At es i e = get_elem? es i ≡ some e

-- The versions behind the baseline are compiled for dispatchable contexts, in increasing order.
pub record IsSorted (es : List Function) : Type 0 where
  pub versions : (i : ℕ) (e : Function) → 1 ≤ i → At es i e → IsDispatchable e.context
  pub ordered :
      (i j : ℕ) (d e : Function)
      → 1 ≤ i
      → i < j
      → At es i d
      → At es j e
      → less d.context e.context ≡ true

pub record IsTable (t : DispatchTable) : Type 0 where
  pub has_baseline : 1 ≤ size t
  pub fits : size t ≤ t.capacity
  pub sorted : IsSorted t.entries

pub less_irrefl : (a : Context) → IsDispatchable a → less a a ≡ false
less_irrefl a v = (less_strict_total a a a v v v).0

pub less_trans :
    (a b c : Context)
    → IsDispatchable a
    → IsDispatchable b
    → IsDispatchable c
    → less a b ≡ true
    → less b c ≡ true
    → less a c ≡ true
less_trans a b c va vb vc = (less_strict_total a b c va vb vc).1

pub less_cases :
    (a b : Context)
    → IsDispatchable a
    → IsDispatchable b
    → (a ≡ b) ⊎ ((less a b ≡ true) ⊎ (less b a ≡ true))
less_cases a b va vb = (less_strict_total a b b va vb vb).2

-- A version may be shifted in where its context is greater than those before it and smaller than
-- those from there on.
pub record FitsAt (es : List Function) (k : ℕ) (f : Function) : Type 0 where
  pub positive : 1 ≤ k
  pub in_range : k ≤ length es
  pub before : (j : ℕ) (e : Function) → 1 ≤ j → j < k → At es j e → less e.context f.context ≡ true
  pub after : (j : ℕ) (e : Function) → k ≤ j → At es j e → less f.context e.context ≡ true

module _ (es : List Function) (s : IsSorted es) where
  pub insert_at-IsSorted :
      (k : ℕ) (f : Function)
      → IsDispatchable f.context
      → FitsAt es k f
      → IsSorted (insert_at k f es)
  insert_at-IsSorted k f v h = record {
    versions = λ i e p a.
        ground
          (arith, get_elem?-insert_at k f es i h.in_range, s.versions i e p, s.versions (i - 1) e);
    ordered = λ i j d e p q a b. ground (
      arith,
      get_elem?-insert_at k f es i h.in_range,
      get_elem?-insert_at k f es j h.in_range,
      h.before i d,
      h.after (j - 1) e,
      s.ordered i j d e,
      s.ordered i (j - 1) d e,
      s.ordered (i - 1) (j - 1) d e,
    );
  }

  pub remove_at-IsSorted : (k : ℕ) → 1 ≤ k → IsSorted (remove_at k es)
  remove_at-IsSorted k h = record {
    versions = λ i e p a.
        ground (arith, get_elem?-remove_at k es i, s.versions i e p, s.versions (suc i) e);
    ordered = λ i j d e p q a b. ground (
      arith,
      get_elem?-remove_at k es i,
      get_elem?-remove_at k es j,
      s.ordered i j d e,
      s.ordered i (suc j) d e,
      s.ordered (suc i) (suc j) d e,
    );
  }

  -- A version may take the place of one with the same context.
  module _ (k : ℕ) (old f : Function) (o : At es k old) (e : f.context ≡ old.context) where
    -- Each entry of the written table has the context of the entry that was there.
    origin :
        (i : ℕ) (d : Function)
        → At (set es k f) i d
        → (d' : Function) × At es i d' × (d.context ≡ d'.context)
    origin i d a = elim (ℕ_discrete i k) [
      | yes same ↦ (old, rw same o, ground (arith, written))
      | no other ↦ (d, ground (arith, written), refl)
    ]
      where
        written : get_elem? (set es k f) i ≡ (if i == k then some f else get_elem? es i)
        written = get_elem?-set es k i f (get_elem?-lt es k old o)

    pub set-IsSorted : IsSorted (set es k f)
    set-IsSorted = record {
      versions = λ i d p a. let (d', a', c) = origin i d a in rw c (s.versions i d' p a');
      ordered = λ i j x y p q a b.
          let (x', a', c) = origin i x a in
          let (y', b', c') = origin j y b in rw (c, c') (s.ordered i j x' y' p q a' b');
    }
