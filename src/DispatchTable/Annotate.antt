-- ===== src/DispatchTable/Annotate.antt =====
-- `DispatchTable::newWithUserContext`: the table under a context that the user declares.
use rir.Prelude.{
  ℕ, zero, suc, ◌≤◌, ◌<◌, ◌≡◌, inl, inr, refl, ap, true, false, List, [], ◌∷◌, arith, if◌then◌else◌,
  Bool-cases, length, get_elem?, eq_of_some,
}
use rir.Context.{Context, smaller, less}
use rir.Context.Order.{IsDispatchable}
use rir.Function.{Function}
use rir.DispatchTable.{DispatchTable, keep_smaller, new_with_user_context}
use rir.DispatchTable.Sorted.{At, IsSorted, IsTable}

module _ (udc : Context) where
  keep_smaller-cons :
      (e : Function) (es : List Function)
      → keep_smaller udc (e ∷ es)
        ≡ (if smaller e.context udc then e ∷ keep_smaller udc es else keep_smaller udc es)
  unfolding keep_smaller
  keep_smaller-cons e es = refl

  keep_smaller_on :
      (e : Function) (es : List Function)
      → smaller e.context udc ≡ true
      → keep_smaller udc (e ∷ es) ≡ e ∷ keep_smaller udc es
  keep_smaller_on e es on = rw (keep_smaller-cons e es, on)

  keep_smaller_off :
      (e : Function) (es : List Function)
      → smaller e.context udc ≡ false
      → keep_smaller udc (e ∷ es) ≡ keep_smaller udc es
  keep_smaller_off e es off = rw (keep_smaller-cons e es, off)

  -- A kept entry is an entry that the user's context allows.
  abbrev IsKept : List Function → Function → Type 0
  IsKept es d = (q : ℕ) × At es q d × (smaller d.context udc ≡ true)

  abbrev AllKept : List Function → Type 0
  AllKept es = (i : ℕ) (d : Function) → At (keep_smaller udc es) i d → IsKept es d

  IsKept-head :
      (e : Function) (es : List Function)
      → smaller e.context udc ≡ true
      → AllKept es
      → (i : ℕ) (d : Function) → At (e ∷ keep_smaller udc es) i d
      → IsKept (e ∷ es) d
  IsKept-head e es on ih zero d at =
      (0, at, rw (ap (λ (f : Function). f.context) (eq_of_some at)) at on)
  IsKept-head e es on ih (suc i) d at = let (q, a, s) = ih i d at in (suc q, a, s)

  kept : (es : List Function) → AllKept es
  kept [] i d at = absurd (unfold keep_smaller in cc)
  kept (e ∷ es) i d at = elim (Bool-cases (smaller e.context udc)) [
    | inl on ↦ IsKept-head e es on (kept es) i d (rw (keep_smaller_on e es on) at at)
    | inr off ↦ let (q, a, s) = kept es i d (rw (keep_smaller_off e es off) at at) in (suc q, a, s)
  ]

  -- Every entry that the user's context allows is kept.
  keeps :
      (es : List Function) (q : ℕ) (d : Function)
      → At es q d
      → smaller d.context udc ≡ true
      → (i : ℕ) × At (keep_smaller udc es) i d
  keeps [] q d at on = absurd (cc)
  keeps (e ∷ es) zero d at on =
      let on' : smaller e.context udc ≡ true =
        rw (ap (λ (f : Function). f.context) (eq_of_some at)) on in
      (0, rw (keep_smaller_on e es on') at)
  keeps (e ∷ es) (suc q) d at on =
      let (i, a) = keeps es q d at on in
      elim (Bool-cases (smaller e.context udc)) [
        | inl yes_kept ↦ (suc i, rw (keep_smaller_on e es yes_kept) a)
        | inr not_kept ↦ (i, rw (keep_smaller_off e es not_kept) a)
      ]

  -- Two kept entries stand in the order in which they stood.
  abbrev AllPairs : List Function → Type 0
  AllPairs es =
      (i j : ℕ) (d x : Function)
      → i < j
      → At (keep_smaller udc es) i d
      → At (keep_smaller udc es) j x
      → (p q : ℕ) × (p < q) × At es p d × At es q x

  pair_head :
      (e : Function) (es : List Function)
      → AllPairs es
      → (i j : ℕ) (d x : Function) → i < j
      → At (e ∷ keep_smaller udc es) i d
      → At (e ∷ keep_smaller udc es) j x
      → (p q : ℕ) × (p < q) × At (e ∷ es) p d × At (e ∷ es) q x
  pair_head e es ih i zero d x l a b = absurd (omega arith)
  pair_head e es ih zero (suc j) d x l a b =
      let (q, c, s) = kept es j x b in (0, suc q, omega arith, a, c)
  pair_head e es ih (suc i) (suc j) d x l a b =
      let (p, q, m, c, f) = ih i j d x (omega arith) a b in (suc p, suc q, omega arith, c, f)

  pairs : (es : List Function) → AllPairs es
  pairs [] i j d x l a b = absurd (unfold keep_smaller in cc)
  pairs (e ∷ es) i j d x l a b = elim (Bool-cases (smaller e.context udc)) [
    | inl on ↦
        pair_head e es (pairs es) i j d x l (rw (keep_smaller_on e es on) at a)
          (rw (keep_smaller_on e es on) at b)
    | inr off ↦
        let (p, q, m, c, f) =
          pairs es i j d x l (rw (keep_smaller_off e es off) at a)
            (rw (keep_smaller_off e es off) at b) in
        (suc p, suc q, omega arith, c, f)
  ]

  length-keep_smaller : (es : List Function) → length (keep_smaller udc es) ≤ length es
  unfolding keep_smaller
  length-keep_smaller [] = omega arith
  length-keep_smaller (e ∷ es) = ground (arith, length-keep_smaller es)

  module _ (b : Function) (es : List Function) (s : IsSorted (b ∷ es)) where
    narrowed-IsSorted : IsSorted (b ∷ keep_smaller udc es)
    narrowed-IsSorted = record { versions = versions; ordered = ordered }
      where
        versions :
            (i : ℕ) (e : Function)
            → 1 ≤ i
            → At (b ∷ keep_smaller udc es) i e
            → IsDispatchable e.context
        versions zero e p at = absurd (omega arith)
        versions (suc i) e p at =
            let (q, a, c) = kept es i e at in s.versions (suc q) e (omega arith) a

        ordered :
            (i j : ℕ) (d e : Function)
            → 1 ≤ i
            → i < j
            → At (b ∷ keep_smaller udc es) i d
            → At (b ∷ keep_smaller udc es) j e
            → less d.context e.context ≡ true
        ordered zero j d e p q at at' = absurd (omega arith)
        ordered (suc i) zero d e p q at at' = absurd (omega arith)
        ordered (suc i) (suc j) d e p q at at' =
            let (k, l, m, a, c) = pairs es i j d e (omega arith) at at' in
            s.ordered (suc k) (suc l) d e (omega arith) (omega arith) a c

-- What the annotated table promises: it is a table, its baseline is the old one, and its versions
-- are the old ones that the user's context allows.
pub record IsAnnotated (udc : Context) (t u : DispatchTable) : Type 0 where
  pub table : IsTable u
  pub user_context : u.user_context ≡ udc
  pub baseline : get_elem? u.entries 0 ≡ get_elem? t.entries 0
  pub versions :
      (i : ℕ) (e : Function)
      → 1 ≤ i
      → At u.entries i e
      → (j : ℕ) × (1 ≤ j) × At t.entries j e × (smaller e.context udc ≡ true)
  pub complete :
      (j : ℕ) (e : Function)
      → 1 ≤ j
      → At t.entries j e
      → smaller e.context udc ≡ true
      → (i : ℕ) × (1 ≤ i) × At u.entries i e

-- A table under a user's context holds the baseline and exactly the versions that the context
-- allows, and it is sorted.
pub new_with_user_context_lem :
    (udc : Context) (t : DispatchTable)
    → IsTable t
    → IsAnnotated udc t (new_with_user_context udc t)
new_with_user_context_lem udc t i = go t.entries refl
  where
    go : (es : List Function) → t.entries ≡ es → IsAnnotated udc t (new_with_user_context udc t)
    go [] e = absurd (omega (arith, i.has_baseline, ap length e))
    go (b ∷ es) e =
        unfold new_with_user_context in
        record {
          table = record {
            has_baseline = rw e (omega arith);
            fits = rw e (omega (arith, length-keep_smaller udc es, ap length e, i.fits));
            sorted = rw e (narrowed-IsSorted udc b es (rw e at i.sorted));
          };
          user_context = refl;
          baseline = rw e refl;
          versions = λ k x p at. rw e (from_old b es k x p (rw e at at));
          complete = λ k x p at on. rw e (to_new b es k x p (rw e at at) on);
        }
      where
        from_old :
            (b : Function) (es : List Function) (k : ℕ) (x : Function)
            → 1 ≤ k
            → At (b ∷ keep_smaller udc es) k x
            → (j : ℕ) × (1 ≤ j) × At (b ∷ es) j x × (smaller x.context udc ≡ true)
        from_old b es zero x p at = absurd (omega arith)
        from_old b es (suc k) x p at =
            let (q, a, c) = kept udc es k x at in (suc q, omega arith, a, c)

        to_new :
            (b : Function) (es : List Function) (j : ℕ) (x : Function)
            → 1 ≤ j
            → At (b ∷ es) j x
            → smaller x.context udc ≡ true
            → (i : ℕ) × (1 ≤ i) × At (b ∷ keep_smaller udc es) i x
        to_new b es zero x p at on = absurd (omega arith)
        to_new b es (suc j) x p at on =
            let (i, a) = keeps udc es j x at on in (suc i, omega arith, a)
