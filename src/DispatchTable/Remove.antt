-- ===== src/DispatchTable/Remove.antt =====
-- `DispatchTable::remove`: which version goes.
use rir.Prelude.{
  ℕ, zero, suc, ◌+◌, ◌≤◌, ◌<◌, ◌≡◌, ◌≢◌, inl, inr, refl, ap, Option, none, some, List, [], ◌∷◌,
  arith, ◌==◌, ==_iff, Bool-cases, length, eq_of_some,
}
use rir.Prelude.Arrays.{remove_at, length-remove_at, get_elem?-lt}
use rir.Function.{Function}
use rir.DispatchTable.{DispatchTable, remove, remove_search, remove_found, tail_entries}
use rir.DispatchTable.Sorted.{At, IsTable, remove_at-IsSorted}

-- The result of the search for a body among entries whose first has index `i`.
abbrev IsFoundFrom : ℕ → List Function → ℕ → Option ℕ → Type 0
IsFoundFrom i es body none = (j : ℕ) (e : Function) → At es j e → e.body ≢ body
IsFoundFrom i es body (some k) =
    (j : ℕ) × (e : Function) × (k ≡ i + j)
    × At es j e
    × (e.body ≡ body)
    × ((l : ℕ) (d : Function) → l < j → At es l d → d.body ≢ body)

found_shift :
    (i : ℕ) (e : Function) (es : List Function) (body : ℕ) (r : Option ℕ)
    → IsFoundFrom (suc i) es body r
    → e.body ≢ body
    → IsFoundFrom i (e ∷ es) body r
found_shift i e es body none h ne = every
  where
    every : (j : ℕ) (x : Function) → At (e ∷ es) j x → x.body ≢ body
    every zero x at = rw (← eq_of_some at) ne
    every (suc j) x at = h j x at
found_shift i e es body (some k) h ne = (suc h.0, h.1, omega (arith, h.2), h.3, h.4, before)
  where
    before : (l : ℕ) (x : Function) → l < suc h.0 → At (e ∷ es) l x → x.body ≢ body
    before zero x p at = rw (← eq_of_some at) ne
    before (suc l) x p at = h.5 l x (omega arith) at

remove_search-IsFoundFrom :
    (i : ℕ) (es : List Function) (body : ℕ) → IsFoundFrom i es body (remove_search i es body)
unfolding remove_search
remove_search-IsFoundFrom i [] body = λ j e at. absurd (cc)
remove_search-IsFoundFrom i (e ∷ es) body = elim (Bool-cases (e.body == body)) [
  | inl on ↦
      rw on (0, e, omega arith, refl, (==_iff e.body body).0 on, λ l d p at. absurd (omega arith))
  | inr off ↦ rw off (
      found_shift i e es body (remove_search (suc i) es body)
        (remove_search-IsFoundFrom (suc i) es body) (λ h. cc (off, (==_iff e.body body).1 h)))
]

-- What `remove` does to a table: nothing if no version has the body, and otherwise it takes out the
-- first version that has it.
pub data Removed (body : ℕ) (t u : DispatchTable) : Type 0 where
  absent :
      ((j : ℕ) (e : Function) → 1 ≤ j → At t.entries j e → e.body ≢ body) → u ≡ t → Removed body t u
  taken_out :
      (k : ℕ) (e : Function)
      → 1 ≤ k
      → At t.entries k e
      → e.body ≡ body
      → ((j : ℕ) (d : Function) → 1 ≤ j → j < k → At t.entries j d → d.body ≢ body)
      → u ≡ record t { entries = remove_at k t.entries }
      → Removed body t u

Removed-case :
    (body : ℕ) (t : DispatchTable) (b : Function) (es : List Function) (r : Option ℕ)
    → t.entries ≡ b ∷ es
    → IsFoundFrom 1 es body r
    → Removed body t (record t { entries = remove_found t.entries r })
Removed-case body t b es none q h = absent (λ j e p at. every j e p (rw q at at)) refl
  where
    every : (j : ℕ) (e : Function) → 1 ≤ j → At (b ∷ es) j e → e.body ≢ body
    every zero e p at = absurd (omega arith)
    every (suc j) e p at = h j e at
Removed-case body t b es (some k) q h =
    taken_out k h.1 (omega (arith, h.2)) (rw (q, place) h.3) h.4
      (λ j d p l at. before j d p l (rw q at at)) refl
  where
    place : k ≡ suc h.0
    place = omega (arith, h.2)

    before : (j : ℕ) (d : Function) → 1 ≤ j → j < k → At (b ∷ es) j d → d.body ≢ body
    before zero d p l at = absurd (omega arith)
    before (suc j) d p l at = h.5 j d (omega (arith, place)) at

remove-Removed : (t : DispatchTable) (body : ℕ) → IsTable t → Removed body t (remove t body)
remove-Removed t body i = go t.entries refl
  where
    go : (es : List Function) → t.entries ≡ es → Removed body t (remove t body)
    go [] e = absurd (omega (arith, i.has_baseline, ap length e))
    go (b ∷ es) e =
        unfold remove in
        rw (ap tail_entries e) (
          Removed-case body t b es (remove_search 1 es body) e
            (remove_search-IsFoundFrom 1 es body))

Removed-IsTable : (body : ℕ) (t u : DispatchTable) → IsTable t → Removed body t u → IsTable u
Removed-IsTable body t u i (absent h e) = rw e i
Removed-IsTable body t u i (taken_out k d p at b h e) =
    let count = length-remove_at k t.entries (get_elem?-lt t.entries k d at) in
    let inside = get_elem?-lt t.entries k d at in
    rw e (record {
      has_baseline = omega (arith, count, inside);
      fits = omega (arith, count, i.fits);
      sorted = remove_at-IsSorted t.entries i.sorted k p;
    })

-- `remove` takes out the first version with the given body, if there is one, never the baseline,
-- and the table stays sorted.
pub remove_lem :
    (t : DispatchTable) (body : ℕ)
    → IsTable t
    → Removed body t (remove t body) × IsTable (remove t body)
remove_lem t body i =
    let r = remove-Removed t body i in (r, Removed-IsTable body t (remove t body) i r)
