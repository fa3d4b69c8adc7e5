-- ===== src/DispatchTable/Search.antt =====
-- `DispatchTable::dispatch`: which version a call gets.
use rir.Prelude.{
  ℕ, zero, suc, ◌≤◌, ◌<◌, ◌≡◌, ◌≢◌, ◌⊎◌, inl, inr, refl, sym, ap, ◌∙◌, Bool, true, false, not, ◌&&◌,
  Option, none, some, List, [], ◌∷◌, arith, dec_lt, if◌then◌else◌, Bool-cases, length, get_elem?,
  eq_of_some,
}
use rir.Context.{Context, smaller}
use rir.Context.Order.{smaller-less}
use rir.Function.{Function, disabled}
use rir.DispatchTable.{
  DispatchTable, Found, enabled, only_disabled, matches, dispatch_loop, Dispatched, finish,
  dispatch,
}
use rir.DispatchTable.Sorted.{At, IsSorted, IsTable, less_irrefl, less_trans}

-- A version that a call in context `a` may run.
abbrev pub runnable : Context → Bool → Function → Bool
runnable a ignore e = matches a ignore e && not (disabled e)

-- The first runnable version, or none and the last one that matches but is disabled.
abbrev IsFirst : Context → Bool → List Function → Found → Type 0
IsFirst a ignore es (enabled e) =
    (i : ℕ) × At es i e
    × (runnable a ignore e ≡ true)
    × ((j : ℕ) (d : Function) → j < i → At es j d → runnable a ignore d ≡ false)
IsFirst a ignore es (only_disabled r) =
    (j : ℕ) (d : Function) → At es j d → runnable a ignore d ≡ false

module _ (a : Context) (ignore : Bool) where
  dispatch_loop-cons :
      (r : Option Function) (e : Function) (es : List Function)
      → dispatch_loop a ignore r (e ∷ es) ≡ (
          if runnable a ignore e
          then enabled e
          else dispatch_loop a ignore (if matches a ignore e then some e else r) es)
  dispatch_loop-cons r e es = unfold dispatch_loop in refl

  later :
      (e : Function) (es : List Function) (p : Found)
      → runnable a ignore e ≡ false
      → IsFirst a ignore es p
      → IsFirst a ignore (e ∷ es) p
  later e es (enabled d) off h = (suc h.0, h.1, h.2, before)
    where
      before : (j : ℕ) (x : Function) → j < suc h.0 → At (e ∷ es) j x → runnable a ignore x ≡ false
      before zero x p q = rw (← eq_of_some q) off
      before (suc j) x p q = h.3 j x (omega arith) q
  later e es (only_disabled r) off h = every
    where
      every : (j : ℕ) (x : Function) → At (e ∷ es) j x → runnable a ignore x ≡ false
      every zero x q = rw (← eq_of_some q) off
      every (suc j) x q = h j x q

  dispatch_loop-IsFirst :
      (es : List Function) (r : Option Function) → IsFirst a ignore es (dispatch_loop a ignore r es)
  dispatch_loop-IsFirst [] r = unfold dispatch_loop in (λ j d q. absurd (cc))
  dispatch_loop-IsFirst (e ∷ es) r =
      rw (dispatch_loop-cons r e es) (elim (Bool-cases (runnable a ignore e)) [
        | inl on ↦ rw on (0, refl, on, λ j d p q. absurd (omega arith))
        | inr off ↦ rw off (
            later e es (dispatch_loop a ignore (if matches a ignore e then some e else r) es) off
              (dispatch_loop-IsFirst es (if matches a ignore e then some e else r)))
      ])

-- The target is a version that the call may run, and no other such version has a context that is
-- smaller, so that assumes more.
pub record IsBest (t : DispatchTable) (a : Context) (ignore : Bool) (d : Dispatched) : Type 0 where
  pub index : ℕ
  pub behind_baseline : 1 ≤ index
  pub present : At t.entries index d.target
  pub runs : runnable a ignore d.target ≡ true
  pub reported : d.disabled_func ≡ d.target
  pub best :
      (j : ℕ) (e : Function)
      → 1 ≤ j
      → At t.entries j e
      → runnable a ignore e ≡ true
      → e.context ≢ d.target.context
      → smaller e.context d.target.context ≡ false

-- The target is the baseline, and the call may run no version.
pub record IsFallback (t : DispatchTable) (a : Context) (ignore : Bool) (d : Dispatched)
    : Type 0 where
  pub baseline : At t.entries 0 d.target
  pub none_runs : (j : ℕ) (e : Function) → 1 ≤ j → At t.entries j e → runnable a ignore e ≡ false

not_smaller_after :
    (es : List Function)
    → IsSorted es
    → (i j : ℕ) (d e : Function) → 1 ≤ i
    → i < j
    → At es i d
    → At es j e
    → e.context ≢ d.context
    → smaller e.context d.context ≡ false
not_smaller_after es s i j d e p q a b ne = elim (Bool-cases (smaller e.context d.context)) [
  | inr off ↦ off
  | inl on ↦
      let vd = s.versions i d p a in
      let ve = s.versions j e (omega arith) b in
      absurd (
        cc (
          less_trans d.context e.context d.context vd ve vd (s.ordered i j d e p q a b)
              (smaller-less e.context d.context on ne),
          less_irrefl d.context vd,
        ))
]

found_best :
    (es : List Function)
    → IsSorted es
    → (a : Context) (ignore : Bool) (i j : ℕ) (d e : Function) → 1 ≤ i
    → At es i d
    → ((k : ℕ) (x : Function) → 1 ≤ k → k < i → At es k x → runnable a ignore x ≡ false)
    → 1 ≤ j
    → At es j e
    → runnable a ignore e ≡ true
    → e.context ≢ d.context
    → smaller e.context d.context ≡ false
found_best es s a ignore i j d e p at_i earlier q at_j on ne = elim (dec_lt j i) [
  | yes r ↦ cc (on, earlier j e q r at_j)
  | no r ↦ elim (dec_lt i j) [
    | yes l ↦ not_smaller_after es s i j d e p l at_i at_j ne
    | no l ↦ absurd (
        ne (
          ap (λ (f : Function). f.context)
            (eq_of_some (sym at_j ∙ ap (get_elem? es) {x = j} {y = i} (omega arith) ∙ at_i))))
  ]
]

dispatch_found :
    (t : DispatchTable) (a : Context) (ignore : Bool) (b : Function) (es : List Function)
    (p : Found)
    → IsSorted (b ∷ es)
    → t.entries ≡ b ∷ es
    → IsFirst a ignore es p
    → IsBest t a ignore (finish b p) ⊎ IsFallback t a ignore (finish b p)
dispatch_found t a ignore b es (enabled e) s q h = inl (record {
  index = suc h.0;
  behind_baseline = omega arith;
  present = rw q h.1;
  runs = h.2;
  reported = refl;
  best = λ j x p at on ne.
      found_best (b ∷ es) s a ignore (suc h.0) j e x (omega arith) h.1 earlier p (rw q at at) on ne;
})
  where
    earlier :
        (k : ℕ) (x : Function) → 1 ≤ k → k < suc h.0 → At (b ∷ es) k x → runnable a ignore x ≡ false
    earlier zero x p l at = absurd (omega arith)
    earlier (suc k) x p l at = h.3 k x (omega arith) at
dispatch_found t a ignore b es (only_disabled r) s q h =
    inr (record { baseline = rw q refl; none_runs = λ j x p at. nothing j x p (rw q at at) })
  where
    nothing : (j : ℕ) (x : Function) → 1 ≤ j → At (b ∷ es) j x → runnable a ignore x ≡ false
    nothing zero x p at = absurd (omega arith)
    nothing (suc j) x p at = h j x at

-- A call whose context the user allows gets the best version that it may run, or the baseline if
-- it may run none. It is refused exactly when the user excluded its context.
pub dispatch_lem :
    (t : DispatchTable) (a : Context) (ignore : Bool)
    → IsTable t
    → (smaller a t.user_context ≡ true
        → (d : Dispatched) × (dispatch t a ignore ≡ some d)
          × (IsBest t a ignore d ⊎ IsFallback t a ignore d))
      × (smaller a t.user_context ≡ false → dispatch t a ignore ≡ none)
dispatch_lem t a ignore i = (λ h. go t.entries refl i.sorted h, λ h. unfold dispatch in rw h)
  where
    go :
        (es : List Function)
        → t.entries ≡ es
        → IsSorted es
        → smaller a t.user_context ≡ true
        → (d : Dispatched) × (dispatch t a ignore ≡ some d)
          × (IsBest t a ignore d ⊎ IsFallback t a ignore d)
    go [] e s h = absurd (omega (arith, i.has_baseline, ap length e))
    go (b ∷ es) e s h = (
      finish b (dispatch_loop a ignore none es),
      unfold dispatch in rw (h, e),
      dispatch_found t a ignore b es (dispatch_loop a ignore none es) s e
          (dispatch_loop-IsFirst a ignore es none),
    )
