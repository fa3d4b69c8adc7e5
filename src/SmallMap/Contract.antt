-- ===== src/SmallMap/Contract.antt =====
-- The contract of SmallMap: each operation is that of a partial function from keys to values, and
-- a set or insert keeps the map well formed on both sides of the switch to the index.
use rir.Prelude.{
  ℕ, zero, suc, ◌≡◌, ◌↔◌, arith, refl, ap, sym, ◌∙◌, Bool, true, false, inl, inr, Option, none,
  some, List, [], ◌∷◌, ◌++◌, if◌then◌else◌, length, Bool-cases, Option-cases,
}
use rir.Prelude.Eq.{Eq}
use rir.SmallMap.{
  SmallMap, scan, value_at, set_value, bind, locate, push, set, insert, at, subscript, get,
  contains, count, find,
}
use rir.SmallMap.Scan.{assoc-hit, scan-lt, scan-set_value, Unique-set_value, assoc-set_value}
use rir.SmallMap.Laws.{
  IsMap, locate_lem, room-container, append, push-append, push-IsMap, push-assoc, at_lem,
}

-- The value that a partial function gives, or another.
abbrev pub value_or {ℓ} : {V : Type ℓ} → Option V → V → V
value_or none d = d
value_or (some v) d = v

abbrev pub is_some {ℓ} : {V : Type ℓ} → Option V → Bool
is_some none = false
is_some (some v) = true

module _ {ℓ κ} {K : Type ℓ} {V : Type κ} ⦃e : Eq K⦄ where
  -- `f` with the value `v` at `k`.
  abbrev pub overridden : (K → Option V) → K → V → K → Option V
  overridden f k v j = if e.beq k j then some v else f j

  -- A map with these entries holds the function.
  abbrev pub Holds : SmallMap K V → (K → Option V) → Type (ℓ ⊔ κ)
  Holds m f = IsMap m × ((j : K) → at m j ≡ f j)

  push_lem :
      (m : SmallMap K V) (k : K) (v : V)
      → IsMap m
      → scan m.container k ≡ none
      → Holds (push m k v) (overridden (at m) k v)
  push_lem m k v w h =
      (grown, λ j. at_lem (push m k v) j grown ∙ push-assoc m k v j w h ∙ rw⁻¹ (at_lem m j w) refl)
    where
      grown : IsMap (push m k v)
      grown = push-IsMap m k v w h

  overwrite_lem :
      (m : SmallMap K V) (i : ℕ) (k : K) (v : V)
      → IsMap m
      → scan m.container k ≡ some i
      → Holds (record m { container = set_value m.container i v }) (overridden (at m) k v)
  overwrite_lem m i k v w h = (
    kept,
    λ j.
        at_lem (record m { container = set_value m.container i v }) j kept
        ∙ assoc-set_value m.container i v k j h
        ∙ rw⁻¹ (at_lem m j w) refl,
  )
    where
      same :
          (j : K)
          → (if m.big then scan m.container j else none)
            ≡ (if m.big then scan (set_value m.container i v) j else none)
      same j = rw (scan-set_value m.container i v j)

      kept : IsMap (record m { container = set_value m.container i v })
      kept = record {
        unique = Unique-set_value m.container i v w.unique;
        indexed = λ j. w.indexed j ∙ same j;
      }

  set-miss : (m : SmallMap K V) (k : K) (v : V) → locate m k ≡ none → set m k v ≡ push m k v
  unfolding set
  set-miss m k v h = rw (h, set)

  set-hit :
      (m : SmallMap K V) (k : K) (v : V) (i : ℕ)
      → locate m k ≡ some i
      → set m k v ≡ record m { container = set_value m.container i v }
  unfolding set
  set-hit m k v i h = rw (h, set)

  -- `set` in a well-formed map gives a well-formed map that holds the function overridden at the
  -- key: with the key present or not, and with the switch to the index or without.
  pub set-Holds :
      (m : SmallMap K V) (k : K) (v : V) → IsMap m → Holds (set m k v) (overridden (at m) k v)
  set-Holds m k v w = elim (Option-cases (scan m.container k)) [
    | inl off ↦ rw (set-miss m k v (locate_lem m k w ∙ off)) (push_lem m k v w off)
    | inr (i, on) ↦ rw (set-hit m k v i (locate_lem m k w ∙ on)) (overwrite_lem m i k v w on)
  ]

  missing : (m : SmallMap K V) (k : K) → IsMap m → scan m.container k ≡ none → at m k ≡ none
  unfolding at
  missing m k w off = rw (locate_lem m k w, off)

  -- A key that is found has a value.
  found :
      (m : SmallMap K V) (k : K) (i : ℕ)
      → IsMap m
      → scan m.container k ≡ some i
      → (v : V) × (at m k ≡ some v)
  found m k i w on = let (v, given) = assoc-hit m.container k i on in (v, at_lem m k w ∙ given)

  contains_lem : (m : SmallMap K V) (k : K) → contains m k ≡ is_some (locate m k)
  unfolding contains
  contains_lem m k = elim (Option-cases (locate m k)) [
    | inl q ↦ rw (q, contains)
    | inr (i, q) ↦ rw (q, contains)
  ]

  -- `insert` of a key that the map does not have does the same.
  pub insert-Holds :
      (m : SmallMap K V) (k : K) (v : V)
      → IsMap m
      → contains m k ≡ false
      → Holds (insert m k v) (overridden (at m) k v)
  unfolding insert
  insert-Holds m k v w h = elim (Option-cases (scan m.container k)) [
    | inl off ↦ push_lem m k v w off
    | inr (i, on) ↦
        absurd (let there = locate_lem m k w ∙ on in cc (contains_lem m k, ap is_some there, h))
  ]

  subscript-miss :
      (m : SmallMap K V) (k : K) (d : V) → locate m k ≡ none → subscript d m k ≡ push m k d
  unfolding subscript
  subscript-miss m k d h = rw (h, subscript)

  subscript-hit :
      (m : SmallMap K V) (k : K) (d : V) (i : ℕ) → locate m k ≡ some i → subscript d m k ≡ m
  unfolding subscript
  subscript-hit m k d i h = rw (h, subscript)

  -- Reading the value that the map has changes nothing.
  reread :
      (f : K → Option V) (k : K) (v d : V) (j : K)
      → f k ≡ some v
      → f j ≡ overridden f k (value_or (f k) d) j
  reread f k v d j h = elim (Bool-cases (e.beq k j)) [
    | inl same ↦ rw (same, h) (sym (ap f ((e.beq_iff k j).0 same)) ∙ h)
    | inr other ↦ rw other
  ]

  -- After `operator[]`, the key has its value, or the default one if it had none, and the other
  -- keys have theirs.
  pub subscript-Holds :
      (m : SmallMap K V) (k : K) (d : V)
      → IsMap m
      → Holds (subscript d m k) (overridden (at m) k (value_or (at m k) d))
  subscript-Holds m k d w = elim (Option-cases (scan m.container k)) [
    | inl off ↦
        rw (subscript-miss m k d (locate_lem m k w ∙ off), missing m k w off) (push_lem m k d w off)
    | inr (i, on) ↦
        rw (subscript-hit m k d i (locate_lem m k w ∙ on))
          (w, λ j. let (v, given) = found m k i w on in reread (at m) k v d j given)
  ]

  get_lem : (m : SmallMap K V) (k : K) (d : V) → get m k d ≡ value_or (at m k) d
  unfolding get at
  get_lem m k d = elim (Option-cases (bind (locate m k) (value_at m.container))) [
    | inl q ↦ rw (q, get, at)
    | inr (v, q) ↦ rw (q, get, at)
  ]

  find-miss : (m : SmallMap K V) (k : K) → locate m k ≡ none → find m k ≡ length m.container
  unfolding find
  find-miss m k h = rw (h, find)

  find-hit : (m : SmallMap K V) (k : K) (i : ℕ) → locate m k ≡ some i → find m k ≡ i
  unfolding find
  find-hit m k i h = rw (h, find)

  value_at-length : (es : List (K × V)) → value_at es (length es) ≡ none
  value_at-length [] = refl
  value_at-length (x ∷ es) = value_at-length es

  contains-at : (m : SmallMap K V) (k : K) → IsMap m → contains m k ≡ is_some (at m k)
  contains-at m k w = elim (Option-cases (scan m.container k)) [
    | inl off ↦ rw (contains_lem m k, locate_lem m k w ∙ off, missing m k w off)
    | inr (i, on) ↦
        let (v, given) = found m k i w on in rw (contains_lem m k, locate_lem m k w ∙ on, given)
  ]

  count-contains : (m : SmallMap K V) (k : K) → count m k ≡ (if contains m k then 1 else 0)
  unfolding count
  count-contains m k = refl

  find-value : (m : SmallMap K V) (k : K) → value_at m.container (find m k) ≡ at m k
  unfolding at
  find-value m k = elim (Option-cases (locate m k)) [
    | inl off ↦ rw (find-miss m k off, off, value_at-length m.container)
    | inr (i, on) ↦ rw (find-hit m k i on, on)
  ]

  find-end :
      (m : SmallMap K V) (k : K) → IsMap m → (find m k ≡ length m.container) ↔ (at m k ≡ none)
  find-end m k w = elim (Option-cases (scan m.container k)) [
    | inl off ↦ ((λ p. missing m k w off), (λ p. find-miss m k (locate_lem m k w ∙ off)))
    | inr (i, on) ↦
        let (v, given) = found m k i w on in
        (
          (λ p. absurd (
              let here = find-hit m k i (locate_lem m k w ∙ on) in
              omega (arith, here, p, scan-lt m.container k i on))),
          (λ p. absurd (cc (p, given))),
        )
  ]

  -- The queries of a well-formed map agree with `at`: `contains` and `count` on whether the key
  -- has a value, `get` on the value or the one to use otherwise, and `find` gives the position
  -- of the entry with that value, or that of the end.
  pub query_at :
      (m : SmallMap K V) (k : K) (d : V)
      → IsMap m
      → (contains m k ≡ is_some (at m k))
        × (count m k ≡ (if is_some (at m k) then 1 else 0))
        × (get m k d ≡ value_or (at m k) d)
        × (value_at m.container (find m k) ≡ at m k)
        × ((find m k ≡ length m.container) ↔ (at m k ≡ none))
  query_at m k d w = (
    contains-at m k w,
    count-contains m k ∙ rw (contains-at m k w),
    get_lem m k d,
    find-value m k,
    find-end m k w,
  )

  -- The keys in the order of the vector.
  abbrev pub keys : List (K × V) → List K
  keys [] = []
  keys ((k, v) ∷ es) = k ∷ keys es

  keys-set_value : (es : List (K × V)) (i : ℕ) (v : V) → keys (set_value es i v) ≡ keys es
  keys-set_value [] i v = refl
  keys-set_value ((k, w) ∷ es) zero v = refl
  keys-set_value ((k, w) ∷ es) (suc i) v = rw (keys-set_value es i v)

  keys-append : (es : List (K × V)) (k : K) (v : V) → keys (es ++ (k, v) ∷ []) ≡ keys es ++ k ∷ []
  keys-append [] k v = refl
  keys-append ((j, w) ∷ es) k v = rw (keys-append es k v)

  -- `set` keeps the keys in place, and puts a key
  -- that the map does not have behind them.
  pub set-keys :
      (m : SmallMap K V) (k : K) (v : V)
      → keys (set m k v).container
        ≡ (if contains m k then keys m.container else keys m.container ++ k ∷ [])
  unfolding append
  set-keys m k v = elim (Option-cases (locate m k)) [
    | inl off ↦
        rw (contains_lem m k, off, set-miss m k v off, push-append m k v, room-container m)
          (keys-append m.container k v)
    | inr (i, on) ↦ rw (contains_lem m k, on, set-hit m k v i on) (keys-set_value m.container i v)
  ]
