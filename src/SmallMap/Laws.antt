-- ===== src/SmallMap/Laws.antt =====
-- A SmallMap as a partial function: what the operations answer and how they change it, with the
-- index or without.
use rir.Prelude.{
  ℕ, ◌≡◌, refl, ap, sym, ◌∙◌, true, false, inl, inr, Option, none, some, [], ◌∷◌, ◌++◌, leb, arith,
  if◌then◌else◌, length, Bool-cases,
}
use rir.Prelude.Eq.{Eq}
use rir.SmallMap.{SmallMap, scan, update, index_loop, new, locate, check_size, push, at}
use rir.SmallMap.Scan.{
  Unique, assoc, or_else, from, bind-scan, scan-push, Unique-push, assoc-push, index_loop_lem,
}

from_zero : (o : Option ℕ) → or_else (from 0 o) none ≡ o
from_zero none = refl
from_zero (some i) = ap some (omega arith)

or_none : (o : Option ℕ) → or_else o none ≡ o
or_none none = refl
or_none (some i) = refl

module _ {ℓ κ} {K : Type ℓ} {V : Type κ} ⦃e : Eq K⦄ where
  -- The keys are distinct, and the index is complete from the moment that it is used.
  pub record IsMap (m : SmallMap K V) : Type ℓ where
    pub unique : Unique m.container
    pub indexed : (k : K) → m.index k ≡ (if m.big then scan m.container k else none)

  -- With the index or without, the search finds the first entry.
  pub locate_lem : (m : SmallMap K V) (k : K) → IsMap m → locate m k ≡ scan m.container k
  unfolding locate
  locate_lem m k w = elim (Bool-cases m.big) [
    | inl on ↦ rw (on, w.indexed k, on)
    | inr off ↦ rw off
  ]

  pub new-IsMap : IsMap new
  unfolding new
  new-IsMap = record { unique = tt; indexed = λ k. refl }

  check_size-container : (m : SmallMap K V) → (check_size m).container ≡ m.container
  unfolding check_size
  check_size-container m = elim (Bool-cases (leb 8 (length m.container))) [
    | inl many ↦ rw many
    | inr few ↦ rw few
  ]

  check_size-IsMap : (m : SmallMap K V) → IsMap m → m.big ≡ false → IsMap (check_size m)
  unfolding check_size
  check_size-IsMap m w small = elim (Bool-cases (leb 8 (length m.container))) [
    | inl many ↦ rw many (record { unique = w.unique; indexed = whole })
    | inr few ↦ rw few w
  ]
    where
      whole : (k : K) → index_loop 0 m.container m.index k ≡ scan m.container k
      whole k =
          index_loop_lem 0 m.container m.index k w.unique
          ∙ rw (w.indexed k, small) (from_zero (scan m.container k))

  -- The map that push appends to.
  unfoldable pub room : SmallMap K V → SmallMap K V
  room m = if m.big then m else check_size m

  room-IsMap : (m : SmallMap K V) → IsMap m → IsMap (room m)
  unfolding room
  room-IsMap m w = elim (Bool-cases m.big) [
    | inl on ↦ simp on w
    | inr off ↦ simp off (check_size-IsMap m w off)
  ]

  pub room-container : (m : SmallMap K V) → (room m).container ≡ m.container
  unfolding room
  room-container m = elim (Bool-cases m.big) [
    | inl on ↦ simp on
    | inr off ↦ simp off (check_size-container m)
  ]

  unfoldable pub append : SmallMap K V → K → V → SmallMap K V
  append n k v = record n {
    container = n.container ++ (k, v) ∷ [];
    index = if n.big then update n.index k (length n.container) else n.index;
  }

  pub push-append : (m : SmallMap K V) (k : K) (v : V) → push m k v ≡ append (room m) k v
  unfolding push append room
  push-append m k v = refl

  append-IsMap :
      (n : SmallMap K V) (k : K) (v : V)
      → IsMap n
      → scan n.container k ≡ none
      → IsMap (append n k v)
  unfolding append
  append-IsMap n k v w h = record {
    unique = Unique-push n.container k v w.unique h;
    indexed = whole;
  }
    where
      latest : (j : K) → e.beq k j ≡ true → scan n.container j ≡ none
      latest j same = sym (ap (scan n.container) ((e.beq_iff k j).0 same)) ∙ h

      extended :
          (j : K)
          → n.big ≡ true
          → update n.index k (length n.container) j ≡ scan (n.container ++ (k, v) ∷ []) j
      extended j on = elim (Bool-cases (e.beq k j)) [
        | inl same ↦ rw (scan-push n.container k v j, same, latest j same)
        | inr other ↦
            rw (scan-push n.container k v j, other, w.indexed j, on)
              (sym (or_none (scan n.container j)))
      ]

      whole :
          (j : K)
          → (if n.big then update n.index k (length n.container) else n.index) j
            ≡ (if n.big then scan (n.container ++ (k, v) ∷ []) j else none)
      whole j = elim (Bool-cases n.big) [
        | inl on ↦ rw on (extended j on)
        | inr off ↦ rw off (w.indexed j ∙ rw off)
      ]

  pub push-IsMap :
      (m : SmallMap K V) (k : K) (v : V) → IsMap m → scan m.container k ≡ none → IsMap (push m k v)
  push-IsMap m k v w h =
      rw (push-append m k v) (append-IsMap (room m) k v (room-IsMap m w) (rw (room-container m) h))

  -- What an entry added for a new key changes.
  pub push-assoc :
      (m : SmallMap K V) (k : K) (v : V) (j : K)
      → IsMap m
      → scan m.container k ≡ none
      → assoc (push m k v).container j ≡ (if e.beq k j then some v else assoc m.container j)
  unfolding append
  push-assoc m k v j w h = rw (push-append m k v, room-container m) (assoc-push m.container k v j h)

  -- `at` answers with the entry that the vector gives the key, through the index or not.
  pub at_lem : (m : SmallMap K V) (k : K) → IsMap m → at m k ≡ assoc m.container k
  unfolding at
  at_lem m k w = rw (locate_lem m k w) (bind-scan m.container k)
