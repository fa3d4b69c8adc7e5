-- ===== src/SmallMap.antt =====
-- rir/src/utils/Map.h: a map as a vector of pairs, with a hash index once it has eight entries.
-- The index, a std::unordered_map, is a function into the positions. A failed assertion or a throw
-- of `at` is `none`; iterators are positions in the vector.
pub mod Scan
pub mod Laws
pub mod Contract
use rir.Prelude.{
  ℕ, zero, suc, ◌+◌, ◌≡◌, Bool, true, false, not, Option, none, some, List, [], ◌∷◌, ◌++◌, leb,
  if◌then◌else◌, length,
}
use rir.Prelude.Eq.{Eq}

pub record SmallMap {ℓ κ} (K : Type ℓ) (V : Type κ) : Type (ℓ ⊔ κ) where
  pub container : List (K × V)
  pub index : K → Option ℕ
  pub big : Bool

abbrev pub bind {ℓ} : {V : Type ℓ} → Option ℕ → (ℕ → Option V) → Option V
bind none f = none
bind (some i) f = f i

-- One position further.
abbrev pub next : Option ℕ → Option ℕ
next none = none
next (some i) = some (suc i)

-- index[k] = i
abbrev pub update {ℓ} : {K : Type ℓ} ⦃e : Eq K⦄ → (K → Option ℕ) → K → ℕ → K → Option ℕ
update ⦃e⦄ index k i j = if e.beq k j then some i else index j

module _ {ℓ κ} {K : Type ℓ} {V : Type κ} where
  -- container[i].second
  abbrev pub value_at : List (K × V) → ℕ → Option V
  value_at [] i = none
  value_at ((k, v) ∷ es) zero = some v
  value_at ((k, v) ∷ es) (suc i) = value_at es i

  -- container[i].second = w
  abbrev pub set_value : List (K × V) → ℕ → V → List (K × V)
  set_value [] i w = []
  set_value ((k, v) ∷ es) zero w = (k, w) ∷ es
  set_value ((k, v) ∷ es) (suc i) w = (k, v) ∷ set_value es i w

  unfoldable pub new : SmallMap K V
  new = record { container = []; index = λ k. none; big = false }

  unfoldable pub empty : SmallMap K V → Bool
  empty m = elim m.container [ [] ↦ true | _ ∷ _ ↦ false ]

  module _ ⦃e : Eq K⦄ where
    -- The position of the first entry with a key.
    unfoldable pub scan : List (K × V) → K → Option ℕ
    scan [] k = none
    scan ((j, v) ∷ es) k = let rest = next (scan es k) in if e.beq j k then some 0 else rest

    -- The loop of checkSize over the entries from position `i` on.
    unfoldable pub index_loop : ℕ → List (K × V) → (K → Option ℕ) → K → Option ℕ
    index_loop i [] index = index
    index_loop i ((k, v) ∷ es) index = index_loop (suc i) es (update index k i)

    unfoldable pub check_size : SmallMap K V → SmallMap K V
    check_size m =
        if leb 8 (length m.container)
        then record m { index = index_loop 0 m.container m.index; big = true }
        else m

    -- The search that every operation begins with.
    unfoldable pub locate : SmallMap K V → K → Option ℕ
    locate m k = if m.big then m.index k else scan m.container k

    -- The common end of the operations that add an entry.
    unfoldable pub push : SmallMap K V → K → V → SmallMap K V
    push m k v =
        let n = if m.big then m else check_size m in
        record n {
          container = n.container ++ (k, v) ∷ [];
          index = if n.big then update n.index k (length n.container) else n.index;
        }

    unfoldable pub set : SmallMap K V → K → V → SmallMap K V
    set m k v = elim (locate m k) [
      | some i ↦ record m { container = set_value m.container i v }
      | none ↦ push m k v
    ]

    -- insert(k, v), for a key that the map does not have.
    unfoldable pub insert : SmallMap K V → K → V → SmallMap K V
    insert = push

    unfoldable pub at : SmallMap K V → K → Option V
    at m k = bind (locate m k) (value_at m.container)

    -- operator[]: the map after it, in which the key has a value; `d` is `V()`.
    unfoldable pub subscript : V → SmallMap K V → K → SmallMap K V
    subscript d m k = elim (locate m k) [ some i ↦ m | none ↦ push m k d ]

    unfoldable pub get : SmallMap K V → K → V → V
    get m k otherwise = elim (bind (locate m k) (value_at m.container)) [
      | some v ↦ v
      | none ↦ otherwise
    ]

    unfoldable pub contains : SmallMap K V → K → Bool
    contains m k = elim (locate m k) [ some _ ↦ true | none ↦ false ]

    unfoldable pub count : SmallMap K V → K → ℕ
    count m k = if contains m k then 1 else 0

    -- find(k): a position, or that of the end.
    unfoldable pub find : SmallMap K V → K → ℕ
    find m k = elim (locate m k) [ some i ↦ i | none ↦ length m.container ]
