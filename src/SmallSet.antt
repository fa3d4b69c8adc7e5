-- ===== src/SmallSet.antt =====
-- rir/src/utils/Set.h: a set as a vector without duplicates. An iterator is a position; erasing at
-- the end, which is undefined, is `none`.
pub mod Laws
use rir.Prelude.{
  ℕ, zero, suc, ◌+◌, Bool, true, false, not, ◌&&◌, Option, none, some, List, [], ◌∷◌, ◌++◌, ltb,
  ◌==◌, if◌then◌else◌, length,
}
use rir.Prelude.Eq.{Eq}
use rir.Prelude.Arrays.{remove_at}

module _ {ℓ} {T : Type ℓ} ⦃e : Eq T⦄ where
  unfoldable pub includes : List T → T → Bool
  includes [] t = false
  includes (x ∷ xs) t = let rest = includes xs t in if e.beq x t then true else rest

  unfoldable pub insert : List T → T → List T
  insert xs t = if includes xs t then xs else xs ++ t ∷ []

  unfoldable pub count : List T → T → ℕ
  count xs t = if includes xs t then 1 else 0

  -- The position of the first element that is equal, or that of the end.
  unfoldable pub find : List T → T → ℕ
  find [] t = 0
  find (x ∷ xs) t = let rest = suc (find xs t) in if e.beq x t then 0 else rest

  -- erase(T)
  unfoldable pub erase : List T → T → Option (List T)
  erase xs t = let i = find xs t in if ltb i (length xs) then some (remove_at i xs) else none

  -- The loops of operator==.
  unfoldable pub all_included : List T → List T → Bool
  all_included [] ys = true
  all_included (x ∷ xs) ys = let rest = all_included xs ys in if includes ys x then rest else false

  unfoldable pub equal : List T → List T → Bool
  equal xs ys = (length xs == length ys) && all_included xs ys
