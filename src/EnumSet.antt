-- ===== src/EnumSet.antt =====
-- rir/src/utils/EnumSet.h: sets of enum values as the bits of one word. An enum value is its
-- number, a set is its `set_` word. Assertions on arguments (`boundscheck`) are hypotheses of the
-- theorems, as a release build does not run them.
pub mod Laws
pub mod Iterate
use rir.Prelude.{
  ℕ, zero, suc, ◌+◌, ◌-◌, ◌%◌, ◌^◌, ◌≤◌, ◌<◌, bit_and, bit_or, Bool, true, false, not, ◌&&◌, Option,
  none, some, List, [], ◌∷◌, leb, ◌==◌, if◌then◌else◌,
}
use rir.Prelude.Bits.{complement, popcount}

-- The template's parameters: the markers FIRST and LAST of the enum, and the width of the store.
pub record Enum : Type 0 where
  pub first : ℕ
  pub last : ℕ
  pub digits : ℕ

-- The static assertions of the template; `any` shifts an `int`, which needs `last < 31` too.
pub record IsEnum (E : Enum) : Type 0 where
  pub ordered : E.first ≤ E.last
  pub fits : E.last < E.digits
  pub narrow : E.digits ≤ 64
  pub shiftable : E.last < 30

abbrev pub boundscheck : Enum → ℕ → Bool
boundscheck E e = leb E.first e && leb e E.last

unfoldable pub empty : ℕ → Bool
empty s = s == 0

unfoldable pub intersection : ℕ → ℕ → ℕ
intersection s t = bit_and t s

unfoldable pub union : ℕ → ℕ → ℕ
union s t = bit_or t s

unfoldable pub includes : ℕ → ℕ → Bool
includes s t = bit_and t s == t

unfoldable pub intersects : ℕ → ℕ → Bool
unfolding empty
intersects s t = not (empty (bit_and t s))

-- The clear of one bit is done on an `unsigned long`.
unfoldable pub reset : ℕ → ℕ → ℕ
reset s e = bit_and s (complement 64 (2 ^ e))

-- `__builtin_popcount` takes an `unsigned int`.
unfoldable pub count : ℕ → ℕ
count s = popcount 32 s

module _ (E : Enum) where
  unfoldable pub any : ℕ
  any = bit_and (2 ^ (E.last + 1) - 1) (complement 32 (2 ^ E.first - 1)) % 2 ^ E.digits

  unfoldable pub singleton : ℕ → ℕ
  singleton e = 2 ^ e % 2 ^ E.digits

  unfoldable pub contains : ℕ → ℕ → Bool
  unfolding singleton empty intersection
  contains s e = not (empty (intersection s (singleton e)))

  unfoldable pub set : ℕ → ℕ → ℕ
  set s e = bit_or s (2 ^ e) % 2 ^ E.digits

  unfoldable pub includes_elem : ℕ → ℕ → Bool
  unfolding singleton includes
  includes_elem s e = includes s (singleton e)

  -- operator~
  unfoldable pub negation : ℕ → ℕ
  unfolding any
  negation s = bit_and (complement E.digits s) any

  -- operator/
  unfoldable pub difference : ℕ → ℕ → ℕ
  unfolding negation intersection
  difference s t = intersection s (negation t)

  -- The loop of `max` with `n` rounds left at index `first + n - 1`; `none` is the failed assertion
  -- behind the loop (and, where `first` is 0, the wrap of the counter past it).
  max_loop : ℕ → ℕ → Option ℕ
  unfolding contains
  max_loop zero s = none
  max_loop (suc n) s =
      let rest = max_loop n s in if contains s (E.first + n) then some (E.first + n) else rest

  unfoldable pub max : ℕ → Option ℕ
  unfolding max_loop
  max s = max_loop (E.last - E.first) s

  -- Iterator::seekNext, with the distance to `last + 1` as fuel.
  unfoldable pub seek_next : ℕ → ℕ → ℕ → ℕ
  seek_next zero s i = i
  seek_next (suc n) s i =
      let rest = seek_next n s (i + 1) in
      if leb i E.last && (bit_and (2 ^ i) s == 0) then rest else i

  unfoldable pub begin : ℕ → ℕ
  unfolding seek_next
  begin s = seek_next (E.last + 1 - E.first) s E.first

  -- Iterator::operator++
  unfoldable pub next : ℕ → ℕ → ℕ
  unfolding seek_next
  next s i = seek_next (E.last + 1 - (i + 1)) s (i + 1)

  abbrev pub end : ℕ
  end = E.last + 1

  -- `for (auto e : set)`, with fuel for the rounds.
  unfoldable pub iterate : ℕ → ℕ → ℕ → List ℕ
  unfolding next
  iterate zero s i = []
  iterate (suc n) s i = let rest = iterate n s (next s i) in if i == end then [] else i ∷ rest

  unfoldable pub elements : ℕ → List ℕ
  unfolding iterate begin
  elements s = iterate (E.last + 1 - E.first) s (begin s)
