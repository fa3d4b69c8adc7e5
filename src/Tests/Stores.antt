-- ===== src/Tests/Stores.antt =====
-- The constant pool, a set, and the formals of a closure at concrete inputs.
use rir.Prelude.{ℕ, ◌≡◌, refl, true, Option, none, some, List, [], ◌∷◌, arith, ◌==◌, if◌then◌else◌}
use rir.Prelude.Eq.{nat_eq}
use rir.Pool.{Pool, Steps, get, insert, make_space, patch, is_patchable, cp_pool_add}
use rir.Pool.Kept.{IsPool-Steps}
use rir.Pool.Step.{inserts, makes_space, patches}
use rir.Pool.Steps.{done, more}
use rir.Pool.Stable.{IsPool, insert_stable}
use rir.SmallSet.{includes}
use rir.SmallSet.Laws.{Unique}
use rir.FormalArgs.{FormalArgs, Formal}

abbrev empty_pool : Pool ℕ
empty_pool = record { cp = []; numbers = []; ints = []; contents = []; patchable = [] }

empty-IsPool : IsPool empty_pool
empty-IsPool = record { known = λ v i h. absurd (cc); room = tt }

abbrev spaced : Pool ℕ
spaced = (make_space 0 (insert 42 empty_pool).1).1

abbrev patched : Pool ℕ
patched = record spaced { cp = 42 ∷ 7 ∷ [] }

patch_run : patch 1 7 spaced ≡ some patched
unfolding patch make_space insert is_patchable cp_pool_add
patch_run = refl

calls : Steps (insert 42 empty_pool).1 patched
calls =
    more (insert 42 empty_pool).1 spaced patched (makes_space 0 (insert 42 empty_pool).1)
      (more spaced patched patched (patches 1 7 spaced patched patch_run) (done patched))

-- 42 is entered, a place is made behind it, and 7 is patched into the place.
insert_stable_example : get patched (insert 42 empty_pool).0 ≡ some 42
insert_stable_example = insert_stable empty_pool patched 42 empty-IsPool (omega arith) calls

IsPool-Steps_example : IsPool patched
IsPool-Steps_example =
    IsPool-Steps empty_pool patched
      (more empty_pool (insert 42 empty_pool).1 patched (inserts 42 empty_pool) calls) empty-IsPool

abbrev three : List ℕ
three = 4 ∷ 5 ∷ 6 ∷ []

three-Unique : Unique three
unfolding includes
three-Unique = (refl, (refl, (refl, tt)))

abbrev formals : List (Formal ℕ)
formals =
    record { tag = 10; car = 0 } ∷ record { tag = 3; car = 0 } ∷ record { tag = 11; car = 99 } ∷ []

abbrev defaults : ℕ → Option ℕ
defaults i = if i == 2 then some 55 else none

abbrev collected : FormalArgs ℕ
collected = record {
  names = 10 ∷ 3 ∷ 11 ∷ [];
  default_args = 0 ∷ 0 ∷ 55 ∷ [];
  has_default_args = true;
  has_dots = true;
}
