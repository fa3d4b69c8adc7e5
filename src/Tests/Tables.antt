-- ===== src/Tests/Tables.antt =====
-- Tests of the dispatch tables (rir/src/runtime/DispatchTable.h).
use rir.Prelude.{
  ℕ, zero, suc, ◌≤◌, ◌<◌, ◌≡◌, ◌⊎◌, refl, true, false, none, some, [], ◌∷◌, arith, eq_of_some,
}
use rir.Prelude.Arrays.{insert_at}
use rir.Prelude.Bits.{popcount}
use rir.EnumSet
use rir.Context.{Context, smaller, less, equal}
use rir.Context.Order.{IsDispatchable}
use rir.Function.{Function, baseline}
use rir.DispatchTable.{DispatchTable, Dispatched, dispatch, insert, remove, new_with_user_context}
use rir.DispatchTable.Sorted.{At, IsSorted, IsTable}
use rir.DispatchTable.Search.{IsBest, IsFallback, dispatch_lem}
use rir.DispatchTable.Evict.{HasNew, insert_lem}
use rir.DispatchTable.Remove.{Removed, remove_lem}
use rir.DispatchTable.Annotate.{IsAnnotated, new_with_user_context_lem}
use rir.Tests.Contexts.{plain, rich, plain-IsDispatchable, rich-IsDispatchable}
use rir.Tests.Versions.{version}

abbrev no_context : Context
no_context = record { flags = 0; type_flags = 0; missing = 0 }

abbrev base : Function
base = record (version 0 no_context) { optimization = baseline }

-- A baseline and a version for the minimal context.
abbrev table : DispatchTable
table = record { capacity = 3; entries = base ∷ version 1 plain ∷ []; user_context = no_context }

table-IsSorted : IsSorted table.entries
table-IsSorted = record { versions = versions; ordered = ordered }
  where
    versions : (i : ℕ) (e : Function) → 1 ≤ i → At table.entries i e → IsDispatchable e.context
    versions zero e p at = absurd (omega arith)
    versions (suc zero) e p at = rw (← eq_of_some at) plain-IsDispatchable
    versions (suc (suc i)) e p at = absurd (cc)

    ordered :
        (i j : ℕ) (d e : Function)
        → 1 ≤ i
        → i < j
        → At table.entries i d
        → At table.entries j e
        → less d.context e.context ≡ true
    ordered i zero d e p q a b = absurd (omega arith)
    ordered i (suc zero) d e p q a b = absurd (omega arith)
    ordered i (suc (suc j)) d e p q a b = absurd (cc)

table-IsTable : IsTable table
table-IsTable = record { has_baseline = omega arith; fits = omega arith; sorted = table-IsSorted }

abbrev dice : ℕ → ℕ
dice n = 7

-- The richer context sorts first.
insert_run :
    insert 2 dice (version 2 rich) table
    ≡ some (record table { entries = base ∷ version 2 rich ∷ version 1 plain ∷ [] })
unfolding insert insert_at equal less smaller EnumSet.includes EnumSet.contains EnumSet.count
    popcount
insert_run = refl

insert_lem_example :
    (u : DispatchTable) × (insert 2 dice (version 2 rich) table ≡ some u)
    × HasNew (version 2 rich) table u
insert_lem_example =
    insert_lem (version 2 rich) table rich-IsDispatchable table-IsTable 0 dice (omega arith)

dispatch_run :
    dispatch table rich true
    ≡ some (record { target = version 1 plain; disabled_func = version 1 plain })
unfolding dispatch smaller EnumSet.includes EnumSet.contains
dispatch_run = refl

dispatch_lem_example :
    (smaller rich no_context ≡ true
      → (d : Dispatched) × (dispatch table rich true ≡ some d)
        × (IsBest table rich true d ⊎ IsFallback table rich true d))
    × (smaller rich no_context ≡ false → dispatch table rich true ≡ none)
dispatch_lem_example = dispatch_lem table rich true table-IsTable

remove_lem_example : Removed 101 table (remove table 101) × IsTable (remove table 101)
remove_lem_example = remove_lem table 101 table-IsTable

new_with_user_context_lem_example : IsAnnotated plain table (new_with_user_context plain table)
new_with_user_context_lem_example = new_with_user_context_lem plain table table-IsTable
