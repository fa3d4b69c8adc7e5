-- ===== src/DispatchTable.antt =====
-- rir/src/runtime/DispatchTable.h: the versions of one function. Entry 0 is the baseline, the
-- others are sorted by their contexts, the smallest first. The entries below `size_` are a list;
-- the places above, which no operation reads, are not kept. Serialization is left out.
pub mod Search
pub mod Sorted
pub mod Insert
pub mod Evict
pub mod Remove
pub mod Annotate
use rir.Prelude.{
  ℕ, zero, suc, ◌+◌, ◌-◌, ◌%◌, ◌≤◌, ◌<◌, ◌≡◌, Bool, true, false, not, ◌&&◌, ◌||◌, Option, none,
  some, List, [], ◌∷◌, ltb, ◌==◌, if◌then◌else◌, length, get_elem?, set,
}
use rir.Prelude.Arrays.{insert_at, remove_at}
use rir.Context.{Context, equal, smaller, less, join}
use rir.Function.{Function, disabled, add_deopt_count}

pub record DispatchTable : Type 0 where
  pub capacity : ℕ
  pub entries : List Function
  pub user_context : Context

abbrev pub size : DispatchTable → ℕ
size t = length t.entries

-- The loop of a dispatch over the entries from 1 on, with `r2` as in the source.
pub data Found : Type 0 where
  enabled : Function → Found
  only_disabled : Option Function → Found

unfoldable pub matches : Context → Bool → Function → Bool
matches a ignore_pending e = smaller a e.context && (ignore_pending || not e.pending_compilation)

unfoldable pub dispatch_loop : Context → Bool → Option Function → List Function → Found
unfolding matches disabled
dispatch_loop a ignore_pending r2 [] = only_disabled r2
dispatch_loop a ignore_pending r2 (e ∷ es) =
    let go_on =
      dispatch_loop a ignore_pending (if matches a ignore_pending e then some e else r2) es in
    if matches a ignore_pending e && not (disabled e) then enabled e else go_on

-- What a dispatch returns, and what it writes through `disabledFunc`.
pub record Dispatched : Type 0 where
  pub target : Function
  pub disabled_func : Function

abbrev or_baseline : Function → Option Function → Function
or_baseline b none = b
or_baseline b (some f) = f

abbrev finish : Function → Found → Dispatched
finish b (enabled e) = record { target = e; disabled_func = e }
finish b (only_disabled r2) = record { target = b; disabled_func = or_baseline b r2 }

abbrev dispatch_entries : Context → Bool → List Function → Option Dispatched
dispatch_entries a ignore_pending [] = none
dispatch_entries a ignore_pending (b ∷ es) =
    some (finish b (dispatch_loop a ignore_pending none es))

-- dispatchConsideringDisabled; `none` is the R error of a context that the user excluded (and the
-- read of the baseline of an empty table).
unfoldable pub dispatch : DispatchTable → Context → Bool → Option Dispatched
unfolding dispatch_loop
dispatch t a ignore_pending =
    if not (smaller a t.user_context) then none else dispatch_entries a ignore_pending t.entries

-- The first entry with the context decides.
contains_loop : List Function → Context → Bool
unfolding equal disabled
contains_loop [] c = false
contains_loop (e ∷ es) c =
    let rest = contains_loop es c in if equal e.context c then not (disabled e) else rest

unfoldable pub contains : DispatchTable → Context → Bool
unfolding contains_loop
contains t c = contains_loop t.entries c

-- The index of the first entry with a body, counted from `i`.
remove_search : ℕ → List Function → ℕ → Option ℕ
remove_search i [] body = none
remove_search i (e ∷ es) body =
    let rest = remove_search (suc i) es body in if e.body == body then some i else rest

abbrev remove_found : List Function → Option ℕ → List Function
remove_found es none = es
remove_found es (some i) = remove_at i es

abbrev tail_entries : List Function → List Function
tail_entries [] = []
tail_entries (b ∷ es) = es

unfoldable pub remove : DispatchTable → ℕ → DispatchTable
unfolding remove_search remove_at
remove t body = record t {
  entries = remove_found t.entries (remove_search 1 (tail_entries t.entries) body);
}

-- The loop of `insert` from entry `i` down to 1: an entry with the same context, or the index that
-- the new entry goes behind.
pub data Place : Type 0 where
  replace : ℕ → Function → Place
  behind : ℕ → Place
  fault : Place

unfoldable pub find_place : List Function → Context → ℕ → Place
find_place es c zero = behind 0
find_place es c (suc i) =
    let next = find_place es c i in
    elim (get_elem? es (suc i)) [
      | none ↦ fault
      | some old ↦
          if equal old.context c
          then replace (suc i) old
          else if not (less c old.context)
          then behind (suc i)
          else next
    ]

-- The whole of `insert`. A full table drops the entry that a random number picks, and tries again:
-- `fuel` bounds the retries, and `none` is the end of the fuel, a fault, or the remainder by zero
-- of a table that has room for the baseline alone.
unfoldable pub insert : ℕ → (ℕ → ℕ) → Function → DispatchTable → Option DispatchTable
unfolding find_place
insert zero random f t = none
insert (suc fuel) random f t = elim (find_place t.entries f.context (size t - 1)) [
  | fault ↦ none
  | replace i old ↦
      some (record t { entries = set t.entries i (add_deopt_count f old.deopt_count) })
  | behind i ↦
      let retry =
        insert fuel random f
          (record t { entries = remove_at (1 + random fuel % (size t - 1)) t.entries }) in
      if size t == t.capacity
      then (if size t == 1 then none else retry)
      else some (record t { entries = insert_at (suc i) f t.entries })
]

-- DispatchTable::baseline(f): the baseline is written, also into a table that is still empty.
unfoldable pub set_baseline : Function → DispatchTable → DispatchTable
set_baseline f t = record t { entries = if size t == 0 then f ∷ [] else set t.entries 0 f }

unfoldable pub best : DispatchTable → Option Function
best t = if ltb 1 (size t) then get_elem? t.entries 1 else get_elem? t.entries 0

-- The loop of newWithUserContext over the entries from 1 on.
unfoldable pub keep_smaller : Context → List Function → List Function
keep_smaller udc [] = []
keep_smaller udc (e ∷ es) =
    let rest = keep_smaller udc es in if smaller e.context udc then e ∷ rest else rest

abbrev narrowed : Context → List Function → List Function
narrowed udc [] = []
narrowed udc (b ∷ es) = b ∷ keep_smaller udc es

unfoldable pub new_with_user_context : Context → DispatchTable → DispatchTable
unfolding keep_smaller
new_with_user_context udc t = record {
  capacity = t.capacity;
  entries = narrowed udc t.entries;
  user_context = udc;
}

unfoldable pub combine_context_with : DispatchTable → Context → Option Context
unfolding join
combine_context_with t c = join t.user_context c
