-- ===== src/ArglistOrder.antt =====
-- rir/src/runtime/ArglistOrder.h: how the arguments of calls were reordered. An index of an argument
-- is a word of 64 bits, and the array behind the object is a function from an index to a word.
pub mod Layout
pub mod Entries
use rir.Prelude.{
  ℕ, zero, suc, ◌+◌, ◌-◌, ◌*◌, ◌^◌, bit_and, bit_or, Bool, true, false, not, ◌&&◌, Option, none,
  some, List, [], ◌∷◌, ltb, ◌==◌, if◌then◌else◌, length,
}
use rir.Prelude.Bits.{complement}

abbrev pub arg_named_mask : ℕ
arg_named_mask = 2 ^ 63

abbrev pub static_dots_mask : ℕ
static_dots_mask = 2 ^ 62

unfoldable pub encode_arg : ℕ → Bool → Bool → ℕ
encode_arg val named statically_matched_dots =
    let res = if named then bit_or arg_named_mask val else val in
    if statically_matched_dots then bit_or static_dots_mask res else res

unfoldable pub decode_arg : ℕ → ℕ
decode_arg val = bit_and (complement 64 (bit_or static_dots_mask arg_named_mask)) val

unfoldable pub is_arg_named : ℕ → Bool
is_arg_named val = not (bit_and arg_named_mask val == 0)

unfoldable pub is_statically_matched_dots : ℕ → Bool
is_statically_matched_dots val = not (bit_and static_dots_mask val == 0)

pub record ArglistOrder : Type 0 where
  pub n_calls : ℕ
  pub data_of : ℕ → ℕ

-- The number of words behind the object, as `size` counts them.
unfoldable pub total : List (List ℕ) → ℕ
total [] = 0
total (r ∷ reordering) = length r + total reordering

unfoldable pub words : List (List ℕ) → ℕ
unfolding total
words reordering = 2 * length reordering + total reordering

abbrev pub store : (ℕ → ℕ) → ℕ → ℕ → ℕ → ℕ
store memory i v k = if k == i then v else memory k

-- `memcpy` of the words of a vector
unfoldable pub copy : (ℕ → ℕ) → ℕ → List ℕ → ℕ → ℕ
copy memory offset [] = memory
copy memory offset (x ∷ r) = copy (store memory offset x) (suc offset) r

-- The loop of the constructor.
unfoldable pub fill : (ℕ → ℕ) → ℕ → ℕ → List (List ℕ) → ℕ → ℕ
unfolding copy
fill memory i offset [] = memory
fill memory i offset (r ∷ reordering) =
    fill (copy (store (store memory (2 * i) offset) (2 * i + 1) (length r)) offset r) (suc i)
      (offset + length r) reordering

-- The constructor, on memory that is allocated and not initialized.
unfoldable pub new : (ℕ → ℕ) → List (List ℕ) → ArglistOrder
unfolding fill
new memory reordering = record {
  n_calls = length reordering;
  data_of = fill memory 0 (length reordering * 2) reordering;
}

-- A failed assertion is `none`.
unfoldable pub original_arglist_length : ArglistOrder → ℕ → Option ℕ
original_arglist_length a call_id =
    if ltb call_id a.n_calls then some (a.data_of (call_id * 2 + 1)) else none

unfoldable pub index : ArglistOrder → ℕ → ℕ → Option ℕ
unfolding original_arglist_length
index a call_id i = elim (original_arglist_length a call_id) [
  | none ↦ none
  | some n ↦ if ltb i n then some (a.data_of (a.data_of (call_id * 2) + i)) else none
]
