-- ===== src/Tests/Arguments.antt =====
-- Orders of arguments at concrete inputs.
use rir.Prelude.{ℕ, ◌+◌, ◌≡◌, refl, true, none, some, List, [], ◌∷◌, arith}
use rir.ArglistOrder.{
  encode_arg, decode_arg, is_arg_named, is_statically_matched_dots, total, words, copy, fill, new,
  original_arglist_length, index,
}
use rir.ArglistOrder.Entries.{encode_arg_lem}
use rir.ArglistOrder.Layout.{index-new, new_stays}

encode_arg_lem_example :
    (decode_arg (encode_arg 5 true true) ≡ 5)
    × (is_arg_named (encode_arg 5 true true) ≡ true)
    × (is_statically_matched_dots (encode_arg 5 true true) ≡ true)
encode_arg_lem_example = encode_arg_lem 5 true true (omega arith)

-- What the memory holds before the constructor runs.
abbrev garbage : ℕ → ℕ
garbage k = k + 1000

abbrev swapped : List (List ℕ)
swapped = (1 ∷ 0 ∷ []) ∷ [] ∷ (2 ∷ 0 ∷ 1 ∷ []) ∷ []

index-new_example :
    (original_arglist_length (new garbage swapped) 2 ≡ some 3)
    × (index (new garbage swapped) 2 1 ≡ some 0)
index-new_example = index-new garbage swapped 2 (2 ∷ 0 ∷ 1 ∷ []) 1 refl

new_stays_example : (new garbage swapped).data_of 11 ≡ 1011
unfolding words total
new_stays_example = new_stays garbage swapped 11 (omega arith)

-- A call that was not reordered, and an argument past the end of one, fail an assertion.
index_run :
    (index (new garbage swapped) 3 0 ≡ none)
    × (index (new garbage swapped) 1 0 ≡ none)
    × (index (new garbage swapped) 0 0 ≡ some 1)
unfolding index original_arglist_length new fill copy
index_run = (refl, refl, refl)
