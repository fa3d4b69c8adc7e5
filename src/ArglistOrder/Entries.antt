-- ===== src/ArglistOrder/Entries.antt =====
-- rir/src/runtime/ArglistOrder.h: the encoding of one argument in a word.
use rir.Prelude.{ℕ, ◌^◌, ◌<◌, ◌≡◌, Bool, ◌&&◌, ◌||◌, ◌==◌, arith, bit_or, ltb}
use rir.Prelude.Bits.{
  bit, bit-bit_or, bit-bit_and, bit-two_pow, bit_above, bit-ext, complement, bit-complement,
}
use rir.Prelude.Bits.Bound.{bit_and-two_pow}
use rir.ArglistOrder.{encode_arg, decode_arg, is_arg_named, is_statically_matched_dots}

bit-encode_arg :
    (val : ℕ) (named dots : Bool) (i : ℕ)
    → bit (encode_arg val named dots) i ≡ ((named && 63 == i) || (dots && 62 == i) || bit val i)
unfolding encode_arg
bit-encode_arg val named dots i = ground (
  arith,
  bit-bit_or (2 ^ 63) val i,
  bit-bit_or (2 ^ 62) val i,
  bit-bit_or (2 ^ 62) (bit_or (2 ^ 63) val) i,
  bit-two_pow 63 i,
  bit-two_pow 62 i,
)

bit-decode_arg : (w i : ℕ) → bit (decode_arg w) i ≡ (bit w i && ltb i 62)
unfolding decode_arg
bit-decode_arg w i = ground (
  arith,
  bit-bit_and (complement 64 (bit_or (2 ^ 62) (2 ^ 63))) w i,
  bit-complement 64 (bit_or (2 ^ 62) (2 ^ 63)) i (omega arith),
  bit-bit_or (2 ^ 62) (2 ^ 63) i,
  bit-two_pow 63 i,
  bit-two_pow 62 i,
)

-- A position below 2^62 with the two flags is read back from its word.
pub encode_arg_lem :
    (val : ℕ) (named dots : Bool)
    → val < 2 ^ 62
    → (decode_arg (encode_arg val named dots) ≡ val)
      × (is_arg_named (encode_arg val named dots) ≡ named)
      × (is_statically_matched_dots (encode_arg val named dots) ≡ dots)
unfolding is_arg_named is_statically_matched_dots
encode_arg_lem val named dots l = (
  bit-ext _ _ (λ i. ground (
    arith,
    bit-decode_arg (encode_arg val named dots) i,
    bit-encode_arg val named dots i,
    bit_above 62 val i l,
  )),
  ground (
    arith,
    bit_and-two_pow 63 (encode_arg val named dots),
    bit-encode_arg val named dots 63,
    bit_above 62 val 63 l,
  ),
  ground (
    arith,
    bit_and-two_pow 62 (encode_arg val named dots),
    bit-encode_arg val named dots 62,
    bit_above 62 val 62 l,
  ),
)
