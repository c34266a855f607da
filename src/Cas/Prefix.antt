-- ===== src/Cas/Prefix.antt =====
-- How well two hashes match: src/libranet/cas/prefix.py.
pub mod Bits
use Prim.Native.Nat.{bit_xor}
use libranet.Base.{ℕ, zero, suc, ◌+◌, ◌-◌, ◌/◌, [], ◌∷◌, ltb, ◌==◌, if◌then◌else◌}
use libranet.Decimal.{Text}

-- `BITS_PER_HEX_DIGIT`
abbrev pub bits_per_hex_digit : ℕ
bits_per_hex_digit = 4

-- `int(digit, 16)` of one lower-case hexadecimal digit
abbrev pub hex_value : ℕ → ℕ
hex_value c = if ltb c 97 then c - 48 else c - 87

-- `n.bit_length()`; the fuel is `n`, which falls as it is halved.
abbrev pub bit_length_from : ℕ → ℕ → ℕ
bit_length_from zero n = 0
bit_length_from (suc fuel) n =
    let rest = bit_length_from fuel (n / 2) in if n == 0 then 0 else rest + 1

abbrev pub bit_length : ℕ → ℕ
bit_length n = bit_length_from n n

-- The loop of `matching_bits`, over the digits that `zip` pairs.
unfoldable pub matching_from : ℕ → Text → Text → ℕ
matching_from bits [] right = bits
matching_from bits (a ∷ left) [] = bits
matching_from bits (a ∷ left) (b ∷ right) =
    let difference = bit_xor (hex_value a) (hex_value b) in
    let rest = matching_from (bits + bits_per_hex_digit) left right in
    if difference == 0 then rest else bits + bits_per_hex_digit - bit_length difference

-- `matching_bits`
unfoldable pub matching_bits : Text → Text → ℕ
unfolding matching_from
matching_bits left right = matching_from 0 left right
