-- ===== src/Cas/Prefix/Bits.antt =====
-- `matching_bits` counts the leading bits that two hashes share, and so is at most their bits.
use Prim.Native.Nat.{bit_xor}
use libranet.Base.{
  ℕ, zero, suc, ◌+◌, ◌-◌, ◌*◌, ◌/◌, ◌%◌, ◌≤◌, ◌<◌, ◌≡◌, refl, sym, ◌∙◌, Bool, true, false, ◌&&◌,
  ◌||◌, List, [], ◌∷◌, ◌++◌, arith, ltb, leb, ◌==◌, if◌then◌else◌, length, All,
}
use libranet.Decimal.{Text}
use libranet.Cas.Prefix.{bits_per_hex_digit, hex_value, bit_length, matching_from, matching_bits}

-- The bits of a hexadecimal digit, the top one first.
unfoldable pub value_bits : ℕ → List Bool
value_bits v = (v / 8 % 2 == 1) ∷ (v / 4 % 2 == 1) ∷ (v / 2 % 2 == 1) ∷ (v % 2 == 1) ∷ []

unfoldable pub hash_bits : Text → List Bool
hash_bits [] = []
hash_bits (c ∷ text) = value_bits (hex_value c) ++ hash_bits text

abbrev same : Bool → Bool → Bool
same true true = true
same false false = true
same _ _ = false

-- How many of their first items two lists share.
unfoldable pub shared : List Bool → List Bool → ℕ
shared [] ys = 0
shared (x ∷ xs) [] = 0
shared (x ∷ xs) (y ∷ ys) = let rest = shared xs ys in if same x y then suc rest else 0

abbrev pub is_hex : ℕ → Bool
is_hex c = leb 48 c && leb c 57 || leb 97 c && leb c 102

abbrev pub IsHash : Text → Type 0
IsHash = All (λ c. is_hex c ≡ true)

abbrev pub all_below : ℕ → (ℕ → Bool) → Bool
all_below zero test = true
all_below (suc last) test = all_below last test && test last

below-all_below :
    (bound : ℕ) (test : ℕ → Bool) (n : ℕ) → n < bound → all_below bound test ≡ true → test n ≡ true
below-all_below zero test n less all = absurd (omega arith)
below-all_below (suc last) test n less all = ground (arith, below-all_below last test n)

abbrev gained : ℕ → ℕ → ℕ
gained v w = (if bit_xor v w == 0 then 4 else 4 - bit_length (bit_xor v w))

-- What a pair of digits of the values `v` and `w` adds to the bits shared.
pair_agrees : ℕ → ℕ → Bool
pair_agrees v w =
    shared (value_bits v) (value_bits w) == gained v w
    && (bit_xor v w == 0 || ltb (gained v w) 4)
    && leb (bit_length (bit_xor v w)) 4

pair_table : all_below 16 (λ v. all_below 16 (pair_agrees v)) ≡ true
unfolding pair_agrees value_bits shared
pair_table = refl

pair_agrees_all : (v w : ℕ) → v < 16 → w < 16 → pair_agrees v w ≡ true
pair_agrees_all v w p q =
    below-all_below 16 (pair_agrees v) w q
      (below-all_below 16 (λ u. all_below 16 (pair_agrees u)) v p pair_table)

-- Past digits that are the same, the rest is shared; otherwise only they count.
shared-append :
    (a b xs ys : List Bool)
    → length a ≡ length b
    → shared (a ++ xs) (b ++ ys)
      ≡ (if shared a b == length a then length a + shared xs ys else shared a b)
unfolding shared
shared-append [] [] xs ys h = omega arith
shared-append [] (y ∷ b) xs ys h = absurd (omega arith)
shared-append (x ∷ a) [] xs ys h = absurd (omega arith)
shared-append (x ∷ a) (y ∷ b) xs ys h = ground (arith, shared-append a b xs ys (omega arith))

four_bits : (v : ℕ) → length (value_bits v) ≡ 4
unfolding value_bits
four_bits v = refl

length-value_bits : (v w : ℕ) → length (value_bits v) ≡ length (value_bits w)
length-value_bits v w = four_bits v ∙ sym (four_bits w)

shared_pair :
    (v w : ℕ) (xs ys : List Bool)
    → v < 16
    → w < 16
    → shared (value_bits v ++ xs) (value_bits w ++ ys)
      ≡ (if bit_xor v w == 0 then 4 + shared xs ys else 4 - bit_length (bit_xor v w))
shared_pair v w xs ys p q =
    let t : pair_agrees v w ≡ true = pair_agrees_all v w p q in
    rw (shared-append (value_bits v) (value_bits w) xs ys (length-value_bits v w))
      (unfold pair_agrees in ground (arith, t, four_bits v))

hex_value-lt : (c : ℕ) → is_hex c ≡ true → hex_value c < 16
hex_value-lt c h = ground arith

shared-nil : (xs : List Bool) → shared xs [] ≡ 0
unfolding shared
shared-nil [] = refl
shared-nil (x ∷ xs) = refl

bit_length-le : (v w : ℕ) → v < 16 → w < 16 → bit_length (bit_xor v w) ≤ 4
bit_length-le v w p q =
    let t : pair_agrees v w ≡ true = pair_agrees_all v w p q in
    unfold pair_agrees in ground (arith, t)

matching_from_lem :
    (bits : ℕ) (l r : Text)
    → IsHash l
    → IsHash r
    → matching_from bits l r ≡ bits + shared (hash_bits l) (hash_bits r)
unfolding matching_from hash_bits
matching_from_lem bits [] r hl hr = unfold shared in omega arith
matching_from_lem bits (a ∷ l) [] hl hr = omega (arith, shared-nil (hash_bits (a ∷ l)))
matching_from_lem bits (a ∷ l) (b ∷ r) hl hr =
    rw
      (shared_pair (hex_value a) (hex_value b) (hash_bits l) (hash_bits r) (hex_value-lt a hl.0)
        (hex_value-lt b hr.0))
      (ground (arith, matching_from_lem (bits + 4) l r, bit_length-le (hex_value a) (hex_value b)))

-- Of two hashes in lower-case hexadecimal, `matching_bits` is the number of leading bits shared.
pub matching_bits-eq-shared :
    (l r : Text) → IsHash l → IsHash r → matching_bits l r ≡ shared (hash_bits l) (hash_bits r)
unfolding matching_bits
matching_bits-eq-shared l r hl hr = matching_from_lem 0 l r hl hr ∙ omega arith

matching_from-le :
    (bits : ℕ) (l r : Text) → matching_from bits l r ≤ bits + bits_per_hex_digit * length l
unfolding matching_from
matching_from-le bits [] r = omega arith
matching_from-le bits (a ∷ l) [] = omega arith
matching_from-le bits (a ∷ l) (b ∷ r) = ground (arith, matching_from-le (bits + 4) l r)

-- No more bits match than the hash has.
pub matching_bits-le : (l r : Text) → matching_bits l r ≤ bits_per_hex_digit * length l
unfolding matching_bits
matching_bits-le l r = omega (arith, matching_from-le 0 l r)
