-- ===== src/Json.antt =====
-- The values that `json.loads` gives, and the readers of src/libranet/json_fields.py.
use libranet.Base.{
  ℕ, ◌≡◌, refl, inl, inr, Bool, true, false, ◌&&◌, Option, none, some, [], ◌∷◌, arith, ◌==◌,
  if◌then◌else◌, Bool-cases, value_error, Result, ok, err,
}
use libranet.Decimal.{Text, str, int, is_decimal, int-str, str-int, str-is_decimal}

-- A number with a fraction is not read by any of the readers, so only that it is one is kept; a
-- whole number is its sign and its size.
mutual
  pub data Json : Type 0 where
    null : Json
    boolean : Bool → Json
    integer : Bool → ℕ → Json
    real : Json
    string : Text → Json
    items : Items → Json
    members : Members → Json

  pub data Items : Type 0 where
    end : Items
    item : Json → Items → Items

  pub data Members : Type 0 where
    done : Members
    member_of : Text → Json → Members → Members

abbrev pub text_eq : Text → Text → Bool
text_eq [] [] = true
text_eq [] (d ∷ t) = false
text_eq (c ∷ s) [] = false
text_eq (c ∷ s) (d ∷ t) = c == d && text_eq s t

-- `value.get(key)` of an object
unfoldable pub get_member : Text → Members → Option Json
get_member key done = none
get_member key (member_of name value rest) =
    if text_eq name key then some value else get_member key rest

-- `decimal_count`
unfoldable pub decimal_count : Json → Result ℕ
decimal_count (string s) = if is_decimal s then int s else err value_error
decimal_count _ = err value_error

-- A count that is written is read back.
pub decimal_count-str : (n : ℕ) (s : Text) → str n ≡ ok s → decimal_count (string s) ≡ ok n
unfolding decimal_count
decimal_count-str n s h = rw (str-is_decimal n s h) (int-str n s h)

-- A count is written in one way only: what is read is what would be written.
pub str-decimal_count :
    (value : Json) (n : ℕ)
    → decimal_count value ≡ ok n
    → (s : Text) × (value ≡ string s) × (str n ≡ ok s)
unfolding decimal_count
str-decimal_count (string s) n h = elim (Bool-cases (is_decimal s)) [
  | inl d ↦ (s, refl, str-int n s d (rw d at h))
  | inr d ↦ absurd (ground arith)
]
str-decimal_count null n h = cc
str-decimal_count (boolean b) n h = cc
str-decimal_count (integer b k) n h = cc
str-decimal_count real n h = cc
str-decimal_count (items xs) n h = cc
str-decimal_count (members ms) n h = cc
