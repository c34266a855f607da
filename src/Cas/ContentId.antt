-- ===== src/Cas/ContentId.antt =====
-- Content identifiers: src/libranet/cas/content_id.py.
use libranet.Base.{
  ℕ, ◌+◌, ◌-◌, ◌*◌, ◌/◌, ◌^◌, ◌≡◌, refl, ◌↔◌, Bool, true, ◌&&◌, [], ◌∷◌, arith, Eq, take, ceil_div,
}
use libranet.Decimal.{Text}
use libranet.Json.{text_eq}
use libranet.Cas.Prefix.{bits_per_hex_digit, hex_value}

-- `ContentId`
pub record ContentId : Type 0 where
  pub algorithm : Text
  pub hash : Text

-- `int(text, 16)` of a text of hexadecimal digits, read on from `n`
unfoldable pub int16_from : ℕ → Text → ℕ
int16_from n [] = n
int16_from n (c ∷ text) = int16_from (n * 16 + hex_value c) text

-- `ContentId.bucket`, of at least one bit
unfoldable pub bucket : ContentId → ℕ → ℕ
unfolding int16_from
bucket id bits =
    let digits : ℕ = ceil_div bits bits_per_hex_digit in
    int16_from 0 (take digits id.hash) / 2 ^ (digits * bits_per_hex_digit - bits)

abbrev pub id_eq : ContentId → ContentId → Bool
id_eq a b = text_eq a.algorithm b.algorithm && text_eq a.hash b.hash

text_eq_iff : (s t : Text) → (text_eq s t ≡ true) ↔ (s ≡ t)
text_eq_iff [] [] = (λ h. refl, λ h. refl)
text_eq_iff [] (d ∷ t) = (λ h. cc, λ h. cc)
text_eq_iff (c ∷ s) [] = (λ h. cc, λ h. cc)
text_eq_iff (c ∷ s) (d ∷ t) =
    (λ h. ground (arith, text_eq_iff s t), λ h. ground (arith, text_eq_iff s t))

pub id_eq_iff : (a b : ContentId) → (id_eq a b ≡ true) ↔ (a ≡ b)
id_eq_iff a b = (
  λ h. ground (arith, text_eq_iff a.algorithm b.algorithm, text_eq_iff a.hash b.hash),
  λ h. ground (arith, h, text_eq_iff a.algorithm b.algorithm, text_eq_iff a.hash b.hash),
)

instance abbrev pub content_id_eq : Eq ContentId
content_id_eq = record { beq = id_eq; beq_iff = id_eq_iff }
