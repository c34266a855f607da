-- ===== src/Cas/Layered/First.antt =====
-- That the layers answer as one, the first that holds the content: src/libranet/cas/layered.py.
use libranet.Base.{
  ℕ, ◌≡◌, refl, ◌↔◌, inl, inr, true, false, Option, none, some, List, [], ◌∷◌, ◌++◌, arith,
  if◌then◌else◌, Bool-cases, All, Result-cases, Error, value_error, zero_division, key_error,
  runtime_error, os_error, malformed_response, content_not_found, archive_error, Result, err,
}
use libranet.Cas.Layered.{
  any_exists, source_exists, is_not_found, read_first, source_read, Layer, LayeredSource,
}

-- A layer reads what it holds, or finds it damaged, and finds nothing else.
abbrev pub IsLayer : Layer → Type 0
IsLayer layer =
    (content_id : ℕ)
    → (layer.read content_id ≡ err content_not_found) ↔ (layer.exists content_id ≡ false)

-- The first layer that holds the content.
abbrev pub first_holding : ℕ → List Layer → Option Layer
first_holding content_id [] = none
first_holding content_id (layer ∷ layers) =
    if layer.exists content_id then some layer else first_holding content_id layers

abbrev pub read_from : ℕ → Option Layer → Result ℕ → Result ℕ
read_from content_id none after = after
read_from content_id (some layer) after = layer.read content_id

not_found_is : (e : Error) → is_not_found e ≡ true → e ≡ content_not_found
not_found_is content_not_found h = refl
not_found_is value_error h = cc
not_found_is zero_division h = cc
not_found_is key_error h = cc
not_found_is runtime_error h = cc
not_found_is os_error h = cc
not_found_is malformed_response h = cc
not_found_is archive_error h = cc

All-split : (xs ys : List Layer) → All IsLayer (xs ++ ys) → All IsLayer xs × All IsLayer ys
All-split [] ys a = (tt, a)
All-split (x ∷ xs) ys a = let (p, q) = All-split xs ys a.1 in ((a.0, p), q)

read_first_lem :
    (content_id : ℕ) (layers : List Layer) (after : Result ℕ)
    → All IsLayer layers
    → read_first content_id layers after
      ≡ read_from content_id (first_holding content_id layers) after
unfolding read_first
read_first_lem content_id [] after a = refl
read_first_lem content_id (layer ∷ layers) after a = elim (Result-cases (layer.read content_id)) [
  | inl (bytes, r) ↦ ground (arith, r, (a.0 content_id).1, Bool-cases (layer.exists content_id))
  | inr (e, r) ↦ elim (Bool-cases (layer.exists content_id)) [
    | inl t ↦ ground (arith, r, t, (a.0 content_id).0, not_found_is e)
    | inr f ↦ ground (arith, r, f, (a.0 content_id).1 f, read_first_lem content_id layers after a.1)
  ]
]

any_exists_lem :
    (content_id : ℕ) (layers : List Layer)
    → any_exists content_id layers
      ≡ (elim (first_holding content_id layers) [ none ↦ false | some layer ↦ true ])
unfolding any_exists
any_exists_lem content_id [] = refl
any_exists_lem content_id (layer ∷ layers) = ground (arith, any_exists_lem content_id layers)

first_holding-append :
    (content_id : ℕ) (xs ys : List Layer)
    → first_holding content_id (xs ++ ys) ≡ (elim (first_holding content_id xs) [
      | none ↦ first_holding content_id ys
      | some layer ↦ some layer
    ])
first_holding-append content_id [] ys = refl
first_holding-append content_id (x ∷ xs) ys = ground (arith, first_holding-append content_id xs ys)

-- Where each layer finds what it holds and nothing else, the layers read as one: what is read is what the first layer that
-- holds the content reads of it, be it damaged, and it is not found where none holds it; and it exists in them where one
-- does. No archive shadows what the layers before it hold.
pub source_read_lem :
    (content_id : ℕ) (s : LayeredSource)
    → All IsLayer (s.layers ++ s.kept)
    → (source_read content_id s
        ≡ read_from content_id
            (first_holding content_id (s.layers ++ s.kept))
            (err content_not_found))
      × (source_exists content_id s ≡ (elim (first_holding content_id (s.layers ++ s.kept)) [
        | none ↦ false
        | some layer ↦ true
      ]))
unfolding source_read source_exists
source_read_lem content_id s a = (
  ground (
    arith,
    read_first_lem content_id s.layers (read_first content_id s.kept (err content_not_found))
        (All-split s.layers s.kept a).0,
    read_first_lem content_id s.kept (err content_not_found) (All-split s.layers s.kept a).1,
    first_holding-append content_id s.layers s.kept,
  ),
  ground (
    arith,
    any_exists_lem content_id s.layers,
    any_exists_lem content_id s.kept,
    first_holding-append content_id s.layers s.kept,
  ),
)
