-- ===== src/Cas/Layered.antt =====
-- Content read from a store, and then from archives: `LayeredSource` of src/libranet/cas/layered.py. What a layer does
-- with its files is an interface; the archives kept are those found as they are looked at.
pub mod First
pub mod Once
use libranet.Base.{
  ℕ, Bool, true, false, ◌||◌, List, [], ◌∷◌, ◌++◌, if◌then◌else◌, nat_eq, Error, value_error,
  zero_division, key_error, runtime_error, os_error, malformed_response, content_not_found,
  archive_error, Result, ok, err,
}
use libranet.Base.Dict.{member}

-- A `CasStore`, or an `ArchiveSource`: an id is a number, and so is what is read.
pub record Layer : Type 0 where
  pub exists : ℕ → Bool
  pub read : ℕ → Result ℕ
  pub iter_prefix : ℕ → List ℕ

-- `LayeredSource`
pub record LayeredSource : Type 0 where
  pub layers : List Layer
  pub kept : List Layer

unfoldable pub any_exists : ℕ → List Layer → Bool
any_exists content_id [] = false
any_exists content_id (layer ∷ layers) = layer.exists content_id || any_exists content_id layers

-- `exists`
unfoldable pub source_exists : ℕ → LayeredSource → Bool
unfolding any_exists
source_exists content_id s = any_exists content_id s.layers || any_exists content_id s.kept

abbrev pub is_not_found : Error → Bool
is_not_found content_not_found = true
is_not_found value_error = false
is_not_found zero_division = false
is_not_found key_error = false
is_not_found runtime_error = false
is_not_found os_error = false
is_not_found malformed_response = false
is_not_found archive_error = false

-- The first answer of the layers but that it is not found, and what comes after if there is none.
unfoldable pub read_first : ℕ → List Layer → Result ℕ → Result ℕ
read_first content_id [] after = after
read_first content_id (layer ∷ layers) after =
    let rest = read_first content_id layers after in
    elim (layer.read content_id) [
      | ok bytes ↦ ok bytes
      | err e ↦ if is_not_found e then rest else err e
    ]

-- `read`
unfoldable pub source_read : ℕ → LayeredSource → Result ℕ
unfolding read_first
source_read content_id s =
    read_first content_id s.layers (read_first content_id s.kept (err content_not_found))

-- The ids of one layer not seen, each once, and those seen then.
unfoldable pub unseen : List ℕ → List ℕ → List ℕ × List ℕ
unseen [] seen = ([], seen)
unseen (id ∷ ids) seen =
    let (given, all) = unseen ids (if member id seen then seen else id ∷ seen) in
    (if member id seen then given else id ∷ given, all)

unfoldable pub unseen_in : ℕ → List Layer → List ℕ → List ℕ
unfolding unseen
unseen_in prefix [] seen = []
unseen_in prefix (layer ∷ layers) seen =
    let (given, all) = unseen (layer.iter_prefix prefix) seen in
    given ++ unseen_in prefix layers all

-- `iter_prefix`
unfoldable pub source_iter_prefix : ℕ → LayeredSource → List ℕ
unfolding unseen_in
source_iter_prefix prefix s = unseen_in prefix (s.layers ++ s.kept) []
