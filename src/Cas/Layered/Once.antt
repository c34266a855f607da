-- ===== src/Cas/Layered/Once.antt =====
-- That a scan over the layers gives each id once: src/libranet/cas/layered.py.
use libranet.Base.{
  ℕ, ◌≡◌, refl, Bool, true, false, not, ◌&&◌, ◌||◌, List, [], ◌∷◌, ◌++◌, arith, nat_eq,
}
use libranet.Base.Dict.{member, IsDistinct}
use libranet.Cas.Layered.{unseen, unseen_in, source_iter_prefix, Layer, LayeredSource}

unseen-member :
    (i : ℕ) (ids seen : List ℕ) → member i (unseen ids seen).1 ≡ (member i ids || member i seen)
unfolding unseen
unseen-member i [] seen = refl
unseen-member i (id ∷ ids) seen =
    ground (arith, unseen-member i ids seen, unseen-member i ids (id ∷ seen))

-- What is given of a layer is what it has that was not seen, each once.
unseen-given :
    (i : ℕ) (ids seen : List ℕ)
    → member i (unseen ids seen).0 ≡ (member i ids && not (member i seen))
unfolding unseen
unseen-given i [] seen = refl
unseen-given i (id ∷ ids) seen =
    ground (arith, unseen-given i ids seen, unseen-given i ids (id ∷ seen))

unseen-IsDistinct : (ids seen : List ℕ) → IsDistinct (unseen ids seen).0
unfolding unseen
unseen-IsDistinct [] seen = tt
unseen-IsDistinct (id ∷ ids) seen = ground (
  arith,
  unseen-given id ids (id ∷ seen),
  unseen-IsDistinct ids seen,
  unseen-IsDistinct ids (id ∷ seen),
)

-- Whether one of the layers has the id under the prefix.
abbrev pub in_layers : ℕ → ℕ → List Layer → Bool
in_layers prefix i [] = false
in_layers prefix i (layer ∷ layers) =
    member i (layer.iter_prefix prefix) || in_layers prefix i layers

member-append : (i : ℕ) (xs ys : List ℕ) → member i (xs ++ ys) ≡ (member i xs || member i ys)
member-append i [] ys = refl
member-append i (x ∷ xs) ys = ground (arith, member-append i xs ys)

append-IsDistinct :
    (xs ys : List ℕ)
    → IsDistinct xs
    → IsDistinct ys
    → ((i : ℕ) → member i xs ≡ true → member i ys ≡ false)
    → IsDistinct (xs ++ ys)
append-IsDistinct [] ys u v h = v
append-IsDistinct (x ∷ xs) ys u v h = (
  ground (arith, u.0, h x, member-append x xs ys),
  append-IsDistinct xs ys u.1 v (λ i m. h i (ground (arith, m))),
)

member-unseen_in :
    (prefix i : ℕ) (layers : List Layer) (seen : List ℕ)
    → member i (unseen_in prefix layers seen) ≡ (in_layers prefix i layers && not (member i seen))
unfolding unseen_in
member-unseen_in prefix i [] seen = refl
member-unseen_in prefix i (layer ∷ layers) seen =
    let ids : List ℕ = layer.iter_prefix prefix in
    ground (
      arith,
      member-append i (unseen ids seen).0 (unseen_in prefix layers (unseen ids seen).1),
      member-unseen_in prefix i layers (unseen ids seen).1,
      unseen-given i ids seen,
      unseen-member i ids seen,
    )

unseen_in-IsDistinct :
    (prefix : ℕ) (layers : List Layer) (seen : List ℕ) → IsDistinct (unseen_in prefix layers seen)
unfolding unseen_in
unseen_in-IsDistinct prefix [] seen = tt
unseen_in-IsDistinct prefix (layer ∷ layers) seen =
    let ids : List ℕ = layer.iter_prefix prefix in
    append-IsDistinct (unseen ids seen).0 (unseen_in prefix layers (unseen ids seen).1)
      (unseen-IsDistinct ids seen) (unseen_in-IsDistinct prefix layers (unseen ids seen).1)
      (λ i m. ground (
        arith,
        m,
        unseen-given i ids seen,
        unseen-member i ids seen,
        member-unseen_in prefix i layers (unseen ids seen).1,
      ))

-- A scan gives each id that a layer has under the prefix, no other, and none twice, however many layers have it.
pub source_iter_prefix_lem :
    (prefix : ℕ) (s : LayeredSource)
    → IsDistinct (source_iter_prefix prefix s)
      × ((i : ℕ) → member i (source_iter_prefix prefix s) ≡ in_layers prefix i (s.layers ++ s.kept))
unfolding source_iter_prefix
source_iter_prefix_lem prefix s = (
  unseen_in-IsDistinct prefix (s.layers ++ s.kept) [],
  λ i. ground (arith, member-unseen_in prefix i (s.layers ++ s.kept) []),
)
