-- ===== src/Base/Sorted.antt =====
-- Sorted lists of numbers, each once: Python's `sorted(set(ns))`.
use libranet.Base.Tests.{ltb, ◌==◌, if◌then◌else◌, nat_eq}
use libranet.Base.Dict.{member}
use Prim.Native.Nat.{ℕ}
use mathlib.Core.Path.{◌≡◌, refl, sym, ap, ◌∙◌}
use mathlib.Core.Bool.{false, ◌||◌}
use mathlib.Core.List.{List, [], ◌∷◌}
use native.Mathlib.Omega.{arith}

unfoldable pub insert_once : ℕ → List ℕ → List ℕ
insert_once m [] = m ∷ []
insert_once m (n ∷ ns) =
    let rest = insert_once m ns in
    if m == n then n ∷ ns else if ltb m n then m ∷ n ∷ ns else n ∷ rest

unfoldable pub sorted_set : List ℕ → List ℕ
unfolding insert_once
sorted_set [] = []
sorted_set (m ∷ ms) = insert_once m (sorted_set ms)

member-insert_once : (m n : ℕ) (ms : List ℕ) → member n (insert_once m ms) ≡ (m == n || member n ms)
unfolding insert_once
member-insert_once m n [] = refl
member-insert_once m n (k ∷ ms) = ground (arith, member-insert_once m n ms)

pub member-sorted_set : (n : ℕ) (ms : List ℕ) → member n (sorted_set ms) ≡ member n ms
unfolding sorted_set
member-sorted_set n [] = refl
member-sorted_set n (m ∷ ms) =
    ground (arith, member-insert_once m n (sorted_set ms), member-sorted_set n ms)

-- Where nothing is sorted, nothing was there.
pub sorted_set_empty : (n : ℕ) (ms : List ℕ) → sorted_set ms ≡ [] → member n ms ≡ false
sorted_set_empty n ms h = sym (member-sorted_set n ms) ∙ ap (member n) h
