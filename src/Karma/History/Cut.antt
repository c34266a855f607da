-- ===== src/Karma/History/Cut.antt =====
-- That a replacement cut short between its writes leaves the generations before it, or all of it:
-- src/libranet/karma/history.py.
use libranet.Base.{
  ℕ, zero, suc, ◌+◌, ◌-◌, ◌≤◌, ◌<◌, ◌≡◌, refl, sym, ap, ◌∙◌, ◌⊎◌, inl, inr, Option, List, ◌∷◌, ◌++◌,
  arith, leb, leb→le, Bool-cases, length, take, drop, take-append-drop, length-take, take-within,
  take-beyond, ok,
}
use mathlib.Core.List.{append-nil}
use libranet.Karma.History.{
  head, validations, write_each, delete_each, replace, lines_of, write, write_all, read_agreeing,
  ChainGeneration, ChainHistory, Files, Write, write_genealogy, write_head,
}
use libranet.Karma.History.Known.{Numbered, Numbered-take, follow-Numbered}
use libranet.Karma.History.Replaced.{replace_lem, replace-IsHistory, IsHistory}
use libranet.Karma.History.Stored.{
  StoredIn, AgreeBelow, StoredIn-agree, write_each-below, write_each-StoredIn, genealogy-write_each,
  delete_each-below, genealogy-delete_each, write_all-append, take-write_each, length-write_each,
  StoredIn-take, StoredIn-append, opened, opened-append, opened-IsKept, cut, IsKept,
}

cut_within :
    (n : ℕ) (ps : List ChainGeneration) (ws : List Write) (f : Files)
    → n ≤ length ps
    → cut n (write_each ps ++ ws) f ≡ write_all (write_each (take n ps)) f
cut_within n ps ws f l =
    rw
      (take-within n (write_each ps) ws (omega (arith, length-write_each ps)), take-write_each n ps)
      refl

cut_beyond :
    (n j : ℕ) (ps : List ChainGeneration) (w : Write) (ws : List Write) (f : Files)
    → length ps + suc j ≡ n
    → cut n (write_each ps ++ (w ∷ ws)) f
      ≡ write_all (take j ws) (write w (write_all (write_each ps) f))
unfolding write_all
cut_beyond n j ps w ws f e =
    rw
      (
        take-beyond n (suc j) (write_each ps) (w ∷ ws) (omega (arith, length-write_each ps)),
        write_all-append (write_each ps) (w ∷ take j ws) f,
      )
      refl

-- What a replacement writes after the genealogy, the head and the generations deleted.
abbrev last_writes : Option ChainGeneration → ℕ → ℕ → List Write
last_writes g from count = write_head g ∷ delete_each from count

last_writes-below :
    (j : ℕ) (g : Option ChainGeneration) (from count : ℕ) (f : Files)
    → AgreeBelow from f (write_all (take j (last_writes g from count)) f)
unfolding write_all write
last_writes-below zero g from count f k l = refl
last_writes-below (suc j) g from count f k l =
    delete_each-below j from count (write (write_head g) f) k l

genealogy-last_writes :
    (j : ℕ) (g : Option ChainGeneration) (from count : ℕ) (f : Files)
    → (write_all (take j (last_writes g from count)) f).genealogy ≡ f.genealogy
unfolding write_all write
genealogy-last_writes zero g from count f = refl
genealogy-last_writes (suc j) g from count f =
    genealogy-delete_each j from count (write (write_head g) f)

-- Generations written leave those before them in their files.
older-StoredIn :
    (m : ℕ) (h : ChainHistory) (f : Files) (ps : List ChainGeneration)
    → m ≤ length h.generations
    → IsHistory h
    → IsKept h f
    → Numbered m ps
    → StoredIn (write_all (write_each ps) f) (take m h.generations)
older-StoredIn m h f ps l i k u =
    StoredIn-agree 0 m (take m h.generations) f (write_all (write_each ps) f)
      (omega (arith, length-take m h.generations l)) (Numbered-take 0 m h.generations i.numbered)
      (write_each-below m ps f u) (StoredIn-take m h.generations f k.stored)

module _ (g : ChainGeneration) (gs : List ChainGeneration) (h next : ChainHistory) (ws : List Write)
    (f : Files) where
  -- Cut before the genealogy is written, the files still open to the generations before the first replaced.
  pub opened-cut_before :
      (n : ℕ)
      → IsHistory h
      → IsKept h f
      → replace g gs h ≡ ok (next, ws)
      → n ≤ length (g ∷ gs)
      → take g.generation (opened (cut n ws f)) ≡ take g.generation h.generations
  opened-cut_before n i k r l =
      let (t, w, q, e) = replace_lem g gs h next ws r in
      let first : g.generation ≤ length h.generations =
        leb→le g.generation (length h.generations) t in
      let new : Numbered g.generation (g ∷ gs) = follow-Numbered (g ∷ gs) g.generation w in
      let xs : List ChainGeneration = take g.generation h.generations in
      let ys : List ChainGeneration = drop g.generation h.generations in
      let f' : Files = write_all (write_each (take n (g ∷ gs))) f in
      let kept : length xs ≡ g.generation = length-take g.generation h.generations first in
      let reached : cut n ws f ≡ f' = rw (sym e) (cut_within n (g ∷ gs) _ f l) in
      let stored : StoredIn f' xs =
        older-StoredIn g.generation h f (take n (g ∷ gs)) first i k
          (Numbered-take g.generation n (g ∷ gs) new) in
      let listed : f'.genealogy ≡ lines_of (validations (xs ++ ys)) =
        genealogy-write_each (take n (g ∷ gs)) f
        ∙ (rw (take-append-drop g.generation h.generations) k.listed) in
      let rest : List ChainGeneration =
        (read_agreeing (length xs) (lines_of (validations ys)) f').0 in
      rw
        (
          reached,
          opened-append xs ys f' (Numbered-take 0 g.generation h.generations i.numbered) stored
              listed,
        )
        (take-beyond g.generation 0 xs rest (omega (arith, kept)) ∙ append-nil xs)

  -- Cut at any point after, the files are those of the new history.
  pub cut_after-IsKept :
      (n : ℕ)
      → IsHistory h
      → IsKept h f
      → replace g gs h ≡ ok (next, ws)
      → length (g ∷ gs) < n
      → IsKept next (cut n ws f)
  unfolding write
  cut_after-IsKept n i k r l =
      let (t, w, q, e) = replace_lem g gs h next ws r in
      let first : g.generation ≤ length h.generations =
        leb→le g.generation (length h.generations) t in
      let new : Numbered g.generation (g ∷ gs) = follow-Numbered (g ∷ gs) g.generation w in
      let xs : List ChainGeneration = take g.generation h.generations in
      let f₁ : Files = write_all (write_each (g ∷ gs)) f in
      let f₂ : Files = write (write_genealogy (validations (xs ++ (g ∷ gs)))) f₁ in
      let j : ℕ = n - suc (length (g ∷ gs)) in
      let f₃ : Files =
        write_all
          (take j (
            last_writes (head next) (length next.generations)
              (length h.generations - length next.generations)))
          f₂ in
      let reached : cut n ws f ≡ f₃ = rw (sym e) (cut_beyond n j (g ∷ gs) _ _ f (omega arith)) in
      let held : next.generations ≡ xs ++ (g ∷ gs) = (replace-IsHistory g gs h next ws i r).0 in
      let before : StoredIn f₁ xs = older-StoredIn g.generation h f (g ∷ gs) first i k new in
      let stored₂ : StoredIn f₂ (xs ++ (g ∷ gs)) =
        StoredIn-append xs (g ∷ gs) f₁ before (write_each-StoredIn g.generation (g ∷ gs) f new) in
      let numbered : Numbered 0 next.generations =
        (replace-IsHistory g gs h next ws i r).1.numbered in
      rw reached (record {
        stored =
            StoredIn-agree 0 (length next.generations) next.generations f₂ f₃ (omega arith) numbered
              (last_writes-below j (head next) (length next.generations)
                (length h.generations - length next.generations) f₂)
              (rw held stored₂);
        listed =
            genealogy-last_writes j (head next) (length next.generations)
              (length h.generations - length next.generations) f₂
            ∙ ap (λ (x : List ChainGeneration). lines_of (validations x)) (sym held);
      })

  -- Where the files keep a history that is numbered and knows its keys and witnesses, and a replacement is not refused,
  -- its writes may be cut short anywhere: opening the files then gives the generations before the first replaced as they
  -- were, if the genealogy is not written yet, and otherwise the generations of the new history, all of them.
  pub opened-cut :
      (n : ℕ)
      → IsHistory h
      → IsKept h f
      → replace g gs h ≡ ok (next, ws)
      → ((n ≤ length (g ∷ gs))
          × (take g.generation (opened (cut n ws f)) ≡ take g.generation h.generations))
        ⊎ ((length (g ∷ gs) < n) × (opened (cut n ws f) ≡ next.generations))
  opened-cut n i k r = elim (Bool-cases (leb n (length (g ∷ gs)))) [
    | inl t ↦
        let l : n ≤ length (g ∷ gs) = leb→le n (length (g ∷ gs)) t in
        inl (l, opened-cut_before n i k r l)
    | inr e ↦
        let l : length (g ∷ gs) < n = ground arith in
        inr (
          l,
          opened-IsKept next (cut n ws f) (replace-IsHistory g gs h next ws i r).1.numbered
              (cut_after-IsKept n i k r l),
        )
  ]
