-- ===== src/Karma/History/Stored.antt =====
-- What is read of a history's files however many of the writes of a replacement reached them:
-- src/libranet/karma/history.py.
use mathlib.Core.List.{append-nil}
use libranet.Base.{
  ℕ, zero, suc, ◌+◌, ◌≤◌, ◌<◌, ◌≡◌, refl, ap, ◌∙◌, inl, inr, Option, none, some, List, [], ◌∷◌,
  ◌++◌, arith, Option-cases, nat_eq, length, take,
}
use libranet.Base.Dict.{lookup, lookup-insert, lookup-delete}
use libranet.Karma.History.{
  empty_history, validations, write_each, delete_each, lines_of, write, write_all, agreeing,
  read_agreeing, open_history, ChainGeneration, ChainHistory, Files, Write, write_generation,
  delete_generation,
}
use libranet.Karma.History.Known.{Numbered}
use libranet.Karma.History.Replaced.{extend-IsHistory, generations-extend, IsHistory}

-- Each of the generations is in its file.
abbrev pub StoredIn : Files → List ChainGeneration → Type 0
StoredIn f [] = Unit
StoredIn f (g ∷ gs) = (lookup g.generation f.stored ≡ some g) × StoredIn f gs

-- The files are those of the history.
pub record IsKept (h : ChainHistory) (f : Files) : Type 0 where
  pub stored : StoredIn f h.generations
  pub listed : f.genealogy ≡ lines_of (validations h.generations)

-- The files agree on the generations before `n`.
abbrev pub AgreeBelow : ℕ → Files → Files → Type 0
AgreeBelow n f f' = (k : ℕ) → k < n → lookup k f'.stored ≡ lookup k f.stored

pub StoredIn-agree :
    (p n : ℕ) (gs : List ChainGeneration) (f f' : Files)
    → p + length gs ≤ n
    → Numbered p gs
    → AgreeBelow n f f'
    → StoredIn f gs
    → StoredIn f' gs
StoredIn-agree p n [] f f' l u a s = tt
StoredIn-agree p n (g ∷ gs) f f' l u a s = (
  a g.generation (omega (arith, u.0)) ∙ s.0,
  StoredIn-agree (p + 1) n gs f f' (omega arith) u.1 a s.1,
)

pub write_each-below :
    (m : ℕ) (gs : List ChainGeneration) (f : Files)
    → Numbered m gs
    → AgreeBelow m f (write_all (write_each gs) f)
unfolding write_all write
write_each-below m [] f u k l = refl
write_each-below m (g ∷ gs) f u k l = ground (
  arith,
  write_each-below (m + 1) gs (write (write_generation g) f) u.1 k,
  lookup-insert g.generation k g f.stored,
)

pub write_each-StoredIn :
    (m : ℕ) (gs : List ChainGeneration) (f : Files)
    → Numbered m gs
    → StoredIn (write_all (write_each gs) f) gs
unfolding write_all write
write_each-StoredIn m [] f u = tt
write_each-StoredIn m (g ∷ gs) f u = (
  ground (
    arith,
    write_each-below (m + 1) gs (write (write_generation g) f) u.1 g.generation,
    lookup-insert g.generation g.generation g f.stored,
  ),
  write_each-StoredIn (m + 1) gs (write (write_generation g) f) u.1,
)

pub genealogy-write_each :
    (gs : List ChainGeneration) (f : Files) → (write_all (write_each gs) f).genealogy ≡ f.genealogy
unfolding write_all write
genealogy-write_each [] f = refl
genealogy-write_each (g ∷ gs) f = genealogy-write_each gs (write (write_generation g) f)

pub delete_each-below :
    (j from count : ℕ) (f : Files)
    → AgreeBelow from f (write_all (take j (delete_each from count)) f)
unfolding write_all write
delete_each-below zero from count f k l = refl
delete_each-below (suc j) from zero f k l = refl
delete_each-below (suc j) from (suc count) f k l = ground (
  arith,
  delete_each-below j (from + 1) count (write (delete_generation from) f) k,
  lookup-delete from k f.stored,
)

pub genealogy-delete_each :
    (j from count : ℕ) (f : Files)
    → (write_all (take j (delete_each from count)) f).genealogy ≡ f.genealogy
unfolding write_all write
genealogy-delete_each zero from count f = refl
genealogy-delete_each (suc j) from zero f = refl
genealogy-delete_each (suc j) from (suc count) f =
    genealogy-delete_each j (from + 1) count (write (delete_generation from) f)

pub write_all-append :
    (xs ys : List Write) (f : Files) → write_all (xs ++ ys) f ≡ write_all ys (write_all xs f)
unfolding write_all
write_all-append [] ys f = refl
write_all-append (x ∷ xs) ys f = write_all-append xs ys (write x f)

pub take-write_each :
    (n : ℕ) (gs : List ChainGeneration) → take n (write_each gs) ≡ write_each (take n gs)
take-write_each zero gs = refl
take-write_each (suc n) [] = refl
take-write_each (suc n) (g ∷ gs) = rw (take-write_each n gs)

pub length-write_each : (gs : List ChainGeneration) → length (write_each gs) ≡ length gs
length-write_each [] = refl
length-write_each (g ∷ gs) = omega (arith, length-write_each gs)

agreeing_lem :
    (n : ℕ) (x : ChainGeneration) (f : Files)
    → x.generation ≡ n
    → lookup x.generation f.stored ≡ some x
    → agreeing n (some x.validation) f ≡ some x
unfolding agreeing
agreeing_lem n x f e s = ground (arith, e, s, x.validation)

pub StoredIn-take :
    (n : ℕ) (gs : List ChainGeneration) (f : Files) → StoredIn f gs → StoredIn f (take n gs)
StoredIn-take zero gs f s = tt
StoredIn-take (suc n) [] f s = tt
StoredIn-take (suc n) (g ∷ gs) f s = (s.0, StoredIn-take n gs f s.1)

pub StoredIn-append :
    (xs ys : List ChainGeneration) (f : Files)
    → StoredIn f xs
    → StoredIn f ys
    → StoredIn f (xs ++ ys)
StoredIn-append [] ys f s t = t
StoredIn-append (x ∷ xs) ys f s t = (s.0, StoredIn-append xs ys f s.1 t)

-- Generations that are stored are read as far as they go.
read_agreeing-append :
    (n m : ℕ) (xs ys : List ChainGeneration) (f : Files)
    → n + length xs ≡ m
    → Numbered n xs
    → StoredIn f xs
    → (read_agreeing n (lines_of (validations (xs ++ ys))) f).0
      ≡ xs ++ (read_agreeing m (lines_of (validations ys)) f).0
unfolding read_agreeing
read_agreeing-append n m [] ys f e u s = let q : n ≡ m = omega arith in rw q
read_agreeing-append n m (x ∷ xs) ys f e u s =
    rw (agreeing_lem n x f u.0 s.0, read_agreeing)
      (rw (read_agreeing-append (n + 1) m xs ys f (omega arith) u.1 s.1) refl)

abbrev pub opened : Files → List ChainGeneration
opened f = (open_history f).0.generations

opened_lem : (f : Files) → opened f ≡ (read_agreeing 0 f.genealogy f).0
unfolding open_history
opened_lem f = generations-extend (read_agreeing 0 f.genealogy f).0 empty_history

pub opened-append :
    (xs ys : List ChainGeneration) (f : Files)
    → Numbered 0 xs
    → StoredIn f xs
    → f.genealogy ≡ lines_of (validations (xs ++ ys))
    → opened f ≡ xs ++ (read_agreeing (length xs) (lines_of (validations ys)) f).0
opened-append xs ys f u s e =
    opened_lem f
    ∙ ap (λ (lines : List (Option ℕ)). (read_agreeing 0 lines f).0) e
    ∙ read_agreeing-append 0 (length xs) xs ys f (omega arith) u s

pub opened-IsKept :
    (h : ChainHistory) (f : Files)
    → Numbered 0 h.generations
    → IsKept h f
    → opened f ≡ h.generations
unfolding read_agreeing
opened-IsKept h f u k =
    opened-append h.generations [] f u k.stored (rw append-nil k.listed) ∙ append-nil h.generations

generation-agreeing :
    (n : ℕ) (line : Option ℕ) (f : Files) (g : ChainGeneration)
    → agreeing n line f ≡ some g
    → g.generation ≡ n
unfolding agreeing
generation-agreeing n none f g a = cc
generation-agreeing n (some v) f g a = ground arith

read_agreeing-Numbered :
    (n : ℕ) (lines : List (Option ℕ)) (f : Files) → Numbered n (read_agreeing n lines f).0
unfolding read_agreeing
read_agreeing-Numbered n [] f = tt
read_agreeing-Numbered n (line ∷ lines) f = elim (Option-cases (agreeing n line f)) [
  | inl e ↦ rw (e, read_agreeing) tt
  | inr (g, e) ↦
      rw (e, read_agreeing)
        (generation-agreeing n line f g e, read_agreeing-Numbered (n + 1) lines f)
]

-- Whatever its files hold, a history that is opened is numbered from 0, and knows each key and each witness by the earliest of its generations that holds it.
pub open_history-IsHistory : (f : Files) → IsHistory (open_history f).0
unfolding open_history
open_history-IsHistory f =
    extend-IsHistory (read_agreeing 0 f.genealogy f).0 empty_history
      (read_agreeing-Numbered 0 f.genealogy f)
      (record { numbered = tt; keys_known = λ k. refl; witnesses_known = λ k. refl })

-- The files after the first `n` of the writes of a replacement.
abbrev pub cut : ℕ → List Write → Files → Files
cut n ws f = write_all (take n ws) f
