-- ===== src/Karma/History/Known.antt =====
-- That a history knows each key, and each witness, by the earliest generation that holds it:
-- src/libranet/karma/history.py.
use libranet.Base.{
  ℕ, zero, suc, ◌+◌, ◌≤◌, ◌<◌, ◌≡◌, refl, sym, ap, ◌∙◌, inl, inr, true, ◌&&◌, Option, none, some,
  List, [], ◌∷◌, ◌++◌, arith, ◌==◌, if◌then◌else◌, Bool-cases, Option-cases, nat_eq, Eq, length,
  take, drop, take-append-drop, length-take,
}
use libranet.Base.Dict.{
  Dict, lookup, set_default, delete, member, lookup-set_default, lookup-delete,
}
use libranet.Karma.History.{know, unknow, follow, ChainGeneration}

-- Generations that follow one another, the first numbered `n`.
abbrev pub Numbered : ℕ → List ChainGeneration → Type 0
Numbered n [] = Unit
Numbered n (g ∷ gs) = (g.generation ≡ n) × Numbered (n + 1) gs

-- The first of two that is there.
abbrev pub first_of : Option ℕ → Option ℕ → Option ℕ
first_of none b = b
first_of (some a) b = some a

pub Numbered-append :
    (n m : ℕ) (xs ys : List ChainGeneration)
    → n + length xs ≡ m
    → Numbered n xs
    → Numbered m ys
    → Numbered n (xs ++ ys)
Numbered-append n m [] ys e h k = let q : n ≡ m = omega arith in rw q k
Numbered-append n m (x ∷ xs) ys e h k = (h.0, Numbered-append (n + 1) m xs ys (omega arith) h.1 k)

pub Numbered-take : (n m : ℕ) (gs : List ChainGeneration) → Numbered n gs → Numbered n (take m gs)
Numbered-take n zero gs h = tt
Numbered-take n (suc m) [] h = tt
Numbered-take n (suc m) (g ∷ gs) h = (h.0, Numbered-take (n + 1) m gs h.1)

pub Numbered-drop :
    (n m k : ℕ) (gs : List ChainGeneration)
    → n + m ≡ k
    → m ≤ length gs
    → Numbered n gs
    → Numbered k (drop m gs)
Numbered-drop n zero k gs e l h = let q : k ≡ n = omega arith in rw q h
Numbered-drop n (suc m) k [] e l h = absurd (omega arith)
Numbered-drop n (suc m) k (g ∷ gs) e l h =
    Numbered-drop (n + 1) m k gs (omega arith) (omega arith) h.1

pub follow-Numbered : (gs : List ChainGeneration) (n : ℕ) → follow gs n ≡ true → Numbered n gs
unfolding follow
follow-Numbered [] n h = tt
follow-Numbered (g ∷ gs) n h = ground (arith, follow-Numbered gs (n + 1))

module _ {K : Type 0} ⦃e : Eq K⦄ (held : ChainGeneration → List K) where
  -- The earliest of the generations that holds `k`.
  abbrev pub earliest : K → List ChainGeneration → Option ℕ
  earliest k [] = none
  earliest k (g ∷ gs) = if member k (held g) then some g.generation else earliest k gs

  abbrev pub index : List ChainGeneration → Dict K ℕ → Dict K ℕ
  index [] known = known
  index (g ∷ gs) known = index gs (know (held g) g.generation known)

  abbrev pub unindex : List ChainGeneration → Dict K ℕ → Dict K ℕ
  unindex [] known = known
  unindex (g ∷ gs) known = unindex gs (unknow (held g) g.generation known)

  pub earliest-append :
      (k : K) (xs ys : List ChainGeneration)
      → earliest k (xs ++ ys) ≡ first_of (earliest k xs) (earliest k ys)
  earliest-append k [] ys = refl
  earliest-append k (x ∷ xs) ys = ground (arith, earliest-append k xs ys)

  pub earliest-lt :
      (k : K) (n w : ℕ) (gs : List ChainGeneration)
      → Numbered n gs
      → earliest k gs ≡ some w
      → w < n + length gs
  earliest-lt k n w [] h q = cc
  earliest-lt k n w (g ∷ gs) h q = ground (arith, earliest-lt k (n + 1) w gs h.1)

  lookup-know :
      (k : K) (ks : List K) (g : ℕ) (known : Dict K ℕ)
      → lookup k (know ks g known)
        ≡ first_of (lookup k known) (if member k ks then some g else none)
  unfolding know
  lookup-know k [] g known = ground (arith, Option-cases (lookup k known))
  lookup-know k (j ∷ ks) g known = ground (
    arith,
    e.beq_iff j k,
    Option-cases (lookup k known),
    lookup-know k ks g (set_default j g known),
    lookup-set_default j k g known,
  )

  pub lookup-index :
      (k : K) (gs : List ChainGeneration) (known : Dict K ℕ)
      → lookup k (index gs known) ≡ first_of (lookup k known) (earliest k gs)
  lookup-index k [] known = ground (arith, Option-cases (lookup k known))
  lookup-index k (g ∷ gs) known = ground (
    arith,
    Option-cases (lookup k known),
    lookup-index k gs (know (held g) g.generation known),
    lookup-know k (held g) g.generation known,
  )

  -- What is known by a generation is forgotten where it holds it, and nothing else is.
  unknow_one :
      (j k : K) (g : ℕ) (known : Dict K ℕ)
      → lookup k (elim (lookup j known) [
        | none ↦ known
        | some w ↦ if w == g then delete j known else known
      ])
        ≡ (elim (lookup k known) [
          | none ↦ none
          | some w ↦ if w == g && e.beq j k then none else some w
        ])
  unknow_one j k g known = elim (Option-cases (lookup j known)) [
    | inl n ↦ ground (arith, n, e.beq_iff j k, Option-cases (lookup k known))
    | inr (w, s) ↦
        ground (arith, s, e.beq_iff j k, lookup-delete j k known, Option-cases (lookup k known))
  ]

  lookup-unknow :
      (k : K) (ks : List K) (g : ℕ) (known : Dict K ℕ)
      → lookup k (unknow ks g known) ≡ (elim (lookup k known) [
        | none ↦ none
        | some w ↦ if w == g && member k ks then none else some w
      ])
  unfolding unknow
  lookup-unknow k [] g known = ground (arith, Option-cases (lookup k known))
  lookup-unknow k (j ∷ ks) g known = ground (
    arith,
    e.beq_iff j k,
    Option-cases (lookup k known),
    unknow_one j k g known,
    lookup-unknow k ks g (elim (lookup j known) [
      | none ↦ known
      | some w ↦ if w == g then delete j known else known
    ]),
  )

  unindex-none :
      (k : K) (gs : List ChainGeneration) (known : Dict K ℕ)
      → lookup k known ≡ none
      → lookup k (unindex gs known) ≡ none
  unindex-none k [] known h = h
  unindex-none k (g ∷ gs) known h =
      unindex-none k gs (unknow (held g) g.generation known)
        (ground (arith, h, lookup-unknow k (held g) g.generation known))

  pub unindex_below :
      (k : K) (n w : ℕ) (gs : List ChainGeneration) (known : Dict K ℕ)
      → Numbered n gs
      → w < n
      → lookup k known ≡ some w
      → lookup k (unindex gs known) ≡ some w
  unindex_below k n w [] known u l h = h
  unindex_below k n w (g ∷ gs) known u l h =
      unindex_below k (n + 1) w gs (unknow (held g) g.generation known) u.1 (omega arith)
        (ground (arith, h, lookup-unknow k (held g) g.generation known))

  pub unindex-earliest :
      (k : K) (gs : List ChainGeneration) (known : Dict K ℕ)
      → lookup k known ≡ earliest k gs
      → lookup k (unindex gs known) ≡ none
  unindex-earliest k [] known h = h
  unindex-earliest k (g ∷ gs) known h = elim (Bool-cases (member k (held g))) [
    | inl t ↦
        unindex-none k gs (unknow (held g) g.generation known)
          (ground (arith, h, t, lookup-unknow k (held g) g.generation known))
    | inr f ↦ unindex-earliest k gs (unknow (held g) g.generation known) (
        ground
          (arith, h, f, Option-cases (lookup k known), lookup-unknow k (held g) g.generation known))
  ]

  -- What is known of the generations from `n` on is forgotten with them.
  pub lookup-unindex-drop :
      (k : K) (n : ℕ) (gs : List ChainGeneration) (known : Dict K ℕ)
      → n ≤ length gs
      → Numbered 0 gs
      → lookup k known ≡ earliest k gs
      → lookup k (unindex (drop n gs) known) ≡ earliest k (take n gs)
  lookup-unindex-drop k n gs known l u h =
      let joined : earliest k gs ≡ first_of (earliest k (take n gs)) (earliest k (drop n gs)) =
        ap (earliest k) (sym (take-append-drop n gs)) ∙ earliest-append k (take n gs) (drop n gs) in
      let later : Numbered n (drop n gs) = Numbered-drop 0 n n gs (omega arith) l u in
      elim (Option-cases (earliest k (take n gs))) [
        | inl none_before ↦
            rw none_before
              (unindex-earliest k (drop n gs) known (ground (arith, h, joined, none_before)))
        | inr (w, before) ↦
            let below : w < n = omega (
              arith,
              earliest-lt k 0 w (take n gs) (Numbered-take 0 n gs u) before,
              length-take n gs l,
            ) in
            rw before (
              unindex_below k n w (drop n gs) known later below (ground (arith, h, joined, before)))
      ]
