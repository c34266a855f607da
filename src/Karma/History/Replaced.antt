-- ===== src/Karma/History/Replaced.antt =====
-- That a replacement of generations leaves a history that knows what its generations hold:
-- src/libranet/karma/history.py.
use mathlib.Core.List.{append-nil, append_assoc}
use libranet.Base.{
  ℕ, ◌-◌, ◌≤◌, ◌≡◌, refl, sym, ap, true, List, [], ◌∷◌, ◌++◌, arith, leb, leb→le, nat_eq, length,
  take, drop, length-take, ok,
}
use libranet.Base.Dict.{lookup}
use libranet.Karma.History.{
  key_eq, know, unknow, extend, forget_each, forget_from, head, follow, validations, write_each,
  delete_each, replace, TransactionKey, ChainGeneration, ChainHistory, Write, write_genealogy,
  write_head,
}
use libranet.Karma.History.Known.{
  Numbered, Numbered-append, Numbered-take, follow-Numbered, earliest, index, unindex,
  earliest-append, lookup-index, lookup-unindex-drop,
}

abbrev pub held_keys : ChainGeneration → List TransactionKey
held_keys g = g.keys_held

abbrev pub held_witnesses : ChainGeneration → List ℕ
held_witnesses g = g.witnesses

-- The generations are numbered from 0, and each key and each witness is known by the earliest of them that holds it.
pub record IsHistory (h : ChainHistory) : Type 0 where
  pub numbered : Numbered 0 h.generations
  pub keys_known : (k : TransactionKey) → lookup k h.known_keys ≡ earliest held_keys k h.generations
  pub witnesses_known :
      (k : ℕ) → lookup k h.known_witnesses ≡ earliest held_witnesses k h.generations

pub extend_lem :
    (gs : List ChainGeneration) (h : ChainHistory)
    → extend gs h ≡ record {
      generations = h.generations ++ gs;
      known_keys = index held_keys gs h.known_keys;
      known_witnesses = index held_witnesses gs h.known_witnesses;
    }
unfolding extend
extend_lem [] h = rw append-nil refl
extend_lem (g ∷ gs) h =
    rw
      (extend_lem gs (record {
        generations = h.generations ++ (g ∷ []);
        known_keys = know g.keys_held g.generation h.known_keys;
        known_witnesses = know g.witnesses g.generation h.known_witnesses;
      }))
      (simp append_assoc refl)

forget_each_lem :
    (gs : List ChainGeneration) (h : ChainHistory)
    → forget_each gs h ≡ record {
      generations = h.generations;
      known_keys = unindex held_keys gs h.known_keys;
      known_witnesses = unindex held_witnesses gs h.known_witnesses;
    }
unfolding forget_each
forget_each_lem [] h = refl
forget_each_lem (g ∷ gs) h = forget_each_lem gs (record {
  generations = h.generations;
  known_keys = unknow g.keys_held g.generation h.known_keys;
  known_witnesses = unknow g.witnesses g.generation h.known_witnesses;
})

pub forget_from-IsHistory :
    (n : ℕ) (h : ChainHistory)
    → n ≤ length h.generations
    → IsHistory h
    → IsHistory (forget_from n h)
unfolding forget_from
forget_from-IsHistory n h l i = rw (forget_each_lem (drop n h.generations) h) (record {
  numbered = Numbered-take 0 n h.generations i.numbered;
  keys_known = λ k.
      lookup-unindex-drop held_keys k n h.generations h.known_keys l i.numbered (i.keys_known k);
  witnesses_known = λ k.
      lookup-unindex-drop held_witnesses k n h.generations h.known_witnesses l i.numbered
        (i.witnesses_known k);
})

pub extend-IsHistory :
    (gs : List ChainGeneration) (h : ChainHistory)
    → Numbered (length h.generations) gs
    → IsHistory h
    → IsHistory (extend gs h)
extend-IsHistory gs h u i = rw (extend_lem gs h) (record {
  numbered = Numbered-append 0 (length h.generations) h.generations gs (omega arith) i.numbered u;
  keys_known = λ k. ground (
    arith,
    i.keys_known k,
    lookup-index held_keys k gs h.known_keys,
    earliest-append held_keys k h.generations gs,
  );
  witnesses_known = λ k. ground (
    arith,
    i.witnesses_known k,
    lookup-index held_witnesses k gs h.known_witnesses,
    earliest-append held_witnesses k h.generations gs,
  );
})

pub generations-extend :
    (gs : List ChainGeneration) (h : ChainHistory) → (extend gs h).generations ≡ h.generations ++ gs
generations-extend gs h = ap (λ (x : ChainHistory). x.generations) (extend_lem gs h)

pub generations-forget_from :
    (n : ℕ) (h : ChainHistory) → (forget_from n h).generations ≡ take n h.generations
unfolding forget_from
generations-forget_from n h = refl

-- What a replacement that is not refused is.
pub replace_lem :
    (g : ChainGeneration) (gs : List ChainGeneration) (h next : ChainHistory) (ws : List Write)
    → replace g gs h ≡ ok (next, ws)
    → (leb g.generation (length h.generations) ≡ true)
      × (follow (g ∷ gs) g.generation ≡ true)
      × (extend (g ∷ gs) (forget_from g.generation h) ≡ next)
      × (write_each (g ∷ gs)
            ++ (write_genealogy (validations (take g.generation h.generations ++ (g ∷ gs)))
                ∷ write_head (head next)
                ∷ delete_each
                    (length next.generations)
                    (length h.generations - length next.generations))
          ≡ ws)
unfolding replace
replace_lem g gs h next ws r = ground arith

-- Where a history is numbered from 0 and knows each key and each witness by the earliest generation that holds it, a
-- replacement that is not refused leaves the generations older than the first of the new ones, and then the new, and
-- what it leaves is again such a history.
pub replace-IsHistory :
    (g : ChainGeneration) (gs : List ChainGeneration) (h next : ChainHistory) (ws : List Write)
    → IsHistory h
    → replace g gs h ≡ ok (next, ws)
    → (next.generations ≡ take g.generation h.generations ++ (g ∷ gs)) × IsHistory next
replace-IsHistory g gs h next ws i r =
    let (l, f, q, _) = replace_lem g gs h next ws r in
    let below : g.generation ≤ length h.generations =
      leb→le g.generation (length h.generations) l in
    let old : ChainHistory = forget_from g.generation h in
    let kept : g.generation ≡ length old.generations = ground (
      arith,
      generations-forget_from g.generation h,
      length-take g.generation h.generations below,
    ) in
    let new : Numbered (length old.generations) (g ∷ gs) =
      rw (sym kept) (follow-Numbered (g ∷ gs) g.generation f) in
    rw (sym q) (
      ground (arith, generations-extend (g ∷ gs) old, generations-forget_from g.generation h),
      extend-IsHistory (g ∷ gs) old new (forget_from-IsHistory g.generation h below i),
    )
