-- ===== src/Identity/Trust/Steps.antt =====
-- What the scores of a person say within their limits: src/libranet/identity/trust.py.
use libranet.Base.{
  ℕ, suc, ◌-◌, ◌≤◌, ◌≡◌, sym, ◌≢◌, inl, inr, Bool, none, some, [], ◌∷◌, arith, nat_eq, length, All,
}
use libranet.Base.Integers.{pos}
use libranet.Base.Dict.{Dict, lookup}
use libranet.Identity.Trust.{TrustLists, net_with, from_lists, TrustLimits, TrustScore}
use libranet.Identity.Trust.Counts.{AreDicts}
use libranet.Identity.Trust.Build.{suc_pred, build-deeper, build-new, build-needed, build-own}

module _ (person : ℕ) (lists : TrustLists) (lim : TrustLimits) where
  -- Where no list names an identity twice, each score is of an identity other than the person, at one of the steps from
  -- the first to the last that the limits allow.
  pub from_lists-bounded :
      (i : ℕ) (s : TrustScore)
      → AreDicts lists
      → lookup i (from_lists person lists lim).scores ≡ some s
      → (i ≢ person) × (1 ≤ s.step) × (s.step ≤ lim.max_steps)
  unfolding from_lists
  from_lists-bounded i s u h =
      elim (build-new person lists lim.max_lists i s lim.max_steps 1 (person ∷ []) 0 [] u h) [
        | inl k ↦ absurd cc
        | inr (p, l, m) ↦ (p, l, omega arith)
      ]

  -- Allowing one step more changes no score: where no list names an identity twice, an identity scored within the limits
  -- is scored alike with a further step.
  pub from_lists-deeper :
      (i : ℕ) (s : TrustScore)
      → AreDicts lists
      → lookup i (from_lists person lists lim).scores ≡ some s
      → lookup i (from_lists person lists (record lim { max_steps = suc lim.max_steps })).scores
        ≡ some s
  unfolding from_lists
  from_lists-deeper i s u h =
      build-deeper person lists lim.max_lists i s lim.max_steps 1 (person ∷ []) 0 [] u h

  -- The lists needed are none of those read, and no more than the most that may be read.
  pub from_lists-needed :
      All (λ (o : ℕ). lookup o lists ≡ none) (from_lists person lists lim).needed
      × (length (from_lists person lists lim).needed ≤ lim.max_lists)
  unfolding from_lists
  from_lists-needed = build-needed person lists lim.max_lists lim.max_steps 1 (person ∷ []) 0 []

  -- Under limits of at least one step and one list, an identity other than the person that the person's own list names is
  -- scored at step 1, at 1 if that list trusts it and at -1 if not, whatever the other lists say.
  pub from_lists-own :
      (i : ℕ) (entries : Dict ℕ Bool) (trusted : Bool)
      → AreDicts lists
      → 1 ≤ lim.max_steps
      → 1 ≤ lim.max_lists
      → lookup person lists ≡ some entries
      → lookup i entries ≡ some trusted
      → i ≢ person
      → lookup i (from_lists person lists lim).scores
        ≡ some (record { net_count = net_with trusted (pos 0); step = 1 })
  unfolding from_lists
  from_lists-own i entries trusted u h1 h2 e t p = rw (sym (suc_pred lim.max_steps h1)) (
      build-own person lists lim.max_lists i (lim.max_steps - 1) (lim.max_lists - 1) entries trusted
        u (omega arith) e t p)
