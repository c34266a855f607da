-- ===== src/Webserver/AppUse.antt =====
-- The reports of the bundles that applications are served from: `ApplicationUse` of src/libranet/webserver/app_use.py.
-- Times are whole seconds.
use libranet.Base.{
  ℕ, ◌+◌, ◌≤◌, ◌≡◌, refl, inl, inr, Bool, true, false, not, ◌&&◌, ◌||◌, Option, none, some, List,
  [], ◌∷◌, arith, ltb, leb, ◌==◌, if◌then◌else◌, Bool-cases, Option-cases, nat_eq,
}
use libranet.Base.Dict.{Dict, lookup, insert, lookup-insert}

-- `ApplicationUse`, and each report published, with its time, the last first
pub record ApplicationUse : Type 0 where
  pub report_interval : ℕ
  pub reported : Dict ℕ ℕ
  pub reports : List (ℕ × ℕ)

-- `used`, by the clock
unfoldable pub used : ℕ → ℕ → ApplicationUse → ApplicationUse
used bundle now a =
    let report : ApplicationUse = record a {
      reported = insert bundle now a.reported;
      reports = (bundle, now) ∷ a.reports;
    } in
    elim (lookup bundle a.reported) [
      | none ↦ report
      | some last ↦ if ltb now (last + a.report_interval) then a else report
    ]

unfoldable pub used_all : List (ℕ × ℕ) → ApplicationUse → ApplicationUse
unfolding used
used_all [] a = a
used_all ((bundle, now) ∷ uses) a = used_all uses (used bundle now a)

-- No report of the bundle is within the interval before `now`.
abbrev pub Spaced : ℕ → ℕ → ℕ → List (ℕ × ℕ) → Type 0
Spaced interval bundle now [] = Unit
Spaced interval bundle now ((b, t) ∷ reports) =
    ((b == bundle && ltb now (t + interval)) ≡ false) × Spaced interval bundle now reports

-- Each report is at least the interval after those before it of the same bundle.
abbrev pub AllSpaced : ℕ → List (ℕ × ℕ) → Type 0
AllSpaced interval [] = Unit
AllSpaced interval ((b, t) ∷ reports) = Spaced interval b t reports × AllSpaced interval reports

-- Whether each report of the bundle is no later than its last, if it has one.
abbrev pub none_after : ℕ → Option ℕ → List (ℕ × ℕ) → Bool
none_after bundle last [] = true
none_after bundle last ((b, t) ∷ reports) =
    (not (b == bundle) || (elim last [ none ↦ false | some l ↦ leb t l ]))
    && none_after bundle last reports

-- The reports are spaced, and what is kept of each bundle is its last.
pub record IsReported (a : ApplicationUse) : Type 0 where
  pub spaced : AllSpaced a.report_interval a.reports
  pub last_kept : (bundle : ℕ) → none_after bundle (lookup bundle a.reported) a.reports ≡ true

none_after-later :
    (bundle last now : ℕ) (reports : List (ℕ × ℕ))
    → last ≤ now
    → none_after bundle (some last) reports ≡ true
    → none_after bundle (some now) reports ≡ true
none_after-later bundle last now [] l h = refl
none_after-later bundle last now ((b, t) ∷ reports) l h =
    ground (arith, none_after-later bundle last now reports l)

none_after-none :
    (bundle now : ℕ) (reports : List (ℕ × ℕ))
    → none_after bundle none reports ≡ true
    → none_after bundle (some now) reports ≡ true
none_after-none bundle now [] h = refl
none_after-none bundle now ((b, t) ∷ reports) h = ground (arith, none_after-none bundle now reports)

Spaced-none :
    (interval bundle now : ℕ) (reports : List (ℕ × ℕ))
    → none_after bundle none reports ≡ true
    → Spaced interval bundle now reports
Spaced-none interval bundle now [] h = tt
Spaced-none interval bundle now ((b, t) ∷ reports) h =
    (ground arith, Spaced-none interval bundle now reports (ground arith))

Spaced-last :
    (interval bundle now last : ℕ) (reports : List (ℕ × ℕ))
    → last + interval ≤ now
    → none_after bundle (some last) reports ≡ true
    → Spaced interval bundle now reports
Spaced-last interval bundle now last [] l h = tt
Spaced-last interval bundle now last ((b, t) ∷ reports) l h =
    (ground arith, Spaced-last interval bundle now last reports l (ground arith))

IsReported-report :
    (bundle now : ℕ) (a : ApplicationUse)
    → Spaced a.report_interval bundle now a.reports
    → none_after bundle (some now) a.reports ≡ true
    → IsReported a
    → IsReported
        (record a { reported = insert bundle now a.reported; reports = (bundle, now) ∷ a.reports })
IsReported-report bundle now a s l i = record {
  spaced = (s, i.spaced);
  last_kept = λ b. ground (arith, lookup-insert bundle b now a.reported, i.last_kept b, l);
}

IsReported-used :
    (bundle now : ℕ) (a : ApplicationUse) → IsReported a → IsReported (used bundle now a)
unfolding used
IsReported-used bundle now a i = elim (Option-cases (lookup bundle a.reported)) [
  | inl e ↦
      let before : none_after bundle none a.reports ≡ true = rw e at (i.last_kept bundle) in
      rw (e, used)
        (IsReported-report bundle now a (Spaced-none a.report_interval bundle now a.reports before)
          (none_after-none bundle now a.reports before) i)
  | inr (last, e) ↦
      let before : none_after bundle (some last) a.reports ≡ true = rw e at (i.last_kept bundle) in
      elim (Bool-cases (ltb now (last + a.report_interval))) [
        | inl t ↦ rw (e, used) (rw t i)
        | inr f ↦
            let due : last + a.report_interval ≤ now = ground arith in
            rw (e, used)
              (rw f (
                IsReported-report bundle now a
                  (Spaced-last a.report_interval bundle now last a.reports due before)
                  (none_after-later bundle last now a.reports (omega arith) before) i))
      ]
]

-- Whatever bundles are used when, by a clock that may even go back, the reports of one bundle are never closer than the
-- interval, where none was before.
pub used_all-IsReported :
    (uses : List (ℕ × ℕ)) (a : ApplicationUse) → IsReported a → IsReported (used_all uses a)
unfolding used_all
used_all-IsReported [] a i = i
used_all-IsReported ((bundle, now) ∷ uses) a i =
    used_all-IsReported uses (used bundle now a) (IsReported-used bundle now a i)
