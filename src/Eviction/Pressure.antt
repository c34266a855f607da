-- ===== src/Eviction/Pressure.antt =====
-- How far storage is over its limits: `StoragePressure` of src/libranet/eviction/pressure.py. The
-- free space that the filesystem reports at a check is an argument.
use libranet.Base.{
  ℕ, ◌+◌, ◌-◌, ◌≤◌, ◌≡◌, refl, Bool, true, false, ◌&&◌, Option, none, some, arith, ltb, leb,
  if◌then◌else◌, max_of,
}

pub record StoragePressure : Type 0 where
  pub min_free_bytes : ℕ
  pub max_held_bytes : Option ℕ
  pub held_bytes : ℕ
  pub headroom_bytes : ℕ

-- `stored`
unfoldable pub stored : StoragePressure → ℕ → StoragePressure
stored p size_bytes = record p { held_bytes = p.held_bytes + size_bytes }

-- `deleted`
unfoldable pub deleted : StoragePressure → ℕ → StoragePressure
deleted p size_bytes = record p { held_bytes = p.held_bytes - size_bytes }

-- `free_space_shortfall`
unfoldable pub free_space_shortfall : StoragePressure → ℕ → ℕ
free_space_shortfall p free_bytes =
    if leb p.min_free_bytes 0 then 0 else p.min_free_bytes - free_bytes

abbrev pub held_excess : ℕ → ℕ → ℕ → Option ℕ → ℕ
held_excess excess held headroom none = excess
held_excess excess held headroom (some limit) = max_of excess (held + headroom - limit)

-- `excess`
unfoldable pub excess : StoragePressure → ℕ → ℕ
excess p free_bytes =
    let short : ℕ =
      (if ltb 0 p.min_free_bytes then p.min_free_bytes + p.headroom_bytes - free_bytes else 0) in
    held_excess short p.held_bytes p.headroom_bytes p.max_held_bytes

abbrev pub held_over : ℕ → Option ℕ → Bool
held_over held none = false
held_over held (some limit) = ltb limit held

-- `over_limits`
unfoldable pub over_limits : StoragePressure → ℕ → ℕ → Bool
over_limits p free_bytes adding_bytes =
    if ltb 0 p.min_free_bytes && ltb free_bytes (p.min_free_bytes + adding_bytes)
    then true
    else held_over (p.held_bytes + adding_bytes) p.max_held_bytes

-- The most content that fits is no less than the headroom.
abbrev pub Fits : ℕ → Option ℕ → Type 0
Fits headroom none = Unit
Fits headroom (some limit) = headroom ≤ limit

held_relieved :
    (held adding headroom short : ℕ) (limit : Option ℕ)
    → adding ≤ headroom
    → Fits headroom limit
    → held_over (held - held_excess short held headroom limit + adding) limit ≡ false
held_relieved held adding headroom short none h f = refl
held_relieved held adding headroom short (some limit) h f = ground arith

short_relieved :
    (held headroom short : ℕ) (limit : Option ℕ) → short ≤ held_excess short held headroom limit
short_relieved held headroom short none = omega arith
short_relieved held headroom short (some limit) = ground arith

-- Letting go of the excess measured, which frees as much space, leaves room within every limit for
-- any addition of up to the headroom, where the headroom fits within the most content held.
pub excess_relieves :
    (p : StoragePressure) (free adding : ℕ)
    → adding ≤ p.headroom_bytes
    → Fits p.headroom_bytes p.max_held_bytes
    → over_limits (deleted p (excess p free)) (free + excess p free) adding ≡ false
unfolding over_limits deleted excess
excess_relieves p free adding h f =
    let short : ℕ =
      (if ltb 0 p.min_free_bytes then p.min_free_bytes + p.headroom_bytes - free else 0) in
    ground (
      arith,
      held_relieved p.held_bytes adding p.headroom_bytes short p.max_held_bytes h f,
      short_relieved p.held_bytes p.headroom_bytes short p.max_held_bytes,
    )

held_quiet :
    (held headroom short : ℕ) (limit : Option ℕ)
    → held_excess short held headroom limit ≡ 0
    → (short ≡ 0) × (held_over held limit ≡ false)
held_quiet held headroom short none h = (h, refl)
held_quiet held headroom short (some limit) h = ground arith

-- Where there is no excess, storage is over no limit and no free space is wanting.
no_excess_within :
    (p : StoragePressure) (free : ℕ)
    → excess p free ≡ 0
    → (over_limits p free 0 ≡ false) × (free_space_shortfall p free ≡ 0)
unfolding over_limits excess free_space_shortfall
no_excess_within p free h =
    let short : ℕ =
      (if ltb 0 p.min_free_bytes then p.min_free_bytes + p.headroom_bytes - free else 0) in
    ground (arith, held_quiet p.held_bytes p.headroom_bytes short p.max_held_bytes h)
