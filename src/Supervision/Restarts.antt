-- ===== src/Supervision/Restarts.antt =====
-- When a module is started again: src/libranet/supervision/process_supervisor.py.
use native.Mathlib.Nat.{pow-succ', mul_left_comm}
use libranet.Base.{
  ℕ, zero, suc, ◌+◌, ◌-◌, ◌*◌, ◌^◌, ◌≤◌, ◌<◌, ◌≡◌, ap, ◌∙◌, List, [], ◌∷◌, leb, if◌then◌else◌,
  arith, min_of,
}
use libranet.Supervision.{delay, check_module, Child, Backoff, World}

-- The settings that the constructor accepts.
abbrev pub IsBackoff : Backoff → Type 0
IsBackoff b = b.delay_seconds ≤ b.max_delay_seconds

twice : (d k : ℕ) → d * 2 ^ suc k ≡ 2 * (d * 2 ^ k)
twice d k = ap (λ x. d * x) (pow-succ' 2 k) ∙ mul_left_comm d 2 (2 ^ k)

no_less : (d k : ℕ) → d ≤ d * 2 ^ k
no_less d zero = omega arith
no_less d (suc k) = omega (arith, twice d k, no_less d k)

-- From the first failure on, each one more in a row makes the wait twice as long, up to the longest.
delay_doubles :
    (b : Backoff) (failures : ℕ)
    → 0 < failures
    → delay b (failures + 1) ≡ min_of (2 * delay b failures) b.max_delay_seconds
unfolding delay
delay_doubles b zero h = absurd (omega arith)
delay_doubles b (suc k) h = ground (arith, twice b.delay_seconds k)

-- The first failure makes a module wait the delay set, and no failure more than the longest, for
-- settings that the constructor accepts.
delay_bounds :
    (b : Backoff) (failures : ℕ)
    → IsBackoff b
    → (delay b 1 ≡ b.delay_seconds)
      × (b.delay_seconds ≤ delay b failures)
      × (delay b failures ≤ b.max_delay_seconds)
unfolding delay
delay_bounds b failures h =
    (ground arith, ground (arith, no_less b.delay_seconds (failures - 1)), ground arith)

-- The looks at a module after its process died, and what they make of it.
abbrev pub looks : Backoff → List (World × ℕ) → Child → List ℕ → Child × List ℕ
looks b [] c log = (c, log)
looks b ((w, now) ∷ ws) c log = let (c', log') = check_module b w c now log in looks b ws c' log'

-- How long a module that is found dead waits: the delay set, twice as long for each time in a row
-- that it died before running stably, up to the longest.
abbrev pub wait : Backoff → Child → ℕ → ℕ
wait b c now =
    let in_a_row : ℕ = if leb b.stable_after_seconds (now - c.started_at) then 0 else c.failures in
    min_of (b.delay_seconds * 2 ^ in_a_row) b.max_delay_seconds
