-- ===== src/Supervision/Log.antt =====
-- The log of the starts tells how often each module was started:
-- src/libranet/supervision/process_supervisor.py.
use libranet.Base.{
  ℕ, ◌+◌, ◌≡◌, refl, ◌≢◌, false, List, [], ◌∷◌, ◌++◌, arith, ◌==◌, if◌then◌else◌, ==_iff, nat_eq,
  All,
}
use libranet.Base.Dict.{member, IsDistinct}
use libranet.Supervision.{
  launch, reap, start_due, reaped, check_module, check_modules, Child, Backoff, World,
}

-- How often `name` stands in a log.
abbrev pub logged : ℕ → List ℕ → ℕ
logged name [] = 0
logged name (n ∷ log) = (if n == name then 1 else 0) + logged name log

abbrev pub names : List (Child × World) → List ℕ
names [] = []
names ((c, w) ∷ cs) = c.name ∷ names cs

logged-append :
    (n m : ℕ) (log : List ℕ) → logged n (log ++ (m ∷ [])) ≡ logged n log + (if m == n then 1 else 0)
logged-append n m [] = ground arith
logged-append n m (k ∷ log) = ground (arith, logged-append n m log)

start_due-logged :
    (w : World) (c : Child) (now n : ℕ) (log : List ℕ)
    → let (c', log') = start_due w c now log in
      (c'.name ≡ c.name)
      × (logged n log' + (if c.name == n then c.starts else 0)
          ≡ logged n log + (if c.name == n then c'.starts else 0))
unfolding start_due launch
start_due-logged w c now n log = ground (arith, logged-append n c.name log)

check_module-logged :
    (b : Backoff) (w : World) (c : Child) (now n : ℕ) (log : List ℕ)
    → let (c', log') = check_module b w c now log in
      (c'.name ≡ c.name)
      × (logged n log' + (if c.name == n then c.starts else 0)
          ≡ logged n log + (if c.name == n then c'.starts else 0))
unfolding check_module reaped reap
check_module-logged b w c now n log =
    ground (arith, start_due-logged w c now n log, start_due-logged w (reaped b c now) now n log)

check_modules-logged_out :
    (b : Backoff) (cs : List (Child × World)) (now n : ℕ) (log : List ℕ)
    → member n (names cs) ≡ false
    → logged n (check_modules b cs now log).1 ≡ logged n log
unfolding check_modules
check_modules-logged_out b [] now n log h = refl
check_modules-logged_out b ((c, w) ∷ cs) now n log h = ground (
  arith,
  ==_iff c.name n,
  check_module-logged b w c now n log,
  check_modules-logged_out b cs now n (check_module b w c now log).1,
)

-- Each child was started as often as the log says.
abbrev pub AllLogged : List ℕ → List Child → Type 0
AllLogged log cs = All (λ (c : Child). c.starts ≡ logged c.name log) cs

abbrev pub children : List (Child × World) → List Child
children [] = []
children ((c, w) ∷ cs) = c ∷ children cs

keep_logged :
    (cs : List (Child × World)) (log log' : List ℕ) (name : ℕ)
    → member name (names cs) ≡ false
    → ((n : ℕ) → n ≢ name → logged n log' ≡ logged n log)
    → AllLogged log (children cs)
    → AllLogged log' (children cs)
keep_logged [] log log' name m h a = tt
keep_logged ((c, w) ∷ cs) log log' name m h a = (
  ground (arith, h c.name, ==_iff c.name name),
  keep_logged cs log log' name (ground (arith, m)) h a.1,
)

-- A look at every module keeps the log of the starts true: where no two modules share a name, and
-- each has been started as often as the log names it, each still has been after the look.
pub check_modules_logged :
    (b : Backoff) (cs : List (Child × World)) (now : ℕ) (log : List ℕ)
    → IsDistinct (names cs)
    → AllLogged log (children cs)
    → AllLogged (check_modules b cs now log).1 (check_modules b cs now log).0
unfolding check_modules
check_modules_logged b [] now log u a = tt
check_modules_logged b ((c, w) ∷ cs) now log u a = (
  ground (
    arith,
    check_module-logged b w c now c.name log,
    check_modules-logged_out b cs now c.name (check_module b w c now log).1,
    ==_iff c.name c.name,
  ),
  check_modules_logged b cs now (check_module b w c now log).1 u.1 (
      keep_logged cs log (check_module b w c now log).1 c.name u.0
        (λ n d. ground (arith, check_module-logged b w c now n log, ==_iff c.name n, d)) a.1),
)
