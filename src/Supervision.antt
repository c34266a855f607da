-- ===== src/Supervision.antt =====
-- The supervisor of the node's processes: src/libranet/supervision/process_supervisor.py. Moments
-- are counted in seconds. Processes are numbers; whether one is alive, and which process a start
-- gives, is for the operating system to say, and is an argument.
pub mod Restarts
pub mod Log
use libranet.Base.{
  ℕ, ◌+◌, ◌-◌, ◌*◌, ◌^◌, Bool, true, Option, none, some, List, [], ◌∷◌, ◌++◌, ltb, leb,
  if◌then◌else◌, min_of, value_error, Result, ok, err,
}

-- `_Child`
pub record Child : Type 0 where
  pub name : ℕ
  pub process : Option ℕ
  pub started_at : ℕ
  pub starts : ℕ
  pub failures : ℕ
  pub restart_at : Option ℕ

-- `_Backoff`; `backoff_of` is its constructor with the check of `__post_init__`.
pub record Backoff : Type 0 where
  pub delay_seconds : ℕ
  pub max_delay_seconds : ℕ
  pub stable_after_seconds : ℕ

unfoldable pub backoff_of : ℕ → ℕ → ℕ → Result Backoff
backoff_of delay_seconds max_delay_seconds stable_after_seconds =
    if ltb max_delay_seconds delay_seconds
    then err value_error
    else ok (record {
      delay_seconds = delay_seconds;
      max_delay_seconds = max_delay_seconds;
      stable_after_seconds = stable_after_seconds;
    })

-- `_Backoff.failures`
unfoldable pub failures_of : Backoff → ℕ → ℕ → ℕ
failures_of b previous uptime_seconds =
    if leb b.stable_after_seconds uptime_seconds then 1 else previous + 1

-- `_Backoff.delay`, of a module that has failed at least once
unfoldable pub delay : Backoff → ℕ → ℕ
delay b failures = min_of (b.delay_seconds * 2 ^ (failures - 1)) b.max_delay_seconds

-- What the operating system tells one look at a child: which processes are alive, the process that
-- a start gives, and the moment read once it has started.
pub record World : Type 0 where
  pub alive : ℕ → Bool
  pub process : ℕ
  pub started_at : ℕ

-- `_launch`
unfoldable pub launch : World → Child → Child
launch w c = record {
  name = c.name;
  process = some w.process;
  started_at = w.started_at;
  starts = c.starts + 1;
  failures = c.failures;
  restart_at = none;
}

-- `_reap` and the `_release` it ends with
unfoldable pub reap : Backoff → Child → ℕ → Child
unfolding failures_of
reap b c now = record {
  name = c.name;
  process = none;
  started_at = c.started_at;
  starts = c.starts;
  failures = failures_of b c.failures (now - c.started_at);
  restart_at = c.restart_at;
}

abbrev pub is_due : Option ℕ → ℕ → Bool
is_due none now = true
is_due (some at) now = leb at now

-- The end of `_check_module`: a child with no process is started once it is due. With it is the log
-- of the starts.
unfoldable pub start_due : World → Child → ℕ → List ℕ → Child × List ℕ
unfolding launch
start_due w c now start_log =
    if is_due c.restart_at now then (launch w c, start_log ++ (c.name ∷ [])) else (c, start_log)

-- What `_check_module` makes of a child whose process has died.
unfoldable pub reaped : Backoff → Child → ℕ → Child
unfolding reap delay
reaped b c now =
    let dead : Child = reap b c now in
    record dead { restart_at = some (now + delay b dead.failures) }

-- `_check_module`
unfoldable pub check_module : Backoff → World → Child → ℕ → List ℕ → Child × List ℕ
unfolding start_due reaped
check_module b w c now start_log = elim c.process [
  | none ↦ start_due w c now start_log
  | some process ↦
      if w.alive process then (c, start_log) else start_due w (reaped b c now) now start_log
]

-- The loop of `poll` over the modules, each with what the system tells of it.
unfoldable pub check_modules : Backoff → List (Child × World) → ℕ → List ℕ → List Child × List ℕ
unfolding check_module
check_modules b [] now start_log = ([], start_log)
check_modules b ((c, w) ∷ cs) now start_log =
    let (c', log) = check_module b w c now start_log in
    let (cs', log') = check_modules b cs now log in (c' ∷ cs', log')

-- `restart_count`, of the child it names
unfoldable pub restart_count : Child → ℕ
restart_count c = c.starts - 1
