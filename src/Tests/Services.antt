-- ===== src/Tests/Services.antt =====
-- The theorems on the node's services at small inputs.
use libranet.Base.{
  ℕ, ◌+◌, ◌≤◌, ◌≡◌, refl, ◌⊎◌, true, false, ◌&&◌, none, some, List, [], ◌∷◌, ◌++◌, arith, ltb, leb,
  ◌==◌, length, value_error, ok, err,
}
use libranet.Cas.ContentId.{content_id_eq, ContentId}
use libranet.Messaging.Dispatcher.{Inbox, event}
use libranet.Messaging.Order.{
  given, happen_all, wanted, happen_all_in_order, Happening, publishing, flushing, reading,
}
use libranet.Webserver.Sessions.{
  is_idle, forget, start, session_of, end_sessions, Session, Held, Sessions, session_started,
  last_session_ended,
}
use libranet.Webserver.Sessions.Told.{IsTold, forget-IsTold, start-IsTold, session_of-IsTold}
use libranet.Webserver.Sessions.Laws.{
  start-session_of, session_of-renews, AllIdle, session_of_idle, end_sessions-session_of,
}
use libranet.Webserver.ByteRange.{
  span, of_groups, asked, of_groups_total, of_groups-asked, ByteRange,
}
use libranet.Supervision.{check_modules, Child, Backoff, World}
use libranet.Supervision.Log.{AllLogged, check_modules_logged}
use libranet.Connections.PeerMix.{mix_size, known, choose, Candidate, PeerMix}
use libranet.Connections.PeerMix.Laws.{New, choose-New, choose_bounded}
use libranet.Eviction.Pressure.{deleted, excess, over_limits, excess_relieves, StoragePressure}
use libranet.Stats.Ratings.{answer, rated_bytes, answers_add_up, NodeStats, RatingCounts}

-- An inbox of one place, of module 1, which subscribes to event 5.
abbrev inbox : Inbox
inbox = record {
  module_name = 1;
  subscriptions = some (5 ∷ []);
  capacity = 1;
  read = [];
  queue = [];
  held = [];
  held_count = 0;
}

abbrev publishing_by : ℕ → ℕ → ℕ → Happening
publishing_by source n payload = publishing (record {
  raw_event = some (event n);
  raw_source = some source;
  raw_timestamp = some 100;
  raw_payload = payload;
})

abbrev happenings : List Happening
happenings =
    publishing_by 2 5 30
    ∷ publishing_by 3 5 31
    ∷ publishing_by 1 5 32
    ∷ reading
    ∷ publishing_by 2 6 33
    ∷ flushing
    ∷ []

happen_all_in_order_example :
    given (happen_all happenings inbox) ≡ given inbox ++ wanted happenings 1 (some (5 ∷ []))
happen_all_in_order_example = happen_all_in_order happenings inbox

happenings_held :
    (happen_all happenings inbox).queue
    ≡ record { event_type = event 5; source = 3; payload = 31 } ∷ []
unfolding happen_all
happenings_held = refl

-- Persons 8 and 9 are signed in, person 8 twice.
abbrev session_for : ℕ → Session
session_for person = record { username = 97 ∷ []; person = person; fallback = none; block = 3 }

abbrev held_for : ℕ → ℕ → Held
held_for person last_used = record { session = session_for person; last_used = last_used }

abbrev signed_in_three : Sessions
signed_in_three = record {
  idle_seconds = 60;
  listening = true;
  held = (501, held_for 8 100) ∷ (502, held_for 9 110) ∷ (503, held_for 8 150) ∷ [];
  told = session_started 8 ∷ session_started 9 ∷ session_started 8 ∷ [];
}

three-IsTold : IsTold signed_in_three 9
unfolding IsTold
three-IsTold = refl

start-IsTold_example : IsTold (start 504 175 (session_for 7) signed_in_three) 9
start-IsTold_example = start-IsTold 504 175 (session_for 7) signed_in_three 9 refl refl three-IsTold

start_forgets :
    (start 504 175 (session_for 7) signed_in_three).told
    ≡ session_started 8
      ∷ session_started 9
      ∷ session_started 8
      ∷ last_session_ended 9
      ∷ session_started 7
      ∷ []
unfolding start
start_forgets = refl

session_of-IsTold_case : IsTold (session_of (502 ∷ 503 ∷ []) 175 signed_in_three).1 9
session_of-IsTold_case = session_of-IsTold (502 ∷ 503 ∷ []) 175 signed_in_three 9 refl three-IsTold

forget-IsTold_case : IsTold (forget (501 ∷ 502 ∷ []) signed_in_three) 9
forget-IsTold_case = forget-IsTold (501 ∷ 502 ∷ []) signed_in_three 9 refl three-IsTold

end_sessions-session_of_example :
    (session_of (501 ∷ []) 120 (end_sessions (501 ∷ 502 ∷ []) signed_in_three)).0 ≡ none
end_sessions-session_of_example =
    end_sessions-session_of (501 ∷ 502 ∷ []) (501 ∷ []) 120 signed_in_three
      (refl, (refl, (refl, tt))) (refl, tt)

all_idle : AllIdle 60 signed_in_three.held 210
unfolding AllIdle
all_idle = (refl, (refl, (refl, tt)))

session_of_idle_case : (session_of (503 ∷ []) 210 signed_in_three).0 ≡ none
session_of_idle_case = session_of_idle (503 ∷ []) 210 signed_in_three all_idle

start-session_of_case :
    (session_of (504 ∷ []) 234 (start 504 175 (session_for 7) signed_in_three)).0
    ≡ some (session_for 7)
start-session_of_case =
    start-session_of 504 175 234 (session_for 7) signed_in_three [] (omega arith)

fresh : is_idle 60 (held_for 8 100) 150 ≡ false
unfolding is_idle
fresh = refl

session_of-renews_case :
    (session_of (501 ∷ []) 200 (session_of (501 ∷ []) 150 signed_in_three).1).0
    ≡ some (session_for 8)
session_of-renews_case =
    session_of-renews 501 150 200 (held_for 8 100) signed_in_three [] [] refl fresh (omega arith)

-- Two modules: one has died, and one was never started.
abbrev backoff : Backoff
backoff = record { delay_seconds = 1; max_delay_seconds = 60; stable_after_seconds = 300 }

abbrev died : Child
died = record {
  name = 1;
  process = some 40;
  started_at = 10;
  starts = 1;
  failures = 0;
  restart_at = none;
}

abbrev unstarted : Child
unstarted = record {
  name = 2;
  process = none;
  started_at = 0;
  starts = 0;
  failures = 0;
  restart_at = none;
}

abbrev system : ℕ → World
system process = record { alive = (λ p. p == process); process = process; started_at = 20 }

check_modules_logged_example :
    AllLogged
      (check_modules backoff ((died, system 41) ∷ (unstarted, system 42) ∷ []) 20 (1 ∷ [])).1
      (check_modules backoff ((died, system 41) ∷ (unstarted, system 42) ∷ []) 20 (1 ∷ [])).0
check_modules_logged_example =
    check_modules_logged backoff ((died, system 41) ∷ (unstarted, system 42) ∷ []) 20 (1 ∷ [])
      (refl, (refl, tt)) (refl, (refl, tt))

-- A module found dead a third time in a row, at 20, waits until 24.
abbrev died_again : Child
died_again = record died { failures = 2 }

abbrev looks_between : List (World × ℕ)
looks_between = (system 41, 21) ∷ (system 41, 23) ∷ []

-- Storage over both limits.
abbrev pressure : StoragePressure
pressure = record {
  min_free_bytes = 1000;
  max_held_bytes = some 5000;
  held_bytes = 5200;
  headroom_bytes = 300;
}

excess_is : excess pressure 900 ≡ 500
unfolding excess
excess_is = refl

excess_relieves_example :
    over_limits (deleted pressure (excess pressure 900)) (900 + excess pressure 900) 250 ≡ false
excess_relieves_example = excess_relieves pressure 900 250 (omega arith) (omega arith)

abbrev stats : ℕ → ℕ → NodeStats
stats bytes found = record { bytes_received = bytes; data_found = found }

abbrev counts : RatingCounts
counts = record { as_of = (6, stats 10 1) ∷ []; outbound = 6 ∷ 4 ∷ [] }

answers_add_up_example :
    rated_bytes 6 (answer counts ((6, stats 15 2) ∷ []) (6 ∷ [])).0
      + rated_bytes 6
          (answer (answer counts ((6, stats 15 2) ∷ []) (6 ∷ [])).1 ((6, stats 40 3) ∷ []) []).0
      + 10
    ≡ 40
answers_add_up_example =
    answers_add_up counts ((6, stats 15 2) ∷ []) ((6, stats 40 3) ∷ []) (6 ∷ []) [] 6
      (refl, (refl, tt)) refl refl (omega arith) (omega arith)

of_groups_ten :
    of_groups (some 10) (some 700) 500
    ≡ ok (some (record { start_bytes = 10; stop_bytes = 500; file_bytes = 500 }))
unfolding of_groups
of_groups_ten = refl

of_groups-asked_example : (leb 10 499 && ltb 499 500) ≡ asked (some 10) (some 700) 500 499
of_groups-asked_example =
    of_groups-asked (some 10) (some 700) 500 499
      (record { start_bytes = 10; stop_bytes = 500; file_bytes = 500 }) of_groups_ten

of_groups_total_case :
    ((of_groups none (some 20) 500 ≡ ok none) × (span none (some 20) 500 ≡ err value_error))
    ⊎ ((r : ByteRange) × (of_groups none (some 20) 500 ≡ ok (some r))
        × (r.start_bytes ≤ r.stop_bytes)
        × (r.stop_bytes ≤ 500))
of_groups_total_case = of_groups_total none (some 20) 500

-- Ids of two hexadecimal digits.
abbrev id : ℕ → ℕ → ContentId
id a b = record { algorithm = 115 ∷ []; hash = a ∷ b ∷ [] }

abbrev candidate : ℕ → ℕ → ℕ → Candidate
candidate endpoint a b = record { endpoints = endpoint ∷ []; node_id = some (id a b) }

abbrev mix : PeerMix
mix = record {
  peers = record {
    min_outgoing_connections = 2;
    bucket_prefix_bits = 4;
    min_neighborhood_connections = 1;
    neighborhood_prefix_bits = 4;
  };
  node_id = id 49 48;
}

abbrev candidates : List Candidate
candidates = candidate 1 49 50 ∷ candidate 2 51 48 ∷ candidate 3 51 49 ∷ candidate 4 49 51 ∷ []

choose-New_example :
    New (known (some (id 51 48) ∷ none ∷ [])) (choose mix candidates (some (id 51 48) ∷ none ∷ []))
choose-New_example = choose-New mix candidates (some (id 51 48) ∷ none ∷ [])

choose_bounded_case :
    length (choose mix candidates (some (id 51 48) ∷ none ∷ [])) ≤ mix_size mix.peers
choose_bounded_case = choose_bounded mix candidates (some (id 51 48) ∷ none ∷ [])
