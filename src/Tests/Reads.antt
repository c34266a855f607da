-- ===== src/Tests/Reads.antt =====
-- The theorems on layers of content, routes, reports and what is read or stated, at small inputs.
use libranet.Base.{
  ℕ, ◌+◌, ◌≡◌, refl, true, false, none, some, List, [], ◌∷◌, arith, leb, ◌==◌, if◌then◌else◌,
  nat_eq, content_not_found, ok, err,
}
use libranet.Base.Integers.{pos}
use libranet.Base.Dict.{lookup}
use libranet.Base.Sorted.{sorted_set}
use libranet.Cas.Layered.{source_exists, source_read, source_iter_prefix, Layer, LayeredSource}
use libranet.Cas.Layered.First.{IsLayer, source_read_lem}
use libranet.Webserver.Router.{dispatch_request, Route, method_not_allowed}
use libranet.Webserver.Router.Allow.{Names, dispatch_request-Names}
use libranet.Webserver.AppUse.{used_all, used_all-IsReported, ApplicationUse, IsReported}
use libranet.Identity.Versions.{TrustList}
use libranet.Identity.Reading.{Entries, read_list, read_list_lem}
use libranet.Karma.Balances.{Balance}
use libranet.Karma.Ledger.Sheet.{BalanceSheet}
use libranet.Karma.Ledger.Sheet.Stated.{holders_after, unstated, misstated, stated_lem}

-- A layer that holds content 1 to `last`, each of it its id and `extra` more.
abbrev layer_to : ℕ → ℕ → Layer
layer_to last extra = record {
  exists = λ id. leb id last;
  read = λ id. if leb id last then ok (id + extra) else err content_not_found;
  iter_prefix = λ prefix. 1 ∷ last ∷ [];
}

layer_to-IsLayer : (last extra : ℕ) → IsLayer (layer_to last extra)
layer_to-IsLayer last extra = λ id. ground arith

abbrev two_layers : LayeredSource
two_layers = record { layers = layer_to 3 100 ∷ []; kept = layer_to 5 200 ∷ [] }

-- The archive kept shadows nothing of the store.
store_first : source_read 2 two_layers ≡ ok 102
unfolding source_read
store_first = refl

ids_once : source_iter_prefix 0 two_layers ≡ 1 ∷ 3 ∷ 5 ∷ []
unfolding source_iter_prefix
ids_once = refl

source_read_lem_example : (source_read 4 two_layers ≡ ok 204) × (source_exists 4 two_layers ≡ true)
source_read_lem_example =
    source_read_lem 4 two_layers (layer_to-IsLayer 3 100, (layer_to-IsLayer 5 200, tt))

abbrev route_of : ℕ → ℕ → ℕ → Route ℕ
route_of m p answer = record {
  method = m;
  pattern = λ path. if path == p then some [] else none;
  handler = λ request. answer;
}

abbrev three_routes : List (Route ℕ)
three_routes = route_of 2 7 70 ∷ route_of 1 7 71 ∷ route_of 1 8 80 ∷ []

third_method :
    dispatch_request [] three_routes (record { method = 3; path = 7; params = [] })
    ≡ method_not_allowed (1 ∷ 2 ∷ [])
unfolding dispatch_request
third_method = refl

dispatch_request-Names_example :
    Names
      (record { method = 3; path = 7; params = [] })
      three_routes
      []
      (dispatch_request [] three_routes (record { method = 3; path = 7; params = [] }))
dispatch_request-Names_example =
    dispatch_request-Names three_routes (record { method = 3; path = 7; params = [] })

abbrev no_use : ApplicationUse
no_use = record { report_interval = 10; reported = []; reports = [] }

no_use-IsReported : IsReported no_use
no_use-IsReported = record { spaced = tt; last_kept = λ b. refl }

abbrev uses : List (ℕ × ℕ)
uses = (1, 100) ∷ (2, 101) ∷ (1, 109) ∷ (1, 90) ∷ (1, 110) ∷ []

uses_reported : (used_all uses no_use).reports ≡ (1, 110) ∷ (2, 101) ∷ (1, 100) ∷ []
unfolding used_all
uses_reported = refl

used_all-IsReported_example : IsReported (used_all uses no_use)
used_all-IsReported_example = used_all-IsReported uses no_use no_use-IsReported

-- 2 is trusted, 3 both, and two entries are passed over.
abbrev read_of : Entries
read_of =
    (some 2, some true)
    ∷ (some 3, some true)
    ∷ (none, some true)
    ∷ (some 3, some false)
    ∷ (some 4, none)
    ∷ (some 2, some true)
    ∷ []

abbrev list_read : TrustList
list_read = record { entries = (2, true) ∷ []; version = 2; versions = 9 ∷ [] }

read_three : read_list (some read_of) (some 2) (some (some 9 ∷ none ∷ [])) ≡ ok (list_read, 4)
unfolding read_list
read_three = refl

read_list_lem_example : lookup 3 list_read.entries ≡ none
read_list_lem_example = read_list_lem 3 read_of 2 4 (some (some 9 ∷ none ∷ [])) list_read read_three

abbrev balance_of_count : ℕ → Balance
balance_of_count n = record { kismet = record { count = n }; last_won = none }

-- A sheet of identities 1 and 2, of which the block states both.
abbrev stated_sheet : BalanceSheet
stated_sheet = record {
  block = record {
    generation = 3;
    previous = some 30;
    weight = record { work = 1 };
    reach = 1;
    transactions = [];
    balances = (2, balance_of_count 7) ∷ (1, balance_of_count 0) ∷ [];
    age_limit = 50;
    stake_baseline = record { stake = 0 };
  };
  before = (1, balance_of_count 5) ∷ (2, balance_of_count 2) ∷ [];
  checked = (1, balance_of_count 5) ∷ (2, balance_of_count 2) ∷ [];
  after = (1, balance_of_count 0) ∷ (2, balance_of_count 7) ∷ [];
  overspent = [];
}

none_unstated : unstated stated_sheet ≡ []
unfolding unstated sorted_set
none_unstated = refl

none_misstated : misstated stated_sheet ≡ []
unfolding misstated sorted_set
none_misstated = refl

one_holder_less : holders_after 10 stated_sheet ≡ pos 9
unfolding holders_after
one_holder_less = refl

stated_lem_example : lookup 1 stated_sheet.block.balances ≡ lookup 1 stated_sheet.after
stated_lem_example = stated_lem stated_sheet 1 none_unstated none_misstated refl
