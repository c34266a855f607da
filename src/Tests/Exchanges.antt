-- ===== src/Tests/Exchanges.antt =====
-- The theorems on clients, connections, chunks and responses at small inputs.
use libranet.Base.{
  ℕ, ◌-◌, ◌*◌, ◌^◌, ◌≤◌, ◌≡◌, refl, Bool, true, false, ◌&&◌, Option, none, some, List, [], ◌∷◌,
  ◌++◌, ◌+◌, inr, arith, ◌==◌, if◌then◌else◌, min_of, length, All, ok,
}
use libranet.Base.Floats.{halvings, float_of}
use libranet.Webserver.Clients.{
  Uses, connected, open_clients, closes, served, happen_all, ClientUse, Keeping, ClientEvent,
  connects, disconnects, pushes, asks,
}
use libranet.Webserver.Clients.Kept.{served-keep_count, served-grace}
use libranet.Webserver.Clients.Median.{closed_of, closes_at_most_half}
use libranet.Webserver.Peers.{
  take_place_all, Server, Traffic, opens, verifies, serves, pushes_on, closes_on, names,
}
use libranet.Webserver.Peers.Counted.{take_place_all-IsCounted, IsCounted}
use libranet.Bundle.Splitting.{
  ends_chunk, sort_entries, no_split, split_each, chunks_of, split_entries, SplitEntry,
}
use libranet.Bundle.Splitting.Chunks.{concat, is_chunk, split_entries_lem}
use libranet.Bundle.Splitting.Local.{split_entries-apart}
use libranet.Connections.Responses.Bytes.{Bytes, lower}
use libranet.Connections.Responses.Head.{content_length_name, HeaderDict, Limits}
use libranet.Connections.Responses.Parser.{feed, next_response, RequestLine}
use libranet.Connections.Responses.Loops.{is_done}
use libranet.Connections.Responses.Fuel.{next_response_ends}
use libranet.Connections.Responses.Early.{next_response-feed}

-- Each client is kept for its first request, and for 10 seconds after a push, and one client at least is.
abbrev keeping_one : Keeping
keeping_one = record { grace_requests = 1; value_seconds = 10; keep_count = 1; node_id = 9 }

-- What each holds: its own number, and the node 9.
abbrev own_number : ℕ → ℕ
own_number n = n

abbrev asked_once : ClientUse
asked_once = record { valued_at = 0; requests = 1; closing = false }

abbrev three_clients : Uses
three_clients = (1, asked_once) ∷ (2, asked_once) ∷ (3, asked_once) ∷ []

-- The poorest is closed, and the one of the median is not.
poorest_closed : (served keeping_one own_number 1 50 three_clients).0 ≡ false
unfolding served
poorest_closed = refl

median_kept : (served keeping_one own_number 2 50 three_clients).0 ≡ true
unfolding served
median_kept = refl

served-keep_count_example :
    min_of 1 (length (open_clients three_clients))
    ≤ length (open_clients (served keeping_one own_number 1 50 three_clients).1)
served-keep_count_example = served-keep_count keeping_one own_number 1 50 three_clients

abbrev others_do : List ClientEvent
others_do = connects 2 1 ∷ asks 2 2 ∷ pushes 4 true 3 ∷ asks 2 40 ∷ disconnects 2 ∷ []

served-grace_example :
    (served keeping_one own_number 4 60
      (happen_all keeping_one own_number others_do (connected 4 0 three_clients))).0
    ≡ true
served-grace_example =
    served-grace keeping_one own_number 4 0 60 others_do three_clients refl (omega arith)

abbrev four_clients : Uses
four_clients = (4, asked_once) ∷ three_clients

two_poor : closed_of keeping_one own_number four_clients (open_clients four_clients) ≡ 2
unfolding closes float_of
two_poor = refl

closes_at_most_half_example :
    2 * closed_of keeping_one own_number four_clients (open_clients four_clients)
    ≤ length (open_clients four_clients)
unfolding open_clients
closes_at_most_half_example =
    closes_at_most_half keeping_one own_number four_clients
      (inr (omega arith, (omega arith, (omega arith, (omega arith, tt)))))

-- Two clients hold alike, and the node 9 more: the median rounded up is above both.
abbrev rounded_up : ℕ → ℕ
rounded_up n = if n == 9 then 10 ^ 17 else 10 ^ 16 + 3

abbrev two_alike : Uses
two_alike = (1, asked_once) ∷ (2, asked_once) ∷ []

both_poor : closed_of keeping_one rounded_up two_alike (open_clients two_alike) ≡ 2
unfolding closes float_of halvings
both_poor = refl

-- Half way between two floats, the even one.
rounded_down : float_of (2 ^ 53 + 1) ≡ 2 ^ 53
unfolding float_of halvings
rounded_down = refl

rounded_even : float_of (2 ^ 53 + 3) ≡ 2 ^ 53 + 4
unfolding float_of halvings
rounded_even = refl

abbrev no_server : Server
no_server = record { peers = record { connections = []; uses = []; published = [] }; signers = [] }

no_server-IsCounted : IsCounted no_server
no_server-IsCounted = record {
  distinct = tt;
  signers_distinct = tt;
  peers_counted = λ q. (refl, refl);
  peers_named = refl;
}

-- Two connections, of which peer 5 signs on both, and one closes. Peer 7 is not connected.
abbrev traffic : List Traffic
traffic =
    opens 1
    ∷ opens 2
    ∷ verifies 1 5 10
    ∷ verifies 2 5 11
    ∷ verifies 2 6 12
    ∷ verifies 2 6 13
    ∷ serves 2 14
    ∷ closes_on 1
    ∷ pushes_on 5 true 15
    ∷ pushes_on 7 true 16
    ∷ names
    ∷ []

counted_once :
    (take_place_all keeping_one own_number traffic no_server).peers.connections
    ≡ (5, 1) ∷ (6, 1) ∷ []
unfolding take_place_all
counted_once = refl

take_place_all-IsCounted_example :
    IsCounted (take_place_all keeping_one own_number traffic no_server)
take_place_all-IsCounted_example =
    take_place_all-IsCounted keeping_one own_number traffic no_server no_server-IsCounted

abbrev entry : ℕ → ℕ → ℕ → SplitEntry
entry p n f = record { path = p; encoded_bytes = n; fraction = f }

-- Of at most 10 bytes to a chunk, the third ends its chunk by its odds.
abbrev five_entries : List SplitEntry
five_entries =
    entry 3 4 0
    ∷ entry 1 4 (2 ^ 64 - 1)
    ∷ entry 2 4 (2 ^ 64 - 1)
    ∷ entry 5 4 (2 ^ 64 - 1)
    ∷ entry 4 20 (2 ^ 64 - 1)
    ∷ []

five_split :
    split_entries 10 five_entries
    ≡ (entry 1 4 (2 ^ 64 - 1) ∷ entry 2 4 (2 ^ 64 - 1) ∷ [])
      ∷ (entry 3 4 0 ∷ [])
      ∷ (entry 4 20 (2 ^ 64 - 1) ∷ [])
      ∷ (entry 5 4 (2 ^ 64 - 1) ∷ [])
      ∷ []
unfolding split_entries
five_split = refl

five_sorted :
    sort_entries five_entries
    ≡ (entry 1 4 (2 ^ 64 - 1) ∷ entry 2 4 (2 ^ 64 - 1) ∷ [])
      ++ (entry 3 4 0 ∷ entry 4 20 (2 ^ 64 - 1) ∷ entry 5 4 (2 ^ 64 - 1) ∷ [])
unfolding sort_entries
five_sorted = refl

third_ends : ends_chunk 5 (entry 3 4 0) ≡ true
unfolding ends_chunk
third_ends = refl

split_entries_lem_example :
    (concat (split_entries 10 five_entries) ≡ sort_entries five_entries)
    × All (λ (c : List SplitEntry). is_chunk 10 c ≡ true) (split_entries 10 five_entries)
split_entries_lem_example = split_entries_lem 10 five_entries

split_entries-apart_example :
    split_entries 10 five_entries
    ≡ chunks_of (
        split_each 10
          ((entry 1 4 (2 ^ 64 - 1) ∷ entry 2 4 (2 ^ 64 - 1) ∷ []) ++ (entry 3 4 0 ∷ []))
          no_split)
      ++ chunks_of (split_each 10 (entry 4 20 (2 ^ 64 - 1) ∷ entry 5 4 (2 ^ 64 - 1) ∷ []) no_split)
split_entries-apart_example =
    split_entries-apart 10 five_entries (entry 1 4 (2 ^ 64 - 1) ∷ entry 2 4 (2 ^ 64 - 1) ∷ [])
      (entry 4 20 (2 ^ 64 - 1) ∷ entry 5 4 (2 ^ 64 - 1) ∷ []) (entry 3 4 0) five_sorted third_ends

abbrev bytes_beq : Bytes → Bytes → Bool
bytes_beq [] [] = true
bytes_beq [] (b ∷ bs) = false
bytes_beq (a ∷ as') [] = false
bytes_beq (a ∷ as') (b ∷ bs) = a == b && bytes_beq as' bs

-- A dictionary of headers that compares names in lower case, the last set first.
abbrev header_in : Bytes → List (Bytes × Bytes) → Option Bytes
header_in name [] = none
header_in name ((n, v) ∷ headers) =
    let rest = header_in name headers in if bytes_beq (lower n) (lower name) then some v else rest

abbrev plain_headers : HeaderDict (List (Bytes × Bytes))
plain_headers = record {
  no_headers = [];
  header = header_in;
  set_header = λ name value headers. (name, value) ∷ headers;
}

abbrev small_limits : Limits
small_limits = record { max_head_bytes = 100; max_body_bytes = 50 }

abbrev get_request : RequestLine
get_request = record { is_head = false; target = b'/' ∷ [] }

-- "HTTP/1.1 200\r\nContent-Length: 2\r\n\r\n"
abbrev ok_head : Bytes
ok_head =
    b'H'
    ∷ b'T'
    ∷ b'T'
    ∷ b'P'
    ∷ b'/'
    ∷ b'1'
    ∷ b'.'
    ∷ b'1'
    ∷ 32
    ∷ b'2'
    ∷ b'0'
    ∷ b'0'
    ∷ 13
    ∷ 10
    ∷ (content_length_name ++ (58 ∷ 32 ∷ b'2' ∷ 13 ∷ 10 ∷ 13 ∷ 10 ∷ []))

ok_waits :
    next_response plain_headers small_limits get_request (ok_head ++ (65 ∷ []))
    ≡ some (ok none, ok_head ++ (65 ∷ []))
unfolding next_response
ok_waits = refl

ok_taken :
    next_response plain_headers small_limits get_request (ok_head ++ (65 ∷ 66 ∷ 67 ∷ []))
    ≡ some (
      ok (
          some (record {
            request = get_request;
            status = 200;
            reason = [];
            headers = (content_length_name, 50 ∷ []) ∷ [];
            body = 65 ∷ 66 ∷ [];
            closes_connection = false;
          })),
      67 ∷ [],
    )
unfolding next_response
ok_taken = refl

next_response_ends_example :
    is_done (next_response plain_headers small_limits get_request ok_head) ≡ true
next_response_ends_example = next_response_ends plain_headers small_limits get_request ok_head

next_response-feed_example :
    next_response plain_headers small_limits get_request
      (feed (66 ∷ 67 ∷ []) (ok_head ++ (65 ∷ [])))
    ≡ (if false
        then some (ok none, feed (66 ∷ 67 ∷ []) (ok_head ++ (65 ∷ [])))
        else next_response plain_headers small_limits get_request
            (feed (66 ∷ 67 ∷ []) (ok_head ++ (65 ∷ []))))
next_response-feed_example =
    next_response-feed plain_headers small_limits get_request (ok_head ++ (65 ∷ []))
      (ok_head ++ (65 ∷ [])) (66 ∷ 67 ∷ []) (ok none) ok_waits
