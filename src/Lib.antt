-- ===== src/Lib.antt =====
-- A verification library for libranet, a peer-to-peer content network whose node is a set of
-- processes: a message bus that joins them, a web server, the connections to peers, eviction,
-- statistics, and the Karma ledger. The library models the parts whose logic is the node's own,
-- each from its source, and proves what makes them correct.
--
-- The parts, and the files that model them:
--
-- Base: tests, lists, results and dictionaries that the others share. Python's `dict` is the list
-- of its pairs; what may raise returns a `Result`; Base/Floats rounds a whole number as a float
-- does. Decimal and Json: the texts of numbers, and the values that `json.loads` gives, with
-- src/libranet/json_fields.py.
--
-- Karma, the ledger. Amounts: `Kismet` of src/libranet/protocol/karma_amounts.py. Generations:
-- `new_kismet` of src/libranet/karma/generations.py. Weight: `ChainWeight` and `StakeBaseline` of
-- src/libranet/karma/weight.py. Balances: `LastWon` and `Balance` of
-- src/libranet/protocol/karma_balances.py, Balances/Written their JSON. Blocks: the transactions,
-- payouts, stakes and blocks of src/libranet/protocol/karma_transactions.py,
-- src/libranet/protocol/karma_stakes.py and src/libranet/karma/blocks.py, Blocks/Bounds their
-- bounds, with the search for the fullest (Bounds/Fullest). Ledger: src/libranet/karma/ledger.py,
-- its stake ages (Age), balance sheets (Sheet, with what a block states of one in Sheet/Stated),
-- rewards (Reward) and reach (Reach, Reach/Least). Payments: the queue of
-- src/libranet/protocol/karma_payments.py. Staking: `StakeCover` of src/libranet/karma/staking.py.
-- History: the generations of the chain followed, of src/libranet/karma/history.py, what they know
-- of keys and witnesses (Known, Replaced), and their files (Stored), however many of the writes of
-- a replacement reached them (Cut). A block's balances are worked out by Sheet from its payout,
-- which the Reward of the generation before makes, and its transactions, through Balances and
-- Amounts.
--
-- Cas: Layered, the layers read as one, of src/libranet/cas/layered.py (First, Once),
-- `matching_bits` of src/libranet/cas/prefix.py, which Weight measures drops by, and
-- `ContentId.bucket` of src/libranet/cas/content_id.py, which PeerMix spreads peers by.
--
-- Identity. Trust: `TrustScores.from_lists` of src/libranet/identity/trust.py, what a step counts
-- (Counts), what a build keeps (Build) and what the scores say (Steps). Versions:
-- src/libranet/identity/versions.py and the next version of a trust list, with the newest of them
-- (Newest). Reading: a trust list as it is read. Bundle: the chunks of
-- src/libranet/bundle/splitting.py (Chunks, Local).
--
-- Messaging: the dispatcher of src/libranet/messaging/dispatcher.py, with the envelope of
-- src/libranet/messaging/envelope.py. What happens to an inbox is a list of happenings, in the
-- order it happens.
--
-- Supervision: src/libranet/supervision/process_supervisor.py, its restarts (Restarts) and its log
-- of starts (Log).
--
-- Webserver: `Sessions` of src/libranet/webserver/sessions.py with its listener (Told) and its
-- times (Laws), the ranges of src/libranet/webserver/byte_range.py, the keeping of clients of
-- src/libranet/webserver/client_keeping.py (Clients, with Kept and Median), and the connections of
-- src/libranet/webserver/inbound_peers.py (Peers, with Counts, Naming and Counted), which tell the
-- keeping of each client, the routes of src/libranet/webserver/router.py (Router), and the reports
-- of src/libranet/webserver/app_use.py (AppUse).
--
-- Connections: `PeerMix` of src/libranet/connections/peer_mix.py, and the parser of responses of
-- src/libranet/connections/response_parser.py (Responses), on the bytes received (Bytes), a head
-- (Head) and the whole (Parser), with its loops (Cases, Loops, Fuel) and what more bytes change
-- (Growth, Chunks, Restart, Early). Eviction: `StoragePressure` of
-- src/libranet/eviction/pressure.py. Stats: `RatingCounts` of src/libranet/stats/ratings.py.
--
-- Numbers are natural numbers. Where the source subtracts below 0, its model raises, or writes out
-- what the source does. Identities, hashes, tokens and moments that are only compared are numbers;
-- a moment counts seconds. An id that is sorted is a number in the order of the texts. The parser
-- runs on fuel one more than the bytes received, which each head, chunk and line takes some of.
-- The digits of a number are written on fuel one more than the number, and read on the text;
-- `bit_length` runs on the number itself; a number is halved at most 971 times to fit the 53 bits
-- of a float, which is enough below 2 ^ 1024; the search for the fullest block runs on one more
-- than the most entries, and halves what is left at each step. The tests and the runs at concrete
-- inputs are in Tests.
--
-- Not modelled: the stores of content and their files, the network, the threads and the processes
-- themselves, cryptography, hashing and compression, the database of the statistics, the web
-- pages, and the parts of the Karma module that follow and build the chain over those stores.
pub mod Base
pub mod Decimal
pub mod Json
pub mod Cas
pub mod Identity
pub mod Bundle
pub mod Karma
pub mod Messaging
pub mod Supervision
pub mod Webserver
pub mod Connections
pub mod Eviction
pub mod Stats
mod Tests
