-- ===== src/Karma/Blocks/Bounds.antt =====
-- How large a block may be, and the search for the fullest: `BlockBounds` of
-- src/libranet/karma/blocks.py. What a drop of so many entries measures is for signing and
-- compression to say, and is an argument.
pub mod Fullest
use libranet.Base.{
  ℕ, zero, suc, ◌+◌, ◌-◌, ◌*◌, ◌/◌, Bool, ◌&&◌, Option, none, some, ltb, leb, if◌then◌else◌, min_of,
  guard, ◌>>=◌, ◌>>◌, value_error, Result, ok,
}

-- `BlockBounds`; `block_bounds` is its constructor with the checks of `__post_init__`.
pub record BlockBounds : Type 0 where
  pub most_bytes : ℕ
  pub room_bytes : ℕ
  pub transaction_bits : ℕ
  pub holder_bytes : ℕ

abbrev pub target_bits : ℕ
target_bits = 256

unfoldable pub block_bounds : ℕ → ℕ → ℕ → ℕ → Result BlockBounds
block_bounds most_bytes room_bytes transaction_bits holder_bytes = do
  guard (leb 1 most_bytes && leb room_bytes most_bytes) value_error
  guard (leb transaction_bits target_bits) value_error
  ok (record {
    most_bytes = most_bytes;
    room_bytes = room_bytes;
    transaction_bits = transaction_bits;
    holder_bytes = holder_bytes;
  })

-- `full_above`
unfoldable pub full_above : BlockBounds → ℕ → ℕ
full_above b holders = min_of (b.most_bytes - b.room_bytes) (holders * b.holder_bytes)

-- `is_full`
unfoldable pub is_full : BlockBounds → ℕ → ℕ → Bool
unfolding full_above
is_full b compressed_bytes holders =
    ltb (full_above b holders) compressed_bytes && leb compressed_bytes b.most_bytes

-- The loop of `fullest`, where `measured` tells what a drop measures. Its `low` is one more than the
-- source's, which starts at one under the fewest; the fuel is at least as much as `high` is above it.
unfoldable pub search : (ℕ → ℕ) → ℕ → ℕ → ℕ → ℕ → ℕ → Option (ℕ × ℕ) → Option (ℕ × ℕ)
search measured most_bytes zero low high count fitting = fitting
search measured most_bytes (suc fuel) low high count fitting =
    let larger =
      search measured most_bytes fuel (count + 1) high ((count + high) / 2)
        (some (count, measured count)) in
    let smaller = search measured most_bytes fuel low count ((low + count - 1) / 2) fitting in
    if leb high low then fitting else if leb (measured count) most_bytes then larger else smaller

-- `fullest`: how many entries its drop holds, and what it measures
unfoldable pub fullest : BlockBounds → (ℕ → ℕ) → ℕ → ℕ → Option (ℕ × ℕ)
unfolding search
fullest b measured most fewest = search measured b.most_bytes (most + 1) fewest (most + 1) most none
