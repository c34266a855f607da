-- ===== src/Bundle/Splitting.antt =====
-- A directory's entries split into chunks: src/libranet/bundle/splitting.py. An entry is its path, a number in the order
-- in which paths sort, with what the model needs of it: the bytes that it encodes to, and the number
-- that its path hashes to, of 64 bits.
pub mod Chunks
pub mod Local
use libranet.Base.{
  ℕ, ◌+◌, ◌*◌, ◌/◌, ◌^◌, Bool, true, false, not, ◌&&◌, List, [], ◌∷◌, ◌++◌, ltb, leb, if◌then◌else◌,
}

pub record SplitEntry : Type 0 where
  pub path : ℕ
  pub encoded_bytes : ℕ
  pub fraction : ℕ

-- `_ends_chunk`
unfoldable pub ends_chunk : ℕ → SplitEntry → Bool
ends_chunk target_bytes e = ltb (e.fraction * target_bytes) (e.encoded_bytes * 2 ^ 64)

-- `sorted`, of paths that differ
unfoldable pub insert_entry : SplitEntry → List SplitEntry → List SplitEntry
insert_entry e [] = e ∷ []
insert_entry e (f ∷ es) =
    let rest = insert_entry e es in if leb e.path f.path then e ∷ f ∷ es else f ∷ rest

unfoldable pub sort_entries : List SplitEntry → List SplitEntry
unfolding insert_entry
sort_entries [] = []
sort_entries (e ∷ es) = insert_entry e (sort_entries es)

abbrev pub is_empty : List SplitEntry → Bool
is_empty [] = true
is_empty (e ∷ es) = false

-- The chunks ended, the chunk under way, and its bytes.
pub record Split : Type 0 where
  pub chunks : List (List SplitEntry)
  pub chunk : List SplitEntry
  pub chunk_bytes : ℕ

abbrev pub no_split : Split
no_split = record { chunks = []; chunk = []; chunk_bytes = 0 }

unfoldable pub end_chunk : Split → Split
end_chunk s = record { chunks = s.chunks ++ (s.chunk ∷ []); chunk = []; chunk_bytes = 0 }

unfoldable pub add_entry : SplitEntry → Split → Split
add_entry e s = record s {
  chunk = s.chunk ++ (e ∷ []);
  chunk_bytes = s.chunk_bytes + e.encoded_bytes;
}

-- Whether the chunk under way ends before the entry, which would make it too large.
unfoldable pub ends_early : ℕ → SplitEntry → Split → Bool
ends_early max_bytes e s = not (is_empty s.chunk) && ltb max_bytes (s.chunk_bytes + e.encoded_bytes)

-- The loop of `split_entries`, of one entry
unfoldable pub split_entry : ℕ → SplitEntry → Split → Split
unfolding ends_early end_chunk add_entry ends_chunk
split_entry max_bytes e s =
    let held : Split = add_entry e (if ends_early max_bytes e s then end_chunk s else s) in
    if ends_chunk (max_bytes / 2) e then end_chunk held else held

unfoldable pub split_each : ℕ → List SplitEntry → Split → Split
unfolding split_entry
split_each max_bytes [] s = s
split_each max_bytes (e ∷ es) s = split_each max_bytes es (split_entry max_bytes e s)

-- The chunks, with the last that no entry ended.
unfoldable pub chunks_of : Split → List (List SplitEntry)
unfolding end_chunk
chunks_of s = if is_empty s.chunk then s.chunks else (end_chunk s).chunks

-- `split_entries`
unfoldable pub split_entries : ℕ → List SplitEntry → List (List SplitEntry)
unfolding split_each sort_entries chunks_of
split_entries max_bytes entries = chunks_of (split_each max_bytes (sort_entries entries) no_split)
