-- ===== src/Bundle/Splitting/Local.antt =====
-- That an entry that ends its chunk parts the chunks before it from those after: src/libranet/bundle/splitting.py.
use mathlib.Core.List.{append-nil, append_assoc}
use libranet.Base.{ℕ, ◌/◌, ◌≡◌, refl, sym, ap, ◌∙◌, true, List, [], ◌∷◌, ◌++◌, arith, if◌then◌else◌}
use libranet.Bundle.Splitting.{
  ends_chunk, sort_entries, no_split, end_chunk, add_entry, ends_early, split_entry, split_each,
  chunks_of, split_entries, SplitEntry, Split,
}

-- A split after chunks that there are already.
abbrev after_chunks : List (List SplitEntry) → Split → Split
after_chunks cs s = record s { chunks = cs ++ s.chunks }

end_chunk-after_chunks :
    (cs : List (List SplitEntry)) (s : Split)
    → end_chunk (after_chunks cs s) ≡ after_chunks cs (end_chunk s)
unfolding end_chunk
end_chunk-after_chunks cs s = rw (append_assoc cs s.chunks (s.chunk ∷ [])) refl

add_entry-after_chunks :
    (e : SplitEntry) (cs : List (List SplitEntry)) (s : Split)
    → add_entry e (after_chunks cs s) ≡ after_chunks cs (add_entry e s)
unfolding add_entry
add_entry-after_chunks e cs s = refl

early-after_chunks :
    (max_bytes : ℕ) (e : SplitEntry) (cs : List (List SplitEntry)) (s : Split)
    → ends_early max_bytes e (after_chunks cs s) ≡ ends_early max_bytes e s
unfolding ends_early
early-after_chunks max_bytes e cs s = refl

split_entry-after_chunks :
    (max_bytes : ℕ) (e : SplitEntry) (cs : List (List SplitEntry)) (s : Split)
    → split_entry max_bytes e (after_chunks cs s) ≡ after_chunks cs (split_entry max_bytes e s)
unfolding split_entry
split_entry-after_chunks max_bytes e cs s = ground (
  arith,
  early-after_chunks max_bytes e cs s,
  end_chunk-after_chunks cs s,
  add_entry-after_chunks e cs s,
  add_entry-after_chunks e cs (end_chunk s),
  end_chunk-after_chunks cs (add_entry e s),
  end_chunk-after_chunks cs (add_entry e (end_chunk s)),
)

split_each-after_chunks :
    (max_bytes : ℕ) (es : List SplitEntry) (cs : List (List SplitEntry)) (s : Split)
    → split_each max_bytes es (after_chunks cs s) ≡ after_chunks cs (split_each max_bytes es s)
unfolding split_each
split_each-after_chunks max_bytes [] cs s = refl
split_each-after_chunks max_bytes (e ∷ es) cs s =
    ap (split_each max_bytes es) (split_entry-after_chunks max_bytes e cs s)
    ∙ split_each-after_chunks max_bytes es cs (split_entry max_bytes e s)

split_each-append :
    (max_bytes : ℕ) (xs ys : List SplitEntry) (s : Split)
    → split_each max_bytes (xs ++ ys) s ≡ split_each max_bytes ys (split_each max_bytes xs s)
unfolding split_each
split_each-append max_bytes [] ys s = refl
split_each-append max_bytes (x ∷ xs) ys s =
    split_each-append max_bytes xs ys (split_entry max_bytes x s)

chunks_of-after_chunks :
    (cs : List (List SplitEntry)) (s : Split) → chunks_of (after_chunks cs s) ≡ cs ++ chunks_of s
unfolding chunks_of
chunks_of-after_chunks cs s = ground (arith, end_chunk-after_chunks cs s)

-- Nothing is under way once a chunk ends.
ended : (s : Split) → end_chunk s ≡ after_chunks (chunks_of (end_chunk s)) no_split
unfolding end_chunk chunks_of
ended s = rw (append-nil (s.chunks ++ (s.chunk ∷ []))) refl

split_entry_last :
    (max_bytes : ℕ) (e : SplitEntry) (s : Split)
    → ends_chunk (max_bytes / 2) e ≡ true
    → split_entry max_bytes e s
      ≡ end_chunk (add_entry e (if ends_early max_bytes e s then end_chunk s else s))
unfolding split_entry
split_entry_last max_bytes e s h = rw h refl

split_entry_ended :
    (max_bytes : ℕ) (e : SplitEntry) (s : Split)
    → ends_chunk (max_bytes / 2) e ≡ true
    → split_entry max_bytes e s ≡ after_chunks (chunks_of (split_entry max_bytes e s)) no_split
split_entry_ended max_bytes e s h =
    let held : Split = add_entry e (if ends_early max_bytes e s then end_chunk s else s) in
    let last : split_entry max_bytes e s ≡ end_chunk held = split_entry_last max_bytes e s h in
    last ∙ ended held ∙ ap (λ (t : Split). after_chunks (chunks_of t) no_split) (sym last)

-- Where an entry ends its chunk, the chunks of the entries up to it and those of the entries after it are made apart:
-- what one part holds changes no chunk of the other.
pub split_entries-apart :
    (max_bytes : ℕ) (entries xs ys : List SplitEntry) (e : SplitEntry)
    → sort_entries entries ≡ xs ++ (e ∷ ys)
    → ends_chunk (max_bytes / 2) e ≡ true
    → split_entries max_bytes entries
      ≡ chunks_of (split_each max_bytes (xs ++ (e ∷ [])) no_split)
        ++ chunks_of (split_each max_bytes ys no_split)
unfolding split_entries split_each
split_entries-apart max_bytes entries xs ys e q h =
    let s : Split = split_entry max_bytes e (split_each max_bytes xs no_split) in
    let up_to : split_each max_bytes (xs ++ (e ∷ [])) no_split ≡ s =
      split_each-append max_bytes xs (e ∷ []) no_split in
    let all : split_each max_bytes (sort_entries entries) no_split ≡ split_each max_bytes ys s =
      ap (λ (es : List SplitEntry). split_each max_bytes es no_split) q
      ∙ split_each-append max_bytes xs (e ∷ ys) no_split in
    let after : split_each max_bytes ys s
        ≡ after_chunks (chunks_of s) (split_each max_bytes ys no_split) =
      ap (split_each max_bytes ys)
        (split_entry_ended max_bytes e (split_each max_bytes xs no_split) h)
      ∙ split_each-after_chunks max_bytes ys (chunks_of s) no_split in
    ap chunks_of (all ∙ after)
    ∙ chunks_of-after_chunks (chunks_of s) (split_each max_bytes ys no_split)
    ∙ ap (λ (t : Split). chunks_of t ++ chunks_of (split_each max_bytes ys no_split)) (sym up_to)
