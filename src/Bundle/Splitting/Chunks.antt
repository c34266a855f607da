-- ===== src/Bundle/Splitting/Chunks.antt =====
-- That the chunks add_entry each entry once, in order, none of them too large, and that an entry that ends its chunk parts
-- what is before it from what is after: src/libranet/bundle/splitting.py.
use mathlib.Core.List.{append-nil, append_assoc}
use libranet.Base.{
  ℕ, ◌+◌, ◌/◌, ◌≤◌, ◌≡◌, refl, sym, ap, ◌∙◌, inl, inr, Bool, true, false, not, ◌&&◌, ◌||◌, List, [],
  ◌∷◌, ◌++◌, arith, ltb, leb, if◌then◌else◌, Bool-cases, sum_by, All, All-append,
}
use libranet.Bundle.Splitting.{
  ends_chunk, sort_entries, is_empty, no_split, end_chunk, add_entry, ends_early, split_entry,
  split_each, chunks_of, split_entries, SplitEntry, Split,
}

abbrev pub concat : List (List SplitEntry) → List SplitEntry
concat [] = []
concat (c ∷ cs) = c ++ concat cs

abbrev pub bytes_of : List SplitEntry → ℕ
bytes_of es = sum_by (λ (e : SplitEntry). e.encoded_bytes) es

-- A chunk that is not empty, and is within the most bytes unless it is one entry.
abbrev pub is_chunk : ℕ → List SplitEntry → Bool
is_chunk max_bytes [] = false
is_chunk max_bytes (e ∷ []) = true
is_chunk max_bytes (e ∷ f ∷ es) = leb (bytes_of (e ∷ f ∷ es)) max_bytes

concat-append : (xs ys : List (List SplitEntry)) → concat (xs ++ ys) ≡ concat xs ++ concat ys
concat-append [] ys = refl
concat-append (x ∷ xs) ys = rw (concat-append xs ys) (sym (append_assoc x (concat xs) (concat ys)))

-- The entries taken so far, in order.
abbrev pub entries_held : Split → List SplitEntry
entries_held s = concat s.chunks ++ s.chunk

entries_held-end_chunk : (s : Split) → entries_held (end_chunk s) ≡ entries_held s
unfolding end_chunk
entries_held-end_chunk s =
    append-nil (concat (s.chunks ++ (s.chunk ∷ [])))
    ∙ concat-append s.chunks (s.chunk ∷ [])
    ∙ ap (λ (l : List SplitEntry). concat s.chunks ++ l) (append-nil s.chunk)

entries_held-add_entry :
    (e : SplitEntry) (s : Split) → entries_held (add_entry e s) ≡ entries_held s ++ (e ∷ [])
unfolding add_entry
entries_held-add_entry e s = sym (append_assoc (concat s.chunks) s.chunk (e ∷ []))

entries_held-split_entry :
    (max_bytes : ℕ) (e : SplitEntry) (s : Split)
    → entries_held (split_entry max_bytes e s) ≡ entries_held s ++ (e ∷ [])
unfolding split_entry
entries_held-split_entry max_bytes e s = ground (
  arith,
  entries_held-end_chunk s,
  entries_held-add_entry e s,
  entries_held-add_entry e (end_chunk s),
  entries_held-end_chunk (add_entry e s),
  entries_held-end_chunk (add_entry e (end_chunk s)),
)

entries_held-split_each :
    (max_bytes : ℕ) (es : List SplitEntry) (s : Split)
    → entries_held (split_each max_bytes es s) ≡ entries_held s ++ es
unfolding split_each
entries_held-split_each max_bytes [] s = sym (append-nil (entries_held s))
entries_held-split_each max_bytes (e ∷ es) s =
    entries_held-split_each max_bytes es (split_entry max_bytes e s)
    ∙ ap (λ (l : List SplitEntry). l ++ es) (entries_held-split_entry max_bytes e s)
    ∙ append_assoc (entries_held s) (e ∷ []) es

no_entries : (es : List SplitEntry) → is_empty es ≡ true → es ≡ []
no_entries [] h = refl
no_entries (e ∷ es) h = cc

concat-chunks_of : (s : Split) → concat (chunks_of s) ≡ entries_held s
unfolding chunks_of
concat-chunks_of s = ground (
  arith,
  no_entries s.chunk,
  append-nil (concat s.chunks),
  concat-append s.chunks (s.chunk ∷ []),
  append-nil s.chunk,
)

-- The chunks, one after another, are the entries in order.
pub concat-split_entries :
    (max_bytes : ℕ) (entries : List SplitEntry)
    → concat (split_entries max_bytes entries) ≡ sort_entries entries
unfolding split_entries
concat-split_entries max_bytes entries =
    concat-chunks_of (split_each max_bytes (sort_entries entries) no_split)
    ∙ entries_held-split_each max_bytes (sort_entries entries) no_split

-- The chunks ended are within bounds, as is the chunk under way where it is not empty, and its bytes are counted.
pub record IsSplit (max_bytes : ℕ) (s : Split) : Type 0 where
  pub ended : All (λ (c : List SplitEntry). is_chunk max_bytes c ≡ true) s.chunks
  pub under_way : (is_empty s.chunk || is_chunk max_bytes s.chunk) ≡ true
  pub bytes_counted : bytes_of s.chunk ≡ s.chunk_bytes

IsSplit-end_chunk :
    (max_bytes : ℕ) (s : Split)
    → is_chunk max_bytes s.chunk ≡ true
    → IsSplit max_bytes s
    → IsSplit max_bytes (end_chunk s)
unfolding end_chunk
IsSplit-end_chunk max_bytes s c i = record {
  ended =
      All-append (λ (x : List SplitEntry). is_chunk max_bytes x ≡ true) s.chunks (s.chunk ∷ [])
        i.ended (c, tt);
  under_way = refl;
  bytes_counted = refl;
}

bytes_of-append :
    (es : List SplitEntry) (e : SplitEntry)
    → bytes_of (es ++ (e ∷ [])) ≡ bytes_of es + e.encoded_bytes
bytes_of-append [] e = omega arith
bytes_of-append (f ∷ es) e = omega (arith, bytes_of-append es e)

is_chunk_bound :
    (max_bytes : ℕ) (e : SplitEntry) (es : List SplitEntry)
    → bytes_of (e ∷ es) ≤ max_bytes
    → is_chunk max_bytes (e ∷ es) ≡ true
is_chunk_bound max_bytes e [] h = refl
is_chunk_bound max_bytes e (f ∷ es) h = ground arith

is_chunk-append :
    (max_bytes : ℕ) (e : SplitEntry) (es : List SplitEntry)
    → (not (is_empty es) && ltb max_bytes (bytes_of es + e.encoded_bytes)) ≡ false
    → is_chunk max_bytes (es ++ (e ∷ [])) ≡ true
is_chunk-append max_bytes e [] h = refl
is_chunk-append max_bytes e (f ∷ es) h =
    is_chunk_bound max_bytes f (es ++ (e ∷ [])) (ground (arith, bytes_of-append es e))

is_chunk-add_entry :
    (max_bytes : ℕ) (e : SplitEntry) (s : Split)
    → ends_early max_bytes e s ≡ false
    → IsSplit max_bytes s
    → is_chunk max_bytes (add_entry e s).chunk ≡ true
unfolding add_entry ends_early
is_chunk-add_entry max_bytes e s h i = is_chunk-append max_bytes e s.chunk (rw i.bytes_counted h)

IsSplit-add_entry :
    (max_bytes : ℕ) (e : SplitEntry) (s : Split)
    → ends_early max_bytes e s ≡ false
    → IsSplit max_bytes s
    → IsSplit max_bytes (add_entry e s)
unfolding add_entry
IsSplit-add_entry max_bytes e s h i = record {
  ended = i.ended;
  under_way = ground (arith, is_chunk-add_entry max_bytes e s h i);
  bytes_counted = bytes_of-append s.chunk e ∙ ap (λ (n : ℕ). n + e.encoded_bytes) i.bytes_counted;
}

ends_early-chunk :
    (max_bytes : ℕ) (e : SplitEntry) (s : Split)
    → ends_early max_bytes e s ≡ true
    → IsSplit max_bytes s
    → is_chunk max_bytes s.chunk ≡ true
unfolding ends_early
ends_early-chunk max_bytes e s h i = ground (arith, i.under_way)

IsSplit-last :
    (max_bytes : ℕ) (e : SplitEntry) (s : Split)
    → (ends_early max_bytes e s ≡ false)
    → IsSplit max_bytes s
    → IsSplit max_bytes
        (if ends_chunk (max_bytes / 2) e then end_chunk (add_entry e s) else add_entry e s)
IsSplit-last max_bytes e s h i = elim (Bool-cases (ends_chunk (max_bytes / 2) e)) [
  | inl t ↦ rw t (
      IsSplit-end_chunk max_bytes (add_entry e s) (is_chunk-add_entry max_bytes e s h i)
        (IsSplit-add_entry max_bytes e s h i))
  | inr f ↦ rw f (IsSplit-add_entry max_bytes e s h i)
]

not_early :
    (max_bytes : ℕ) (e : SplitEntry) (s : Split) → ends_early max_bytes e (end_chunk s) ≡ false
unfolding ends_early end_chunk
not_early max_bytes e s = refl

IsSplit-split_entry :
    (max_bytes : ℕ) (e : SplitEntry) (s : Split)
    → IsSplit max_bytes s
    → IsSplit max_bytes (split_entry max_bytes e s)
unfolding split_entry
IsSplit-split_entry max_bytes e s i = elim (Bool-cases (ends_early max_bytes e s)) [
  | inl t ↦
      rw (t, split_entry)
        (IsSplit-last max_bytes e (end_chunk s) (not_early max_bytes e s)
          (IsSplit-end_chunk max_bytes s (ends_early-chunk max_bytes e s t i) i))
  | inr f ↦ rw (f, split_entry) (IsSplit-last max_bytes e s f i)
]

IsSplit-split_each :
    (max_bytes : ℕ) (es : List SplitEntry) (s : Split)
    → IsSplit max_bytes s
    → IsSplit max_bytes (split_each max_bytes es s)
unfolding split_each
IsSplit-split_each max_bytes [] s i = i
IsSplit-split_each max_bytes (e ∷ es) s i =
    IsSplit-split_each max_bytes es (split_entry max_bytes e s)
      (IsSplit-split_entry max_bytes e s i)

chunks_of-bounded :
    (max_bytes : ℕ) (s : Split)
    → IsSplit max_bytes s
    → All (λ (c : List SplitEntry). is_chunk max_bytes c ≡ true) (chunks_of s)
unfolding chunks_of
chunks_of-bounded max_bytes s i = elim (Bool-cases (is_empty s.chunk)) [
  | inl t ↦ rw (t, chunks_of) i.ended
  | inr f ↦
      rw (f, chunks_of) (IsSplit-end_chunk max_bytes s (ground (arith, f, i.under_way)) i).ended
]

-- Splitting loses no entry and reorders none but by path: the chunks, one after another, are the entries sorted. None is
-- empty, and each is within the most bytes unless it is a single entry.
pub split_entries_lem :
    (max_bytes : ℕ) (entries : List SplitEntry)
    → (concat (split_entries max_bytes entries) ≡ sort_entries entries)
      × All (λ (c : List SplitEntry). is_chunk max_bytes c ≡ true) (split_entries max_bytes entries)
unfolding split_entries
split_entries_lem max_bytes entries = (
  concat-split_entries max_bytes entries,
  chunks_of-bounded max_bytes (split_each max_bytes (sort_entries entries) no_split) (
      IsSplit-split_each max_bytes (sort_entries entries) no_split
        (record { ended = tt; under_way = refl; bytes_counted = refl })),
)
