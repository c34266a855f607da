-- ===== src/Connections/Responses/Growth.antt =====
-- That what is found in the bytes received is found alike once more arrive:
-- src/libranet/connections/response_parser.py.
use libranet.Base.{
  ℕ, ◌+◌, ◌-◌, ◌≤◌, ◌<◌, ◌≡◌, refl, ap, ◌∙◌, ◌≢◌, inl, inr, Bool, true, false, Option, none, some,
  [], ◌∷◌, ◌++◌, arith, leb, Bool-cases, Option-cases, length, take, drop, length-append,
  take-within, drop-within, take-append, length-drop, take-le-length, Result, ok, err,
}
use libranet.Connections.Responses.Bytes.{Bytes, starts_with, find, find_within, slice}
use libranet.Connections.Responses.Head.{line_end, Limits}
use libranet.Connections.Responses.Parser.{framing_line, chunk_data}

starts_with-length : (sep bs : Bytes) → starts_with sep bs ≡ true → length sep ≤ length bs
unfolding starts_with
starts_with-length [] bs h = omega arith
starts_with-length (s ∷ sep) [] h = cc
starts_with-length (s ∷ sep) (b ∷ bs) h = ground (arith, starts_with-length sep bs)

-- Bytes that are long enough start alike with more after them.
starts_with-append :
    (sep bs more : Bytes)
    → length sep ≤ length bs
    → starts_with sep (bs ++ more) ≡ starts_with sep bs
unfolding starts_with
starts_with-append [] bs more h = refl
starts_with-append (s ∷ sep) [] more h = absurd (omega arith)
starts_with-append (s ∷ sep) (b ∷ bs) more h =
    rw (starts_with-append sep bs more (omega arith)) refl

find-length : (sep bs : Bytes) (i : ℕ) → find sep bs ≡ some i → i + length sep ≤ length bs
unfolding find
find-length sep [] i h = cc
find-length sep (b ∷ bs) i h = elim (Bool-cases (starts_with sep (b ∷ bs))) [
  | inl t ↦ ground (arith, t, starts_with-length sep (b ∷ bs))
  | inr f ↦ elim (Option-cases (find sep bs)) [
    | inl e ↦ ground (arith, f, e)
    | inr (j, e) ↦ ground (arith, f, e, find-length sep bs j e)
  ]
]

find-append : (sep bs more : Bytes) (i : ℕ) → find sep bs ≡ some i → find sep (bs ++ more) ≡ some i
unfolding find
find-append sep [] more i h = cc
find-append sep (b ∷ bs) more i h = elim (Bool-cases (starts_with sep (b ∷ bs))) [
  | inl t ↦ ground (arith, t, starts_with-length sep (b ∷ bs), starts_with-append sep (b ∷ bs) more)
  | inr f ↦ elim (Option-cases (find sep bs)) [
    | inl e ↦ ground (arith, f, e)
    | inr (j, e) ↦ ground (
      arith,
      f,
      e,
      find-length sep bs j e,
      find-append sep bs more j e,
      starts_with-append sep (b ∷ bs) more,
    )
  ]
]

find_not_empty : (sep bs : Bytes) (i : ℕ) → find sep bs ≡ some i → 0 < length bs
unfolding find
find_not_empty sep [] i h = cc
find_not_empty sep (b ∷ bs) i h = omega arith

-- What is in a stretch of the buffer starts what is in it once more arrive.
slice-append :
    (start stop : ℕ) (buffer more : Bytes) (i : ℕ) (sep : Bytes)
    → find sep (slice start stop buffer) ≡ some i
    → (rest : Bytes) × (slice start stop (buffer ++ more) ≡ slice start stop buffer ++ rest)
slice-append start stop buffer more i sep h =
    let (zs, e) = take-append stop buffer more in
    let inside : start ≤ length (take stop buffer) = omega (
      arith,
      find_not_empty sep (slice start stop buffer) i h,
      length-drop start (take stop buffer),
    ) in
    (zs, ap (drop start) e ∙ drop-within start (take stop buffer) zs inside)

pub find_within-append :
    (sep : Bytes) (start stop : ℕ) (buffer more : Bytes) (end : ℕ)
    → find_within sep start stop buffer ≡ some end
    → find_within sep start stop (buffer ++ more) ≡ some end
unfolding find_within
find_within-append sep start stop buffer more end h =
    elim (Option-cases (find sep (slice start stop buffer))) [
      | inl e ↦ ground (arith, e)
      | inr (i, e) ↦
          let (rest, q) = slice-append start stop buffer more i sep e in
          ground (arith, e, q, find-append sep (slice start stop buffer) rest i e)
    ]

-- Where the stretch has all arrived, what is not in it never will be.
pub find_within-all :
    (sep : Bytes) (start stop : ℕ) (buffer more : Bytes)
    → stop ≤ length buffer
    → find_within sep start stop (buffer ++ more) ≡ find_within sep start stop buffer
unfolding find_within
find_within-all sep start stop buffer more h = rw (take-within stop buffer more h, find_within) refl

pub find_within-bounds :
    (sep : Bytes) (start stop : ℕ) (buffer : Bytes) (end : ℕ)
    → 0 < length sep
    → find_within sep start stop buffer ≡ some end
    → (start ≤ end) × (end + length sep ≤ length buffer)
unfolding find_within
find_within-bounds sep start stop buffer end p h =
    elim (Option-cases (find sep (slice start stop buffer))) [
      | inl e ↦ absurd (ground (arith, e))
      | inr (i, e) ↦
          let at_i : i + length sep ≤ length (slice start stop buffer) =
            find-length sep (slice start stop buffer) i e in
          let all : length (slice start stop buffer) ≡ length (take stop buffer) - start =
            length-drop start (take stop buffer) in
          let ends : start + i ≡ end = ground (arith, e) in
          omega (arith, at_i, all, ends, take-le-length stop buffer)
    ]

-- Whether an answer waits for no more bytes.
abbrev pub is_settled {ℓ} : {A : Type ℓ} → Result (Option A) → Bool
is_settled (err e) = true
is_settled (ok none) = false
is_settled (ok (some a)) = true

pub framing_line-append :
    (limits : Limits) (start position size_bytes : ℕ) (buffer more : Bytes)
    → is_settled (framing_line limits start position size_bytes buffer) ≡ true
    → framing_line limits start position size_bytes (buffer ++ more)
      ≡ framing_line limits start position size_bytes buffer
unfolding framing_line
framing_line-append limits start position size_bytes buffer more h =
    let allowed : ℕ = start + size_bytes + limits.max_head_bytes in
    elim (Option-cases (find_within line_end position allowed buffer)) [
      | inl e ↦ elim (Bool-cases (leb allowed (length buffer))) [
        | inl t ↦ ground (
          arith,
          e,
          t,
          length-append {0} buffer more,
          find_within-all line_end position allowed buffer more,
        )
        | inr f ↦ ground (arith, e, f)
      ]
      | inr (end, e) ↦
          let bounds : (position ≤ end) × (end + 2 ≤ length buffer) =
            find_within-bounds line_end position allowed buffer end (omega arith) e in
          ground (
            arith,
            e,
            find_within-append line_end position allowed buffer more end e,
            take-within {0} end buffer more (omega (arith, bounds)),
          )
    ]

pub framing_line-bounds :
    (limits : Limits) (start position size_bytes : ℕ) (buffer line : Bytes) (next : ℕ)
    → framing_line limits start position size_bytes buffer ≡ ok (some (line, next))
    → (position + 2 ≤ next) × (next ≤ length buffer)
unfolding framing_line
framing_line-bounds limits start position size_bytes buffer line next h =
    let allowed : ℕ = start + size_bytes + limits.max_head_bytes in
    elim (Option-cases (find_within line_end position allowed buffer)) [
      | inl e ↦ absurd (ground (arith, e))
      | inr (end, e) ↦
          let bounds : (position ≤ end) × (end + 2 ≤ length buffer) =
            find_within-bounds line_end position allowed buffer end (omega arith) e in
          let ends : end + 2 ≡ next = ground (arith, e) in (omega arith, omega arith)
    ]

pub chunk_data-append :
    (end : ℕ) (buffer more : Bytes)
    → (chunk_data end buffer ≢ ok false)
    → chunk_data end (buffer ++ more) ≡ chunk_data end buffer
unfolding chunk_data
chunk_data-append end buffer more h =
    ground (arith, length-append {0} buffer more, take-within {0} (end + 2) buffer more)
