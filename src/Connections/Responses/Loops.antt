-- ===== src/Connections/Responses/Loops.antt =====
-- That the loops over chunks and trailers end within the bytes received:
-- src/libranet/connections/response_parser.py.
use libranet.Base.{
  ℕ, zero, suc, ◌+◌, ◌≤◌, ◌<◌, ◌≡◌, inl, inr, Bool, true, false, Option, none, some, [], ◌∷◌, ◌++◌,
  arith, length, ok,
}
use libranet.Connections.Responses.Bytes.{Bytes, slice}
use libranet.Connections.Responses.Head.{Limits}
use libranet.Connections.Responses.Parser.{
  framing_line, chunk_size, trailer, chunk_data, chunks_from,
}
use libranet.Connections.Responses.Growth.{framing_line-bounds}
use libranet.Connections.Responses.Cases.{
  line_cases, found_cases, size_cases, data_cases, run_cases,
}

abbrev pub is_done {ℓ} : {A : Type ℓ} → Option A → Bool
is_done none = false
is_done (some a) = true

-- A line costs at least its two bytes of line end, so fuel for each byte left is enough.
pub trailer_ends :
    (fuel : ℕ) (limits : Limits) (start position size_bytes : ℕ) (buffer : Bytes)
    → length buffer < fuel + position
    → position ≤ length buffer
    → is_done (trailer fuel limits start position size_bytes buffer) ≡ true
unfolding trailer
trailer_ends zero limits start position size_bytes buffer h k = absurd (omega arith)
trailer_ends (suc fuel) limits start position size_bytes buffer h k =
    elim (line_cases (framing_line limits start position size_bytes buffer)) [
      | inl (e, q) ↦ ground (arith, q)
      | inr (inl q) ↦ ground (arith, q)
      | inr (inr (inl (next, q))) ↦ ground (arith, q)
      | inr (inr (inr (c, cs, next, q))) ↦ ground (
        arith,
        q,
        framing_line-bounds limits start position size_bytes buffer (c ∷ cs) next q,
        trailer_ends fuel limits start next size_bytes buffer,
      )
    ]

pub chunk_data-bounds :
    (end : ℕ) (buffer : Bytes) → chunk_data end buffer ≡ ok true → end + 2 ≤ length buffer
unfolding chunk_data
chunk_data-bounds end buffer h = ground arith

pub chunks_end :
    (fuel : ℕ) (limits : Limits) (start position size_bytes : ℕ) (body buffer : Bytes)
    → length buffer < fuel + position
    → position ≤ length buffer
    → is_done (chunks_from fuel limits start position size_bytes body buffer) ≡ true
unfolding chunks_from
chunks_end zero limits start position size_bytes body buffer h k = absurd (omega arith)
chunks_end (suc fuel) limits start position size_bytes body buffer h k =
    elim (found_cases (framing_line limits start position size_bytes buffer)) [
      | inl (e, q) ↦ ground (arith, q)
      | inr (inl q) ↦ ground (arith, q)
      | inr (inr ((line, next), q)) ↦
          let bounds : (position + 2 ≤ next) × (next ≤ length buffer) =
            framing_line-bounds limits start position size_bytes buffer line next q in
          elim (size_cases (chunk_size line)) [
            | inl (e, z) ↦ ground (arith, q, z)
            | inr (inl z) ↦ elim (run_cases (trailer fuel limits start next size_bytes buffer)) [
              | inl t ↦
                  ground (arith, t, bounds, trailer_ends fuel limits start next size_bytes buffer)
              | inr (inl (e, t)) ↦ ground (arith, q, z, t)
              | inr (inr (inl t)) ↦ ground (arith, q, z, t)
              | inr (inr (inr (end, t))) ↦ ground (arith, q, z, t)
            ]
            | inr (inr (n, z)) ↦ elim (data_cases (chunk_data (next + suc n) buffer)) [
              | inl (e, d) ↦ ground (arith, q, z, d)
              | inr (inl d) ↦ ground (arith, q, z, d)
              | inr (inr d) ↦ ground (
                arith,
                q,
                z,
                d,
                bounds,
                chunk_data-bounds (next + suc n) buffer d,
                chunks_end fuel limits start (next + suc n + 2) (size_bytes + suc n)
                    (body ++ slice next (next + suc n) buffer) buffer,
              )
            ]
          ]
    ]

trailer-bounds :
    (fuel : ℕ) (limits : Limits) (start position size_bytes : ℕ) (buffer : Bytes) (end : ℕ)
    → trailer fuel limits start position size_bytes buffer ≡ some (ok (some end))
    → end ≤ length buffer
unfolding trailer
trailer-bounds zero limits start position size_bytes buffer end h = cc
trailer-bounds (suc fuel) limits start position size_bytes buffer end h =
    elim (line_cases (framing_line limits start position size_bytes buffer)) [
      | inl (e, q) ↦ absurd (ground (arith, q))
      | inr (inl q) ↦ absurd (ground (arith, q))
      | inr (inr (inl (next, q))) ↦
          ground (arith, q, framing_line-bounds limits start position size_bytes buffer [] next q)
      | inr (inr (inr (c, cs, next, q))) ↦
          ground (arith, q, trailer-bounds fuel limits start next size_bytes buffer end)
    ]

pub chunks_from-bounds :
    (fuel : ℕ) (limits : Limits) (start position size_bytes : ℕ) (body buffer whole : Bytes)
    (end : ℕ)
    → chunks_from fuel limits start position size_bytes body buffer ≡ some (ok (some (whole, end)))
    → end ≤ length buffer
unfolding chunks_from
chunks_from-bounds zero limits start position size_bytes body buffer whole end h = cc
chunks_from-bounds (suc fuel) limits start position size_bytes body buffer whole end h =
    elim (found_cases (framing_line limits start position size_bytes buffer)) [
      | inl (e, q) ↦ absurd (ground (arith, q))
      | inr (inl q) ↦ absurd (ground (arith, q))
      | inr (inr ((line, next), q)) ↦ elim (size_cases (chunk_size line)) [
        | inl (e, z) ↦ absurd (ground (arith, q, z))
        | inr (inl z) ↦ elim (run_cases (trailer fuel limits start next size_bytes buffer)) [
          | inl t ↦ absurd (ground (arith, q, z, t))
          | inr (inl (e, t)) ↦ absurd (ground (arith, q, z, t))
          | inr (inr (inl t)) ↦ absurd (ground (arith, q, z, t))
          | inr (inr (inr (last, t))) ↦
              ground
                (arith, q, z, t, trailer-bounds fuel limits start next size_bytes buffer last t)
        ]
        | inr (inr (n, z)) ↦ elim (data_cases (chunk_data (next + suc n) buffer)) [
          | inl (e, d) ↦ absurd (ground (arith, q, z, d))
          | inr (inl d) ↦ absurd (ground (arith, q, z, d))
          | inr (inr d) ↦ ground (
            arith,
            q,
            z,
            d,
            chunks_from-bounds fuel limits start (next + suc n + 2) (size_bytes + suc n)
                (body ++ slice next (next + suc n) buffer) buffer whole end,
          )
        ]
      ]
    ]
