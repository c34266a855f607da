-- ===== src/Connections/Responses/Chunks.antt =====
-- That chunks and trailers read are read alike once more bytes arrive:
-- src/libranet/connections/response_parser.py.
use libranet.Base.{
  ℕ, zero, suc, ◌+◌, ◌≤◌, ◌≡◌, ◌∙◌, inl, inr, true, Option, some, ◌++◌, arith, take-within, Result,
  ok, err,
}
use libranet.Connections.Responses.Bytes.{Bytes, slice}
use libranet.Connections.Responses.Head.{Limits}
use libranet.Connections.Responses.Parser.{
  framing_line, chunk_size, trailer, chunk_data, chunks_from,
}
use libranet.Connections.Responses.Growth.{is_settled, framing_line-append, chunk_data-append}
use libranet.Connections.Responses.Cases.{
  line_cases, found_cases, size_cases, data_cases, run_cases,
}
use libranet.Connections.Responses.Loops.{chunk_data-bounds}

trailer-append :
    (fuel more_fuel : ℕ) (limits : Limits) (start position size_bytes : ℕ) (buffer more : Bytes)
    (r : Result (Option ℕ))
    → fuel ≤ more_fuel
    → is_settled r ≡ true
    → trailer fuel limits start position size_bytes buffer ≡ some r
    → trailer more_fuel limits start position size_bytes (buffer ++ more) ≡ some r
unfolding trailer
trailer-append zero more_fuel limits start position size_bytes buffer more r l s h = cc
trailer-append (suc fuel) zero limits start position size_bytes buffer more r l s h =
    absurd (omega arith)
trailer-append (suc fuel) (suc more_fuel) limits start position size_bytes buffer more r l s h =
    elim (line_cases (framing_line limits start position size_bytes buffer)) [
      | inl (e, q) ↦
          ground (arith, q, framing_line-append limits start position size_bytes buffer more)
      | inr (inl q) ↦ ground (arith, q)
      | inr (inr (inl (next, q))) ↦
          ground (arith, q, framing_line-append limits start position size_bytes buffer more)
      | inr (inr (inr (c, cs, next, q))) ↦ ground (
        arith,
        q,
        framing_line-append limits start position size_bytes buffer more,
        trailer-append fuel more_fuel limits start next size_bytes buffer more r,
      )
    ]

pub chunks_from-append :
    (fuel more_fuel : ℕ) (limits : Limits) (start position size_bytes : ℕ)
    (body buffer more : Bytes) (r : Result (Option (Bytes × ℕ)))
    → fuel ≤ more_fuel
    → is_settled r ≡ true
    → chunks_from fuel limits start position size_bytes body buffer ≡ some r
    → chunks_from more_fuel limits start position size_bytes body (buffer ++ more) ≡ some r
unfolding chunks_from
chunks_from-append zero more_fuel limits start position size_bytes body buffer more r l s h = cc
chunks_from-append (suc fuel) zero limits start position size_bytes body buffer more r l s h =
    absurd (omega arith)
chunks_from-append (suc fuel) (suc more_fuel) limits start position size_bytes body buffer more r l
      s h =
    elim (found_cases (framing_line limits start position size_bytes buffer)) [
      | inl (e, q) ↦
          ground (arith, q, framing_line-append limits start position size_bytes buffer more)
      | inr (inl q) ↦ ground (arith, q)
      | inr (inr ((line, next), q)) ↦
          let grown : framing_line limits start position size_bytes (buffer ++ more)
              ≡ ok (some (line, next)) =
            framing_line-append limits start position size_bytes buffer more (ground (arith, q))
            ∙ q in
          elim (size_cases (chunk_size line)) [
            | inl (e, z) ↦ ground (arith, q, z, grown)
            | inr (inl z) ↦ elim (run_cases (trailer fuel limits start next size_bytes buffer)) [
              | inl t ↦ ground (arith, q, z, t)
              | inr (inl (e, t)) ↦ ground (
                arith,
                q,
                z,
                t,
                grown,
                trailer-append fuel more_fuel limits start next size_bytes buffer more (err e),
              )
              | inr (inr (inl t)) ↦ ground (arith, q, z, t)
              | inr (inr (inr (end, t))) ↦ ground (
                arith,
                q,
                z,
                t,
                grown,
                trailer-append fuel more_fuel limits start next size_bytes buffer more
                    (ok (some end)),
              )
            ]
            | inr (inr (n, z)) ↦ elim (data_cases (chunk_data (next + suc n) buffer)) [
              | inl (e, d) ↦
                  ground (arith, q, z, d, grown, chunk_data-append (next + suc n) buffer more)
              | inr (inl d) ↦ ground (arith, q, z, d, grown)
              | inr (inr d) ↦ ground (
                arith,
                q,
                z,
                d,
                grown,
                chunk_data-append (next + suc n) buffer more,
                chunk_data-bounds (next + suc n) buffer d,
                take-within {0} (next + suc n) buffer more,
                chunks_from-append fuel more_fuel limits start (next + suc n + 2)
                    (size_bytes + suc n) (body ++ slice next (next + suc n) buffer) buffer more r,
              )
            ]
          ]
    ]
