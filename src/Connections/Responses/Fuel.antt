-- ===== src/Connections/Responses/Fuel.antt =====
-- That asking for a response ends: src/libranet/connections/response_parser.py.
use libranet.Base.{
  ℕ, zero, suc, ◌+◌, ◌≤◌, ◌<◌, ◌≡◌, inl, inr, Bool, true, some, [], arith, Option-cases, length,
  take, drop, length-take, length-drop, Result-cases, ok,
}
use libranet.Connections.Responses.Bytes.{Bytes, find_within, split_lines}
use libranet.Connections.Responses.Head.{
  head_end, status_line, first_text, rest_of, read_headers, framing_of, parse_head, HeaderDict,
  Limits, ResponseHead,
}
use libranet.Connections.Responses.Parser.{
  chunks_from, chunked_body, head_of, final_head, body_after, next_response, RequestLine,
}
use libranet.Connections.Responses.Growth.{find_within-bounds}
use libranet.Connections.Responses.Cases.{found_cases, run_cases, final_cases}
use libranet.Connections.Responses.Loops.{is_done, chunks_end}

module _ {H : Type 0} (dict : HeaderDict H) where
  parse_head-size :
      (limits : Limits) (is_head : Bool) (text : Bytes) (head : ResponseHead H)
      → parse_head dict limits is_head text ≡ ok head
      → head.size_bytes ≡ length text + 4
  unfolding parse_head
  parse_head-size limits is_head text head h =
      elim (Option-cases (status_line (first_text (split_lines text)))) [
        | inl e ↦ absurd (ground (arith, e))
        | inr ((minor_version, status, reason), e) ↦
            elim (Result-cases (read_headers dict (rest_of (split_lines text)) dict.no_headers)) [
              | inr (x, r) ↦ absurd (ground (arith, e, r))
              | inl (headers, r) ↦
                  elim (Result-cases (framing_of dict limits is_head status headers)) [
                    | inr (x, f) ↦ absurd (ground (arith, e, r, f))
                    | inl (framed, f) ↦ ground (arith, e, r, f)
                  ]
            ]
      ]

  pub head_of-bounds :
      (limits : Limits) (is_head : Bool) (buffer : Bytes) (head : ResponseHead H)
      → head_of dict limits is_head buffer ≡ ok (some head)
      → (4 ≤ head.size_bytes) × (head.size_bytes ≤ length buffer)
  unfolding head_of
  head_of-bounds limits is_head buffer head h =
      elim (Option-cases (find_within head_end 0 limits.max_head_bytes buffer)) [
        | inl e ↦ absurd (ground (arith, e))
        | inr (end, e) ↦
            let bounds : (0 ≤ end) × (end + 4 ≤ length buffer) =
              find_within-bounds head_end 0 limits.max_head_bytes buffer end (omega arith) e in
            elim (Result-cases (parse_head dict limits is_head (take end buffer))) [
              | inr (x, r) ↦ absurd (ground (arith, e, r))
              | inl (parsed, r) ↦
                  let size : parsed.size_bytes ≡ length (take end buffer) + 4 =
                    parse_head-size limits is_head (take end buffer) parsed r in
                  let whole : length (take end buffer) ≡ end =
                    length-take end buffer (omega arith) in
                  let same : parsed.size_bytes ≡ head.size_bytes = ground (arith, e, r) in
                  (omega arith, omega arith)
            ]
      ]

  pub final_head_ends :
      (fuel : ℕ) (limits : Limits) (is_head : Bool) (buffer : Bytes)
      → length buffer < fuel
      → is_done (final_head dict fuel limits is_head buffer) ≡ true
  unfolding final_head
  final_head_ends zero limits is_head buffer h = absurd (omega arith)
  final_head_ends (suc fuel) limits is_head buffer h =
      elim (found_cases (head_of dict limits is_head buffer)) [
        | inl (e, q) ↦ ground (arith, q)
        | inr (inl q) ↦ ground (arith, q)
        | inr (inr (head, q)) ↦ ground (
          arith,
          q,
          head_of-bounds limits is_head buffer head q,
          length-drop {0} head.size_bytes buffer,
          final_head_ends fuel limits is_head (drop head.size_bytes buffer),
        )
      ]

  -- What a final head leaves of the buffer starts with that head.
  pub final_head-left :
      (fuel : ℕ) (limits : Limits) (is_head : Bool) (buffer left : Bytes) (head : ResponseHead H)
      → final_head dict fuel limits is_head buffer ≡ some (ok (some head), left)
      → head_of dict limits is_head left ≡ ok (some head)
  unfolding final_head
  final_head-left zero limits is_head buffer left head h = cc
  final_head-left (suc fuel) limits is_head buffer left head h =
      elim (found_cases (head_of dict limits is_head buffer)) [
        | inl (e, q) ↦ absurd (ground (arith, q))
        | inr (inl q) ↦ absurd (ground (arith, q))
        | inr (inr (first, q)) ↦
            ground (
              arith,
              q,
              final_head-left fuel limits is_head (drop first.size_bytes buffer) left head,
            )
      ]

  body_after_ends :
      (limits : Limits) (request : RequestLine) (head : ResponseHead H) (buffer : Bytes)
      → head.size_bytes ≤ length buffer
      → is_done (body_after dict limits request head buffer) ≡ true
  unfolding body_after chunked_body
  body_after_ends limits request head buffer h = ground (
    arith,
    chunks_end (length buffer + 1) limits head.size_bytes head.size_bytes 0 [] buffer,
    run_cases (chunks_from (length buffer + 1) limits head.size_bytes head.size_bytes 0 [] buffer),
  )

  -- However the bytes received read, asking for the next response ends: the fuel for each byte is enough for the interim
  -- heads, the chunks, and the lines of the trailer.
  pub next_response_ends :
      (limits : Limits) (request : RequestLine) (buffer : Bytes)
      → is_done (next_response dict limits request buffer) ≡ true
  unfolding next_response
  next_response_ends limits request buffer =
      elim (final_cases (final_head dict (length buffer + 1) limits request.is_head buffer)) [
        | inl q ↦
            ground (arith, q, final_head_ends (length buffer + 1) limits request.is_head buffer)
        | inr (inl (e, left, q)) ↦ ground (arith, q)
        | inr (inr (inl (left, q))) ↦ ground (arith, q)
        | inr (inr (inr (head, left, q))) ↦ ground (
          arith,
          q,
          head_of-bounds limits request.is_head left head
              (final_head-left (length buffer + 1) limits request.is_head buffer left head q),
          body_after_ends limits request head left,
        )
      ]
