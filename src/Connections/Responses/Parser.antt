-- ===== src/Connections/Responses/Parser.antt =====
-- `ResponseParser` of src/libranet/connections/response_parser.py: the responses taken out of its buffer, in order.
use libranet.Base.{
  ℕ, zero, suc, ◌+◌, ◌-◌, ◌*◌, Bool, true, false, ◌&&◌, ◌||◌, Option, none, some, [], ◌∷◌, ◌++◌,
  ltb, leb, ◌==◌, if◌then◌else◌, length, take, drop, guard, ◌>>=◌, ◌>>◌, malformed_response, Result,
  ok, err,
}
use libranet.Connections.Responses.Bytes.{
  Bytes, find_within, slice, partition, is_blank, strip, same_text, every,
}
use libranet.Connections.Responses.Head.{
  line_end, head_end, not_empty, is_until_close, parse_head, HeaderDict, Limits, ResponseHead,
  by_length, chunked, until_close,
}

-- `RequestLine`, with whether its method is `HEAD`
pub record RequestLine : Type 0 where
  pub is_head : Bool
  pub target : Bytes

-- `PeerResponse`
pub record PeerResponse (H : Type 0) : Type 0 where
  pub request : RequestLine
  pub status : ℕ
  pub reason : Bytes
  pub headers : H
  pub body : Bytes
  pub closes_connection : Bool

-- `feed`
abbrev pub feed : Bytes → Bytes → Bytes
feed bytes buffer = buffer ++ bytes

-- `_framing_line`: a line and where the next one starts, `ok none` if it has not arrived.
unfoldable pub framing_line : Limits → ℕ → ℕ → ℕ → Bytes → Result (Option (Bytes × ℕ))
unfolding find_within
framing_line limits start position size_bytes buffer =
    let allowed : ℕ = start + size_bytes + limits.max_head_bytes in
    elim (find_within line_end position allowed buffer) [
      | none ↦ if leb allowed (length buffer) then err malformed_response else ok none
      | some end ↦ ok (some (slice position end buffer, end + 2))
    ]

abbrev pub is_hex : ℕ → Bool
is_hex c = (leb 48 c && leb c 57) || (leb 65 c && leb c 70) || (leb 97 c && leb c 102)

abbrev pub hex_digit : ℕ → ℕ
hex_digit c = if leb c 57 then c - 48 else if leb c 70 then c - 55 else c - 87

unfoldable pub hex_from : ℕ → Bytes → ℕ
hex_from n [] = n
hex_from n (c ∷ cs) = hex_from (16 * n + hex_digit c) cs

-- The size that a chunk's size line gives.
unfoldable pub chunk_size : Bytes → Result ℕ
unfolding partition strip every hex_from
chunk_size line = do
  let text : Bytes = strip is_blank (partition 59 line).0
  guard (not_empty text && leb (length text) 16 && every is_hex text) malformed_response
  ok (hex_from 0 text)

-- The loop over the trailer, to where the body ends. With no fuel left, `none`.
unfoldable pub trailer : ℕ → Limits → ℕ → ℕ → ℕ → Bytes → Option (Result (Option ℕ))
unfolding framing_line
trailer zero limits start position size_bytes buffer = none
trailer (suc fuel) limits start position size_bytes buffer =
    elim (framing_line limits start position size_bytes buffer) [
      | err e ↦ some (err e)
      | ok none ↦ some (ok none)
      | ok (some ([], next)) ↦ some (ok (some next))
      | ok (some (c ∷ cs, next)) ↦ trailer fuel limits start next size_bytes buffer
    ]

-- Whether the data of a chunk are there, and end where its size says.
unfoldable pub chunk_data : ℕ → Bytes → Result Bool
unfolding same_text
chunk_data end buffer =
    if ltb (length buffer) (end + 2)
    then ok false
    else (if same_text (slice end (end + 2) buffer) line_end
        then ok true
        else err malformed_response)

-- The loop over the chunks: the body and where it ends. With no fuel left, `none`.
unfoldable pub chunks_from :
    ℕ → Limits → ℕ → ℕ → ℕ → Bytes → Bytes → Option (Result (Option (Bytes × ℕ)))
unfolding framing_line chunk_size chunk_data trailer
chunks_from zero limits start position size_bytes body buffer = none
chunks_from (suc fuel) limits start position size_bytes body buffer =
    elim (framing_line limits start position size_bytes buffer) [
      | err e ↦ some (err e)
      | ok none ↦ some (ok none)
      | ok (some (line, next)) ↦ elim (chunk_size line) [
        | err e ↦ some (err e)
        | ok zero ↦ elim (trailer fuel limits start next size_bytes buffer) [
          | none ↦ none
          | some (err e) ↦ some (err e)
          | some (ok none) ↦ some (ok none)
          | some (ok (some end)) ↦ some (ok (some (body, end)))
        ]
        | ok (suc n) ↦ elim (ltb limits.max_body_bytes (size_bytes + suc n)) [
          | true ↦ some (err malformed_response)
          | false ↦ elim (chunk_data (next + suc n) buffer) [
            | err e ↦ some (err e)
            | ok false ↦ some (ok none)
            | ok true ↦
                chunks_from fuel limits start (next + suc n + 2) (size_bytes + suc n)
                  (body ++ slice next (next + suc n) buffer) buffer
          ]
        ]
      ]
    ]

-- `_chunked_body`, with fuel for a line of the framing at each byte
unfoldable pub chunked_body : Limits → ℕ → Bytes → Option (Result (Option (Bytes × ℕ)))
unfolding chunks_from
chunked_body limits start buffer = chunks_from (length buffer + 1) limits start start 0 [] buffer

module _ {H : Type 0} (dict : HeaderDict H) where
  -- `_head`: `ok none` if it has not all arrived
  unfoldable pub head_of : Limits → Bool → Bytes → Result (Option (ResponseHead H))
  unfolding find_within parse_head
  head_of limits is_head buffer = elim (find_within head_end 0 limits.max_head_bytes buffer) [
    | none ↦ if leb limits.max_head_bytes (length buffer) then err malformed_response else ok none
    | some end ↦ do head ← parse_head dict limits is_head (take end buffer); ok (some head)
  ]

  -- `_final_head`: the head, and the buffer without the interim heads. With no fuel left, `none`.
  unfoldable pub final_head :
      ℕ → Limits → Bool → Bytes → Option (Result (Option (ResponseHead H)) × Bytes)
  unfolding head_of
  final_head zero limits is_head buffer = none
  final_head (suc fuel) limits is_head buffer = elim (head_of limits is_head buffer) [
    | err e ↦ some (err e, buffer)
    | ok none ↦ some (ok none, buffer)
    | ok (some head) ↦ elim (leb 200 head.status) [
      | true ↦ some (ok (some head), buffer)
      | false ↦ elim (head.status == 101) [
        | true ↦ some (err malformed_response, buffer)
        | false ↦ final_head fuel limits is_head (drop head.size_bytes buffer)
      ]
    ]
  ]

  -- `_take`
  abbrev pub response_to : RequestLine → ResponseHead H → Bytes → PeerResponse H
  response_to request head body = record {
    request = request;
    status = head.status;
    reason = head.reason;
    headers = head.headers;
    body = body;
    closes_connection = head.closes_connection;
  }

  -- What follows a final head in `next_response`: the response, if all of it has arrived, and the buffer after it
  unfoldable pub body_after :
      Limits
      → RequestLine
      → ResponseHead H
      → Bytes
      → Option (Result (Option (PeerResponse H)) × Bytes)
  unfolding chunked_body
  body_after limits request head buffer = elim head.framing [
    | by_length ↦
        let end : ℕ = head.size_bytes + head.length_bytes in
        if ltb (length buffer) end
        then some (ok none, buffer)
        else some (
          ok (some (response_to request head (slice head.size_bytes end buffer))),
          drop end buffer,
        )
    | chunked ↦ elim (chunked_body limits head.size_bytes buffer) [
      | none ↦ none
      | some (err e) ↦ some (err e, buffer)
      | some (ok none) ↦ some (ok none, buffer)
      | some (ok (some (body, end))) ↦
          some (ok (some (response_to request head body)), drop end buffer)
    ]
    | until_close ↦
        if ltb limits.max_body_bytes (length buffer - head.size_bytes)
        then some (err malformed_response, buffer)
        else some (ok none, buffer)
  ]

  -- `next_response`, with fuel for an interim head at each byte
  unfoldable pub next_response :
      Limits → RequestLine → Bytes → Option (Result (Option (PeerResponse H)) × Bytes)
  unfolding final_head body_after
  next_response limits request buffer =
      elim (final_head (length buffer + 1) limits request.is_head buffer) [
        | none ↦ none
        | some (err e, left) ↦ some (err e, left)
        | some (ok none, left) ↦ some (ok none, left)
        | some (ok (some head), left) ↦ body_after limits request head left
      ]

  -- `finish`
  unfoldable pub finish :
      Limits → RequestLine → Bytes → Option (Result (Option (PeerResponse H)) × Bytes)
  unfolding final_head
  finish limits request [] = some (ok none, [])
  finish limits request (b ∷ bs) =
      elim (final_head (length (b ∷ bs) + 1) limits request.is_head (b ∷ bs)) [
        | none ↦ none
        | some (err e, left) ↦ some (err e, left)
        | some (ok none, left) ↦ some (err malformed_response, left)
        | some (ok (some head), left) ↦
            if is_until_close head.framing
            then some (ok (some (response_to request head (drop head.size_bytes left))), [])
            else some (err malformed_response, left)
      ]
