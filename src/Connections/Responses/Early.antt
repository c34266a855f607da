-- ===== src/Connections/Responses/Early.antt =====
-- That asking for a response before all of its bytes have arrived changes nothing:
-- src/libranet/connections/response_parser.py.
use libranet.Base.{
  ℕ, suc, ◌+◌, ◌≡◌, refl, ap, ◌∙◌, inl, inr, Bool, true, false, Option, none, some, [], ◌++◌, arith,
  if◌then◌else◌, Bool-cases, length, length-append, take-within, drop-within, Result, ok, err,
}
use libranet.Connections.Responses.Bytes.{Bytes}
use libranet.Connections.Responses.Head.{HeaderDict, Limits, ResponseHead}
use libranet.Connections.Responses.Parser.{
  feed, chunks_from, chunked_body, final_head, body_after, next_response, RequestLine, PeerResponse,
}
use libranet.Connections.Responses.Growth.{is_settled}
use libranet.Connections.Responses.Cases.{run_cases, framing_cases, final_cases}
use libranet.Connections.Responses.Loops.{chunks_from-bounds}
use libranet.Connections.Responses.Chunks.{chunks_from-append}
use libranet.Connections.Responses.Restart.{final_head-fuel, final_head-restart, final_head-here}

module _ {H : Type 0} (dict : HeaderDict H) where
  body_after-append :
      (limits : Limits) (request : RequestLine) (head : ResponseHead H) (buffer left more : Bytes)
      (r : Result (Option (PeerResponse H)))
      → is_settled r ≡ true
      → body_after dict limits request head buffer ≡ some (r, left)
      → body_after dict limits request head (buffer ++ more) ≡ some (r, left ++ more)
  unfolding body_after chunked_body
  body_after-append limits request head buffer left more r s h = elim (framing_cases head.framing) [
    | inl f ↦ ground (
      arith,
      f,
      length-append {0} buffer more,
      take-within {0} (head.size_bytes + head.length_bytes) buffer more,
      drop-within {0} (head.size_bytes + head.length_bytes) buffer more,
    )
    | inr (inr f) ↦ ground (arith, f, length-append {0} buffer more)
    | inr (inl f) ↦
        elim (run_cases
          (chunks_from (length buffer + 1) limits head.size_bytes head.size_bytes 0 [] buffer)) [
            | inl c ↦ absurd (ground (arith, f, c))
            | inr (inl (e, c)) ↦ ground (arith, f, c, longer (err e) c)
            | inr (inr (inl c)) ↦ absurd (ground (arith, f, c))
            | inr (inr (inr ((body, end), c))) ↦ ground (
              arith,
              f,
              c,
              longer (ok (some (body, end))) c,
              chunks_from-bounds (length buffer + 1) limits head.size_bytes head.size_bytes 0 []
                  buffer body end c,
              drop-within {0} end buffer more,
            )
          ]
  ]
    where
      longer :
          (w : Result (Option (Bytes × ℕ)))
          → chunks_from (length buffer + 1) limits head.size_bytes head.size_bytes 0 [] buffer
            ≡ some w
          → is_settled w ≡ true
          → chunks_from
              (length (buffer ++ more) + 1)
              limits
              head.size_bytes
              head.size_bytes
              0
              []
              (buffer ++ more)
            ≡ some w
      longer w c t =
          chunks_from-append (length buffer + 1) (length (buffer ++ more) + 1) limits
            head.size_bytes head.size_bytes 0 [] buffer more w
            (omega (arith, length-append {0} buffer more)) t c

  -- A body that has not all arrived takes nothing.
  body_after_waits :
      (limits : Limits) (request : RequestLine) (head : ResponseHead H) (buffer left : Bytes)
      (r : Result (Option (PeerResponse H)))
      → is_settled r ≡ false
      → body_after dict limits request head buffer ≡ some (r, left)
      → buffer ≡ left
  unfolding body_after
  body_after_waits limits request head buffer left r s h =
      ground
        (arith, framing_cases head.framing, run_cases (chunked_body limits head.size_bytes buffer))

  next_response_restart :
      (limits : Limits) (request : RequestLine) (buffer left more : Bytes)
      (r : Result (Option (ResponseHead H)))
      → final_head dict (length buffer + 1) limits request.is_head buffer ≡ some (r, left)
      → next_response dict limits request (buffer ++ more)
        ≡ next_response dict limits request (left ++ more)
  unfolding next_response
  next_response_restart limits request buffer left more r h =
      rw
        (
          final_head-restart dict (length buffer + 1) (length (buffer ++ more) + 1)
              (length (left ++ more) + 1) limits request.is_head buffer left more r h (omega arith)
              (omega arith),
          next_response,
        )
        refl

  final_head_settled :
      (limits : Limits) (is_head : Bool) (buffer left more : Bytes)
      (w : Result (Option (ResponseHead H)))
      → is_settled w ≡ true
      → final_head dict (length buffer + 1) limits is_head buffer ≡ some (w, left)
      → final_head dict (length (left ++ more) + 1) limits is_head (left ++ more)
        ≡ some (w, left ++ more)
  final_head_settled limits is_head buffer left more w s h =
      final_head-fuel dict (length (left ++ more) + 1) (suc (length (left ++ more))) limits is_head
        (left ++ more) (omega arith) (omega arith)
      ∙ final_head-here dict (length buffer + 1) (length (left ++ more)) limits is_head buffer left
          more w s h

  -- Asking for a response before more bytes arrive changes no answer: a response, or an error, is the same with them, and
  -- they are what is left more; where there was none yet, what is left gives with them what all of it gives.
  pub next_response-feed :
      (limits : Limits) (request : RequestLine) (buffer left more : Bytes)
      (r : Result (Option (PeerResponse H)))
      → next_response dict limits request buffer ≡ some (r, left)
      → next_response dict limits request (feed more buffer) ≡ (
          if is_settled r
          then some (r, feed more left)
          else next_response dict limits request (feed more left))
  unfolding next_response
  next_response-feed limits request buffer left more r h =
      elim (final_cases (final_head dict (length buffer + 1) limits request.is_head buffer)) [
        | inl q ↦ absurd (ground (arith, q))
        | inr (inl (e, l, q)) ↦ ground (
          arith,
          q,
          next_response_restart limits request buffer l more (err e) q,
          final_head_settled limits request.is_head buffer l more (err e) refl q,
        )
        | inr (inr (inl (l, q))) ↦
            ground (arith, q, next_response_restart limits request buffer l more (ok none) q)
        | inr (inr (inr (head, l, q))) ↦
            let again : next_response dict limits request (l ++ more)
                ≡ body_after dict limits request head (l ++ more) =
              rw
                (
                  final_head_settled limits request.is_head buffer l more (ok (some head)) refl q,
                  next_response,
                )
                refl in
            let body : body_after dict limits request head l ≡ some (r, left) = ground (arith, q) in
            let restart : next_response dict limits request (buffer ++ more)
                ≡ next_response dict limits request (l ++ more) =
              next_response_restart limits request buffer l more (ok (some head)) q in
            elim (Bool-cases (is_settled r)) [
              | inl t ↦
                  rw t
                    (restart ∙ again ∙ body_after-append limits request head l left more r t body)
              | inr f ↦ rw f (
                  restart
                  ∙ ap (λ (b : Bytes). next_response dict limits request (b ++ more))
                      (body_after_waits limits request head l left r f body))
            ]
      ]
