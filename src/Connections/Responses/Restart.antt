-- ===== src/Connections/Responses/Restart.antt =====
-- That heads read are read alike once more bytes arrive: src/libranet/connections/response_parser.py.
use libranet.Base.{
  ℕ, zero, suc, ◌+◌, ◌≤◌, ◌<◌, ◌≡◌, refl, sym, ap, ◌∙◌, inl, inr, Bool, true, Option, none, some,
  ◌++◌, arith, leb, ◌==◌, if◌then◌else◌, leb→le, Bool-cases, Option-cases, length, take, drop,
  length-append, take-within, drop-within, length-drop, ◌>>=◌, malformed_response, Result, ok, err,
}
use libranet.Connections.Responses.Bytes.{Bytes, find_within}
use libranet.Connections.Responses.Head.{head_end, parse_head, HeaderDict, Limits, ResponseHead}
use libranet.Connections.Responses.Parser.{head_of, final_head}
use libranet.Connections.Responses.Growth.{
  find_within-append, find_within-all, find_within-bounds, is_settled,
}
use libranet.Connections.Responses.Cases.{found_cases}
use libranet.Connections.Responses.Fuel.{head_of-bounds}

module _ {H : Type 0} (dict : HeaderDict H) where
  head_of_found :
      (limits : Limits) (is_head : Bool) (buffer : Bytes) (end : ℕ)
      → find_within head_end 0 limits.max_head_bytes buffer ≡ some end
      → head_of dict limits is_head buffer ≡ (
          parse_head dict limits is_head (take end buffer)
          >>= (λ (head : ResponseHead H). ok (some head)))
  unfolding head_of
  head_of_found limits is_head buffer end e = rw (e, head_of) refl

  head_of-none :
      (limits : Limits) (is_head : Bool) (buffer : Bytes)
      → find_within head_end 0 limits.max_head_bytes buffer ≡ none
      → head_of dict limits is_head buffer
        ≡ (if leb limits.max_head_bytes (length buffer) then err malformed_response else ok none)
  unfolding head_of
  head_of-none limits is_head buffer e = rw (e, head_of) refl

  head_of-append :
      (limits : Limits) (is_head : Bool) (buffer more : Bytes)
      → is_settled (head_of dict limits is_head buffer) ≡ true
      → head_of dict limits is_head (buffer ++ more) ≡ head_of dict limits is_head buffer
  head_of-append limits is_head buffer more s =
      elim (Option-cases (find_within head_end 0 limits.max_head_bytes buffer)) [
        | inl e ↦ elim (Bool-cases (leb limits.max_head_bytes (length buffer))) [
          | inl t ↦
              let all : find_within head_end 0 limits.max_head_bytes (buffer ++ more) ≡ none =
                find_within-all head_end 0 limits.max_head_bytes buffer more
                  (leb→le limits.max_head_bytes (length buffer) t)
                ∙ e in
              ground (
                arith,
                t,
                head_of-none limits is_head buffer e,
                head_of-none limits is_head (buffer ++ more) all,
                length-append {0} buffer more,
              )
          | inr f ↦ ground (arith, f, head_of-none limits is_head buffer e)
        ]
        | inr (end, e) ↦
            let bounds : (0 ≤ end) × (end + 4 ≤ length buffer) =
              find_within-bounds head_end 0 limits.max_head_bytes buffer end (omega arith) e in
            head_of_found limits is_head (buffer ++ more) end
              (find_within-append head_end 0 limits.max_head_bytes buffer more end e)
            ∙ ap
                (λ (text : Bytes).
                  parse_head dict limits is_head text
                  >>= (λ (head : ResponseHead H). ok (some head)))
                (take-within end buffer more (omega (arith, bounds)))
            ∙ sym (head_of_found limits is_head buffer end e)
      ]

  -- Fuel beyond what is enough changes nothing.
  pub final_head-fuel :
      (fuel more_fuel : ℕ) (limits : Limits) (is_head : Bool) (buffer : Bytes)
      → length buffer < fuel
      → length buffer < more_fuel
      → final_head dict fuel limits is_head buffer ≡ final_head dict more_fuel limits is_head buffer
  unfolding final_head
  final_head-fuel zero more_fuel limits is_head buffer l m = absurd (omega arith)
  final_head-fuel (suc fuel) zero limits is_head buffer l m = absurd (omega arith)
  final_head-fuel (suc fuel) (suc more_fuel) limits is_head buffer l m =
      elim (found_cases (head_of dict limits is_head buffer)) [
        | inl (e, q) ↦ ground (arith, q)
        | inr (inl q) ↦ ground (arith, q)
        | inr (inr (head, q)) ↦ ground (
          arith,
          q,
          head_of-bounds dict limits is_head buffer head q,
          length-drop {0} head.size_bytes buffer,
          final_head-fuel fuel more_fuel limits is_head (drop head.size_bytes buffer),
        )
      ]

  -- The interim heads that an early call dropped are dropped alike by a later one.
  pub final_head-restart :
      (fuel all_fuel left_fuel : ℕ) (limits : Limits) (is_head : Bool) (buffer left more : Bytes)
      (r : Result (Option (ResponseHead H)))
      → final_head dict fuel limits is_head buffer ≡ some (r, left)
      → length (buffer ++ more) < all_fuel
      → length (left ++ more) < left_fuel
      → final_head dict all_fuel limits is_head (buffer ++ more)
        ≡ final_head dict left_fuel limits is_head (left ++ more)
  unfolding final_head
  final_head-restart zero all_fuel left_fuel limits is_head buffer left more r h l m = cc
  final_head-restart (suc fuel) zero left_fuel limits is_head buffer left more r h l m =
      absurd (omega arith)
  final_head-restart (suc fuel) (suc all_fuel) left_fuel limits is_head buffer left more r h l m =
      let stay : (buffer ≡ left)
          → final_head dict (suc all_fuel) limits is_head (buffer ++ more)
            ≡ final_head dict left_fuel limits is_head (left ++ more) =
        λ same.
          ap (λ (b : Bytes). final_head dict (suc all_fuel) limits is_head (b ++ more)) same
          ∙ final_head-fuel (suc all_fuel) left_fuel limits is_head (left ++ more)
              (omega (arith, ap (λ (b : Bytes). length (b ++ more)) same)) m in
      elim (found_cases (head_of dict limits is_head buffer)) [
        | inl (e, q) ↦ stay (ground (arith, q))
        | inr (inl q) ↦ stay (ground (arith, q))
        | inr (inr (head, q)) ↦
            let grown : head_of dict limits is_head (buffer ++ more) ≡ ok (some head) =
              head_of-append limits is_head buffer more (ground (arith, q)) ∙ q in
            elim (Bool-cases (leb 200 head.status)) [
              | inl t ↦ stay (ground (arith, q, t))
              | inr f ↦ elim (Bool-cases (head.status == 101)) [
                | inl t ↦ stay (ground (arith, q, f, t))
                | inr g ↦
                    let bounds : (4 ≤ head.size_bytes) × (head.size_bytes ≤ length buffer) =
                      head_of-bounds dict limits is_head buffer head q in
                    let dropped : drop head.size_bytes (buffer ++ more)
                        ≡ drop head.size_bytes buffer ++ more =
                      drop-within head.size_bytes buffer more bounds.1 in
                    ground (
                      arith,
                      q,
                      f,
                      g,
                      grown,
                      dropped,
                      bounds,
                      length-append {0} buffer more,
                      length-append {0} (drop head.size_bytes buffer) more,
                      length-drop {0} head.size_bytes buffer,
                      final_head-restart fuel all_fuel left_fuel limits is_head
                          (drop head.size_bytes buffer) left more r,
                    )
              ]
            ]
      ]

  -- What an early call settles, a later one finds at once.
  pub final_head-here :
      (fuel g : ℕ) (limits : Limits) (is_head : Bool) (buffer left more : Bytes)
      (r : Result (Option (ResponseHead H)))
      → is_settled r ≡ true
      → final_head dict fuel limits is_head buffer ≡ some (r, left)
      → final_head dict (suc g) limits is_head (left ++ more) ≡ some (r, left ++ more)
  unfolding final_head
  final_head-here zero g limits is_head buffer left more r s h = cc
  final_head-here (suc fuel) g limits is_head buffer left more r s h =
      elim (found_cases (head_of dict limits is_head buffer)) [
        | inl (e, q) ↦ ground (arith, q, head_of-append limits is_head buffer more)
        | inr (inl q) ↦ ground (arith, q)
        | inr (inr (head, q)) ↦ elim (Bool-cases (leb 200 head.status)) [
          | inl t ↦ ground (arith, q, t, head_of-append limits is_head buffer more)
          | inr f ↦ elim (Bool-cases (head.status == 101)) [
            | inl t ↦ ground (arith, q, f, t, head_of-append limits is_head buffer more)
            | inr e ↦ ground (
              arith,
              q,
              f,
              e,
              final_head-here fuel g limits is_head (drop head.size_bytes buffer) left more r,
            )
          ]
        ]
      ]
