-- ===== src/Connections/Responses/Head.antt =====
-- The heads of responses: `_head`, `_framing` and `_content_length` of
-- src/libranet/connections/response_parser.py. The headers are kept in a dictionary of another package, which is a parameter.
use libranet.Base.{
  ℕ, ◌+◌, ◌-◌, ◌*◌, Bool, true, false, not, ◌&&◌, ◌||◌, Option, none, some, List, [], ◌∷◌, ◌++◌,
  map, ltb, leb, ◌==◌, if◌then◌else◌, length, drop, guard, ◌>>=◌, ◌>>◌, value_error,
  malformed_response, Result, ok, err,
}
use libranet.Connections.Responses.Bytes.{
  Bytes, starts_with, partition, split_at, split_lines, is_space, is_blank, strip, lower, same_text,
  every, is_digit, decimal_from,
}

-- What the code does with a `CaseInsensitiveDict`: it makes one, looks a field up, and sets one.
pub record HeaderDict (H : Type 0) : Type 0 where
  pub no_headers : H
  pub header : Bytes → H → Option Bytes
  pub set_header : Bytes → Bytes → H → H

-- `MAX_HEAD_BYTES`, and a parser's most bytes of a body
pub record Limits : Type 0 where
  pub max_head_bytes : ℕ
  pub max_body_bytes : ℕ

-- `_Framing`
pub data Framing : Type 0 where
  by_length chunked until_close : Framing

-- `_Head`
pub record ResponseHead (H : Type 0) : Type 0 where
  pub status : ℕ
  pub reason : Bytes
  pub headers : H
  pub closes_connection : Bool
  pub size_bytes : ℕ
  pub framing : Framing
  pub length_bytes : ℕ

abbrev pub line_end : Bytes
line_end = 13 ∷ 10 ∷ []

abbrev pub head_end : Bytes
head_end = 13 ∷ 10 ∷ 13 ∷ 10 ∷ []

abbrev pub http_1 : Bytes
http_1 = b'H' ∷ b'T' ∷ b'T' ∷ b'P' ∷ b'/' ∷ b'1' ∷ b'.' ∷ []

-- The reason after a status, `(?: (.*))?`, which holds no line feed
unfoldable pub status_reason : Bytes → Option Bytes
unfolding every
status_reason [] = some []
status_reason (c ∷ cs) = if c == 32 && every (λ (d : ℕ). not (d == 10)) cs then some cs else none

unfoldable pub status_fields : Bytes → Option (ℕ × ℕ × Bytes)
unfolding status_reason
status_fields (v ∷ s ∷ a ∷ b ∷ c ∷ rest) =
    if is_digit v && s == 32 && is_digit a && is_digit b && is_digit c
    then (elim (status_reason rest) [
      | none ↦ none
      | some reason ↦ some (v - 48, 100 * (a - 48) + 10 * (b - 48) + (c - 48), reason)
    ])
    else none
status_fields _ = none

-- `_STATUS_LINE.fullmatch`: the minor version, the status, and the reason
unfoldable pub status_line : Bytes → Option (ℕ × ℕ × Bytes)
unfolding status_fields starts_with
status_line line = if starts_with http_1 line then status_fields (drop 7 line) else none

-- What `TOKEN` may hold.
abbrev pub is_token : ℕ → Bool
is_token c =
    c == 33
    || (leb 35 c && leb c 39)
    || c == 42
    || c == 43
    || c == 45
    || c == 46
    || (leb 48 c && leb c 57)
    || (leb 65 c && leb c 90)
    || (leb 94 c && leb c 122)
    || c == 124
    || c == 126

-- What `_FIELD_VALUE` may hold.
abbrev pub is_field : ℕ → Bool
is_field c = not (leb c 8 || (leb 10 c && leb c 31) || c == 127)

abbrev pub not_empty : Bytes → Bool
not_empty [] = false
not_empty (c ∷ cs) = true

abbrev pub or_empty : Option Bytes → Bytes
or_empty none = []
or_empty (some text) = text

abbrev pub is_there : Option Bytes → Bool
is_there none = false
is_there (some text) = true

abbrev pub stripped : List Bytes → List Bytes
stripped texts = map (strip is_space) texts

-- Whether one of the options a `Connection` field lists is `option`, in any case.
unfoldable pub lists_option : Bytes → List Bytes → Bool
unfolding same_text
lists_option option [] = false
lists_option option (o ∷ os) = same_text (lower o) option || lists_option option os

abbrev pub close_text : Bytes
close_text = b'c' ∷ b'l' ∷ b'o' ∷ b's' ∷ b'e' ∷ []

abbrev pub keep_alive_text : Bytes
keep_alive_text = b'k' ∷ b'e' ∷ b'e' ∷ b'p' ∷ 45 ∷ b'a' ∷ b'l' ∷ b'i' ∷ b'v' ∷ b'e' ∷ []

abbrev pub chunked_text : Bytes
chunked_text = b'c' ∷ b'h' ∷ b'u' ∷ b'n' ∷ b'k' ∷ b'e' ∷ b'd' ∷ []

abbrev pub connection_name : Bytes
connection_name = b'C' ∷ b'o' ∷ b'n' ∷ b'n' ∷ b'e' ∷ b'c' ∷ b't' ∷ b'i' ∷ b'o' ∷ b'n' ∷ []

abbrev pub transfer_encoding_name : Bytes
transfer_encoding_name =
    b'T' ∷ b'r' ∷ b'a' ∷ b'n' ∷ b's' ∷ b'f' ∷ b'e' ∷ b'r' ∷ 45 ∷ b'E' ∷ b'n' ∷ b'c' ∷ b'o' ∷ b'd'
    ∷ b'i' ∷ b'n' ∷ b'g' ∷ []

abbrev pub content_length_name : Bytes
content_length_name =
    b'C' ∷ b'o' ∷ b'n' ∷ b't' ∷ b'e' ∷ b'n' ∷ b't' ∷ 45 ∷ b'L' ∷ b'e' ∷ b'n' ∷ b'g' ∷ b't' ∷ b'h'
    ∷ []

-- Whether a set of texts is of one, `len(set(values)) == 1`.
unfoldable pub all_same : List Bytes → Bool
unfolding same_text
all_same [] = false
all_same (a ∷ []) = true
all_same (a ∷ b ∷ texts) = same_text a b && all_same (b ∷ texts)

abbrev pub first_text : List Bytes → Bytes
first_text [] = []
first_text (a ∷ texts) = a

-- The most digits that Python's `int` reads, of the default limit.
abbrev pub max_int_digits : ℕ
max_int_digits = 4300

-- `_content_length`; `int` raises a `ValueError` past its limit of digits.
unfoldable pub content_length : ℕ → Bytes → Result ℕ
unfolding split_at strip all_same every decimal_from
content_length max_body_bytes field = do
  let values : List Bytes = stripped (split_at 44 field)
  let value : Bytes = first_text values
  guard (all_same values) malformed_response
  guard (not_empty value && every is_digit value) malformed_response
  guard (leb (length value) max_int_digits) value_error
  guard (leb (decimal_from 0 value) max_body_bytes) malformed_response
  ok (decimal_from 0 value)

abbrev pub is_until_close : Framing → Bool
is_until_close by_length = false
is_until_close chunked = false
is_until_close until_close = true

abbrev pub rest_of : List Bytes → List Bytes
rest_of [] = []
rest_of (line ∷ lines) = lines

module _ {H : Type 0} (dict : HeaderDict H) where
  -- `headers[name] = …`, a field sent before having its values joined
  unfoldable pub add_header : Bytes → Bytes → H → H
  add_header name value headers =
      dict.set_header name
        (elim (dict.header name headers) [
          | none ↦ value
          | some before ↦ before ++ (44 ∷ 32 ∷ value)
        ])
        headers

  -- The loop of `_head` over the header lines.
  unfoldable pub read_headers : List Bytes → H → Result H
  unfolding partition strip every add_header
  read_headers [] headers = ok headers
  read_headers (line ∷ lines) headers =
      let name : Bytes = (partition 58 line).0 in
      let value : Bytes = strip is_blank (or_empty (partition 58 line).1) in
      guard
        (is_there (partition 58 line).1
          && not_empty name
          && every is_token name
          && every is_field value)
        malformed_response
      >> read_headers lines (add_header name value headers)

  -- `_framing`; `is_head` is whether the request was `HEAD`.
  unfoldable pub framing_of : Limits → Bool → ℕ → H → Result (Framing × ℕ)
  unfolding content_length same_text strip
  framing_of limits is_head status headers =
      if is_head || ltb status 200 || status == 204 || status == 304
      then ok (by_length, 0)
      else elim (dict.header transfer_encoding_name headers) [
        | some coding ↦ do
          guard (not (is_there (dict.header content_length_name headers))) malformed_response
          guard (same_text (lower (strip is_space coding)) chunked_text) malformed_response
          ok (chunked, 0)
        | none ↦ elim (dict.header content_length_name headers) [
          | some field ↦ do n ← content_length limits.max_body_bytes field; ok (by_length, n)
          | none ↦ ok (until_close, 0)
        ]
      ]

  -- Whether the peer closes the connection after a response of this minor version.
  unfoldable pub closes_after : ℕ → H → Bool
  unfolding lists_option split_at strip
  closes_after minor_version headers =
      let options : List Bytes =
        stripped (split_at 44 (or_empty (dict.header connection_name headers))) in
      lists_option close_text options
      || (minor_version == 0 && not (lists_option keep_alive_text options))

  -- `_head`, of the text before the blank line
  unfoldable pub parse_head : Limits → Bool → Bytes → Result (ResponseHead H)
  unfolding split_lines status_line read_headers framing_of closes_after
  parse_head limits is_head text = elim (status_line (first_text (split_lines text))) [
    | none ↦ err malformed_response
    | some (minor_version, status, reason) ↦ do
      headers ← read_headers (rest_of (split_lines text)) dict.no_headers
      framed ← framing_of limits is_head status headers
      ok (record {
        status = status;
        reason = reason;
        headers = headers;
        closes_connection = closes_after minor_version headers || is_until_close framed.0;
        size_bytes = length text + 4;
        framing = framed.0;
        length_bytes = framed.1;
      })
  ]
