-- ===== src/Webserver/ByteRange.antt =====
-- The one byte range that a `Range` header asks for: src/libranet/webserver/byte_range.py, from the
-- two numbers that its pattern reads on.
use libranet.Base.{
  ℕ, ◌+◌, ◌-◌, ◌≤◌, ◌≡◌, refl, ap, ◌⊎◌, inl, inr, Bool, ◌&&◌, Option, none, some, arith, ltb, leb,
  if◌then◌else◌, min_of, Bool-cases, length, ◌>>=◌, value_error, Result, ok, err,
}

-- `ByteRange`; `byte_range` is its constructor with the check of `__post_init__`.
pub record ByteRange : Type 0 where
  pub start_bytes : ℕ
  pub stop_bytes : ℕ
  pub file_bytes : ℕ

unfoldable pub byte_range : ℕ → ℕ → ℕ → Result ByteRange
byte_range start_bytes stop_bytes file_bytes =
    if leb start_bytes stop_bytes && leb stop_bytes file_bytes
    then ok (record { start_bytes = start_bytes; stop_bytes = stop_bytes; file_bytes = file_bytes })
    else err value_error

-- `_span`, of the numbers its groups hold, `none` for an empty group.
unfoldable pub span : Option ℕ → Option ℕ → ℕ → Result (ℕ × ℕ)
span none none file_bytes = err value_error
span none (some last) file_bytes = ok (file_bytes - last, file_bytes)
span (some first) none file_bytes = ok (min_of first file_bytes, file_bytes)
span (some first) (some last) file_bytes =
    if ltb last first
    then err value_error
    else (let stop_bytes : ℕ = min_of (last + 1) file_bytes in
        ok (min_of first stop_bytes, stop_bytes))

-- The end of `ByteRange.from_header`: a span that cannot be read is as no header at all.
unfoldable pub of_groups : Option ℕ → Option ℕ → ℕ → Result (Option ByteRange)
unfolding span byte_range
of_groups first last file_bytes = elim (span first last file_bytes) [
  | err e ↦ ok none
  | ok (start_bytes, stop_bytes) ↦
      byte_range start_bytes stop_bytes file_bytes >>= (λ range. ok (some range))
]

-- `satisfiable`
unfoldable pub satisfiable : ByteRange → Bool
satisfiable r = ltb r.start_bytes r.stop_bytes

-- The bytes of a file that a header asks for, as RFC 9110 says.
unfoldable pub asked : Option ℕ → Option ℕ → ℕ → ℕ → Bool
asked none none file_bytes i = ltb i file_bytes
asked none (some length) file_bytes i = ltb i file_bytes && leb file_bytes (i + length)
asked (some first) none file_bytes i = ltb i file_bytes && leb first i
asked (some first) (some last) file_bytes i = ltb i file_bytes && leb first i && leb i last

byte_range_within :
    (a b n : ℕ)
    → a ≤ b
    → b ≤ n
    → (r : ByteRange) × (byte_range a b n ≡ ok r)
      × (r.start_bytes ≤ r.stop_bytes)
      × (r.stop_bytes ≤ n)
unfolding byte_range
byte_range_within a b n h k =
    (record { start_bytes = a; stop_bytes = b; file_bytes = n }, ground arith, h, k)

some_range :
    (a b n : ℕ)
    → a ≤ b
    → b ≤ n
    → (r : ByteRange) × ((byte_range a b n >>= (λ range. ok (some range))) ≡ ok (some r))
      × (r.start_bytes ≤ r.stop_bytes)
      × (r.stop_bytes ≤ n)
some_range a b n h k =
    let (r, e, l, m) = byte_range_within a b n h k in
    (r, ap (λ x. x >>= (λ range. ok (some range))) e, l, m)

-- A header's numbers never raise: they are ignored exactly when both are missing or the last byte
-- lies before the first, and otherwise give a range within the file.
pub of_groups_total :
    (first last : Option ℕ) (file_bytes : ℕ)
    → ((of_groups first last file_bytes ≡ ok none) × (span first last file_bytes ≡ err value_error))
      ⊎ ((r : ByteRange) × (of_groups first last file_bytes ≡ ok (some r))
          × (r.start_bytes ≤ r.stop_bytes)
          × (r.stop_bytes ≤ file_bytes))
unfolding of_groups span
of_groups_total none none n = inl (refl, refl)
of_groups_total none (some last) n = inr (some_range (n - last) n n (omega arith) (omega arith))
of_groups_total (some first) none n =
    inr (some_range (min_of first n) n n (ground arith) (omega arith))
of_groups_total (some first) (some last) n = elim (Bool-cases (ltb last first)) [
  | inl t ↦ inl (ground (arith, t), ground (arith, t))
  | inr f ↦
      let (r, e, l, m) =
        some_range (min_of first (min_of (last + 1) n)) (min_of (last + 1) n) n (ground arith)
          (ground arith) in
      inr (r, ground (arith, f, e), l, m)
]

-- A range read holds exactly the bytes of the file that the header asks for.
pub of_groups-asked :
    (first last : Option ℕ) (file_bytes i : ℕ) (r : ByteRange)
    → of_groups first last file_bytes ≡ ok (some r)
    → (leb r.start_bytes i && ltb i r.stop_bytes) ≡ asked first last file_bytes i
unfolding of_groups span byte_range asked
of_groups-asked none none n i r h = cc
of_groups-asked none (some last) n i r h = ground arith
of_groups-asked (some first) none n i r h = ground arith
of_groups-asked (some first) (some last) n i r h = ground arith
