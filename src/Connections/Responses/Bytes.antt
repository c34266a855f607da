-- ===== src/Connections/Responses/Bytes.antt =====
-- Python's searches and slices of bytes, as src/libranet/connections/response_parser.py uses them.
use libranet.Base.{
  ℕ, suc, ◌+◌, ◌-◌, ◌*◌, Bool, true, false, not, ◌&&◌, ◌||◌, Option, none, some, List, [], ◌∷◌, map,
  leb, ◌==◌, if◌then◌else◌, take, drop,
}

abbrev pub Bytes : Type 0
Bytes = List ℕ

unfoldable pub starts_with : Bytes → Bytes → Bool
starts_with [] bs = true
starts_with (s ∷ sep) [] = false
starts_with (s ∷ sep) (b ∷ bs) = s == b && starts_with sep bs

-- `bs.find(sep)`, of a `sep` that is not empty
unfoldable pub find : Bytes → Bytes → Option ℕ
unfolding starts_with
find sep [] = none
find sep (b ∷ bs) =
    let rest = find sep bs in
    if starts_with sep (b ∷ bs) then some 0 else elim rest [ none ↦ none | some i ↦ some (suc i) ]

-- `buffer.find(sep, start, stop)`
unfoldable pub find_within : Bytes → ℕ → ℕ → Bytes → Option ℕ
unfolding find
find_within sep start stop buffer = elim (find sep (drop start (take stop buffer))) [
  | none ↦ none
  | some i ↦ some (start + i)
]

-- `buffer[start:stop]`
abbrev pub slice : ℕ → ℕ → Bytes → Bytes
slice start stop buffer = drop start (take stop buffer)

-- `text.partition(sep)`, of a single `sep`: what is before it, and what is after, if it is there
unfoldable pub partition : ℕ → Bytes → Bytes × Option Bytes
partition sep [] = ([], none)
partition sep (c ∷ cs) =
    let rest = partition sep cs in if c == sep then ([], some cs) else (c ∷ rest.0, rest.1)

-- `text.split(sep)`, of a single `sep`
unfoldable pub split_at : ℕ → Bytes → List Bytes
split_at sep [] = [] ∷ []
split_at sep (c ∷ cs) =
    let rest = split_at sep cs in
    if c == sep
    then [] ∷ rest
    else elim rest [ [] ↦ (c ∷ []) ∷ [] | part ∷ parts ↦ (c ∷ part) ∷ parts ]

-- `text.split("\r\n")`, where what is under way is held
unfoldable pub split_lines : Bytes → List Bytes
split_lines [] = [] ∷ []
split_lines (c ∷ []) = (c ∷ []) ∷ []
split_lines (c ∷ d ∷ cs) =
    let after = split_lines cs in
    let rest = split_lines (d ∷ cs) in
    if c == 13 && d == 10
    then [] ∷ after
    else elim rest [ [] ↦ (c ∷ []) ∷ [] | line ∷ lines ↦ (c ∷ line) ∷ lines ]

-- What `str.strip()` strips of text decoded as latin-1.
abbrev pub is_space : ℕ → Bool
is_space c = (leb 9 c && leb c 13) || (leb 28 c && leb c 32) || c == 133 || c == 160

-- `strip(" \t")`
abbrev pub is_blank : ℕ → Bool
is_blank c = c == 32 || c == 9

unfoldable pub strip_left : (ℕ → Bool) → Bytes → Bytes
strip_left strips [] = []
strip_left strips (c ∷ cs) = let rest = strip_left strips cs in if strips c then rest else c ∷ cs

unfoldable pub strip_right : (ℕ → Bool) → Bytes → Bytes
strip_right strips [] = []
strip_right strips (c ∷ cs) = elim (strip_right strips cs) [
  | [] ↦ if strips c then [] else c ∷ []
  | d ∷ ds ↦ c ∷ d ∷ ds
]

unfoldable pub strip : (ℕ → Bool) → Bytes → Bytes
unfolding strip_left strip_right
strip strips text = strip_right strips (strip_left strips text)

-- `lower()`, of text decoded as latin-1
abbrev pub lower_of : ℕ → ℕ
lower_of c =
    if (leb 65 c && leb c 90) || (leb 192 c && leb c 222 && not (c == 215)) then c + 32 else c

abbrev pub lower : Bytes → Bytes
lower text = map lower_of text

unfoldable pub same_text : Bytes → Bytes → Bool
same_text [] [] = true
same_text [] (b ∷ bs) = false
same_text (a ∷ as') [] = false
same_text (a ∷ as') (b ∷ bs) = a == b && same_text as' bs

unfoldable pub every : (ℕ → Bool) → Bytes → Bool
every test [] = true
every test (c ∷ cs) = test c && every test cs

abbrev pub is_digit : ℕ → Bool
is_digit c = leb 48 c && leb c 57

-- The number that decimal digits write, after `n`.
unfoldable pub decimal_from : ℕ → Bytes → ℕ
decimal_from n [] = n
decimal_from n (c ∷ cs) = decimal_from (10 * n + (c - 48)) cs
