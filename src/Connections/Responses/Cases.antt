-- ===== src/Connections/Responses/Cases.antt =====
-- What the answers of the parser may be, to split on: src/libranet/connections/response_parser.py.
use libranet.Base.{
  ℕ, zero, suc, ◌≡◌, refl, ◌⊎◌, inl, inr, Bool, true, false, Option, none, some, [], ◌∷◌, Error,
  Result, ok, err,
}
use libranet.Connections.Responses.Bytes.{Bytes}
use libranet.Connections.Responses.Head.{Framing, by_length, chunked, until_close}

-- What a line of the framing may be, to split on.
pub line_cases :
    (r : Result (Option (Bytes × ℕ)))
    → ((e : Error) × (r ≡ err e))
      ⊎ ((r ≡ ok none)
          ⊎ (((next : ℕ) × (r ≡ ok (some ([], next))))
              ⊎ ((c : ℕ) × (cs : Bytes) × (next : ℕ) × (r ≡ ok (some (c ∷ cs, next))))))
line_cases (err e) = inl (e, refl)
line_cases (ok none) = inr (inl refl)
line_cases (ok (some ([], next))) = inr (inr (inl (next, refl)))
line_cases (ok (some (c ∷ cs, next))) = inr (inr (inr (c, cs, next, refl)))

-- What a line may be, or a head, whatever it holds.
pub found_cases {ℓ} :
    {A : Type ℓ} (r : Result (Option A))
    → ((e : Error) × (r ≡ err e)) ⊎ ((r ≡ ok none) ⊎ ((a : A) × (r ≡ ok (some a))))
found_cases (err e) = inl (e, refl)
found_cases (ok none) = inr (inl refl)
found_cases (ok (some a)) = inr (inr (a, refl))

pub size_cases :
    (r : Result ℕ) → ((e : Error) × (r ≡ err e)) ⊎ ((r ≡ ok zero) ⊎ ((n : ℕ) × (r ≡ ok (suc n))))
size_cases (err e) = inl (e, refl)
size_cases (ok zero) = inr (inl refl)
size_cases (ok (suc n)) = inr (inr (n, refl))

pub data_cases : (r : Result Bool) → ((e : Error) × (r ≡ err e)) ⊎ ((r ≡ ok false) ⊎ (r ≡ ok true))
data_cases (err e) = inl (e, refl)
data_cases (ok false) = inr (inl refl)
data_cases (ok true) = inr (inr refl)

pub run_cases {ℓ} :
    {A : Type ℓ} (r : Option (Result (Option A)))
    → (r ≡ none)
      ⊎ (((e : Error) × (r ≡ some (err e)))
          ⊎ ((r ≡ some (ok none)) ⊎ ((a : A) × (r ≡ some (ok (some a))))))
run_cases none = inl refl
run_cases (some (err e)) = inr (inl (e, refl))
run_cases (some (ok none)) = inr (inr (inl refl))
run_cases (some (ok (some a))) = inr (inr (inr (a, refl)))

pub framing_cases : (f : Framing) → (f ≡ by_length) ⊎ ((f ≡ chunked) ⊎ (f ≡ until_close))
framing_cases by_length = inl refl
framing_cases chunked = inr (inl refl)
framing_cases until_close = inr (inr refl)

pub final_cases :
    {A : Type 0} (r : Option (Result (Option A) × Bytes))
    → (r ≡ none)
      ⊎ (((e : Error) × (left : Bytes) × (r ≡ some (err e, left)))
          ⊎ (((left : Bytes) × (r ≡ some (ok none, left)))
              ⊎ ((a : A) × (left : Bytes) × (r ≡ some (ok (some a), left)))))
final_cases none = inl refl
final_cases (some (err e, left)) = inr (inl (e, left, refl))
final_cases (some (ok none, left)) = inr (inr (inl (left, refl)))
final_cases (some (ok (some a), left)) = inr (inr (inr (a, left, refl)))
