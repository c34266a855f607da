-- ===== src/Webserver/Sessions/Laws.antt =====
-- How long a session lasts: src/libranet/webserver/sessions.py.
use libranet.Base.{
  ℕ, ◌+◌, ◌<◌, ◌≡◌, refl, inl, inr, true, false, none, some, List, [], ◌∷◌, arith, ◌==◌, ==_iff,
  Bool-cases, Option-cases, nat_eq, All,
}
use libranet.Base.Dict.{Dict, lookup, keys, member, IsDistinct, beq_refl, lookup-insert}
use libranet.Webserver.Sessions.{
  is_idle, pop, pop_all, forget, idle_tokens, start, session_of, end_sessions, Session, Held,
  Sessions,
}

-- A session started is given to a request that names its token first, until it has gone unused for
-- the idle time.
pub start-session_of :
    (token now now' : ℕ) (session : Session) (s : Sessions) (tokens : List ℕ)
    → now' < now + s.idle_seconds
    → (session_of (token ∷ tokens) now' (start token now session s)).0 ≡ some session
unfolding session_of start forget is_idle
start-session_of token now now' session s tokens h = ground (
  arith,
  beq_refl token,
  lookup-insert token token (record { session = session; last_used = now })
      (pop_all (idle_tokens s.idle_seconds now s.held) s.held).1,
)

-- A session given is given again, to a request made before it has gone unused for the idle time
-- since.
pub session_of-renews :
    (token now now' : ℕ) (kept : Held) (s : Sessions) (tokens tokens' : List ℕ)
    → lookup token s.held ≡ some kept
    → is_idle s.idle_seconds kept now ≡ false
    → now' < now + s.idle_seconds
    → (session_of (token ∷ tokens') now' (session_of (token ∷ tokens) now s).1).0
      ≡ some kept.session
unfolding session_of is_idle
session_of-renews token now now' kept s tokens tokens' e i h = ground (
  arith,
  e,
  i,
  beq_refl token,
  lookup-insert token token (record { session = kept.session; last_used = now }) s.held,
)

-- Every session held has gone unused for the idle time.
unfoldable pub AllIdle : ℕ → Dict ℕ Held → ℕ → Type 0
unfolding is_idle
AllIdle idle_seconds held now =
    All (λ (entry : ℕ × Held). is_idle idle_seconds entry.1 now ≡ true) held

pop-AllIdle :
    (token idle now : ℕ) (held : Dict ℕ Held)
    → AllIdle idle held now
    → AllIdle idle (pop token held).1 now
unfolding pop AllIdle
pop-AllIdle token idle now [] h = tt
pop-AllIdle token idle now ((t, kept) ∷ held) h =
    ground (arith, pop-AllIdle token idle now held h.1)

lookup-AllIdle :
    (token idle now : ℕ) (kept : Held) (held : Dict ℕ Held)
    → AllIdle idle held now
    → lookup token held ≡ some kept
    → is_idle idle kept now ≡ true
unfolding AllIdle
lookup-AllIdle token idle now kept [] h e = cc
lookup-AllIdle token idle now kept ((t, other) ∷ held) h e =
    ground (arith, lookup-AllIdle token idle now kept held h.1)

forget-AllIdle :
    (token now : ℕ) (s : Sessions)
    → AllIdle s.idle_seconds s.held now
    → AllIdle (forget (token ∷ []) s).idle_seconds (forget (token ∷ []) s).held now
unfolding forget pop_all
forget-AllIdle token now s h = pop-AllIdle token s.idle_seconds now s.held h

-- Where every session held has gone unused for the idle time, no request is given one.
pub session_of_idle :
    (tokens : List ℕ) (now : ℕ) (s : Sessions)
    → AllIdle s.idle_seconds s.held now
    → (session_of tokens now s).0 ≡ none
unfolding session_of
session_of_idle [] now s h = refl
session_of_idle (token ∷ tokens) now s h = elim (Option-cases (lookup token s.held)) [
  | inl e ↦ ground (arith, e, session_of_idle tokens now s h)
  | inr (kept, e) ↦ ground (
    arith,
    e,
    lookup-AllIdle token s.idle_seconds now kept s.held h e,
    session_of_idle tokens now (forget (token ∷ []) s) (forget-AllIdle token now s h),
  )
]

pop-member :
    (t u : ℕ) (held : Dict ℕ Held)
    → member t (keys held) ≡ false
    → member t (keys (pop u held).1) ≡ false
unfolding pop
pop-member t u [] h = refl
pop-member t u ((v, kept) ∷ held) h = ground (arith, pop-member t u held)

pop-IsDistinct :
    (u : ℕ) (held : Dict ℕ Held) → IsDistinct (keys held) → IsDistinct (keys (pop u held).1)
unfolding pop
pop-IsDistinct u [] h = tt
pop-IsDistinct u ((v, kept) ∷ held) h = ground (arith, pop-member v u held, pop-IsDistinct u held)

member-lookup : (t : ℕ) (held : Dict ℕ Held) → member t (keys held) ≡ false → lookup t held ≡ none
member-lookup t [] h = refl
member-lookup t ((v, kept) ∷ held) h = ground (arith, member-lookup t held)

pop_self :
    (t : ℕ) (held : Dict ℕ Held) → IsDistinct (keys held) → member t (keys (pop t held).1) ≡ false
unfolding pop
pop_self t [] h = refl
pop_self t ((v, kept) ∷ held) h = ground (arith, ==_iff v t, pop_self t held)

pop_all-member :
    (t : ℕ) (tokens : List ℕ) (held : Dict ℕ Held)
    → member t (keys held) ≡ false
    → member t (keys (pop_all tokens held).1) ≡ false
unfolding pop_all
pop_all-member t [] held h = h
pop_all-member t (u ∷ tokens) held h =
    pop_all-member t tokens (pop u held).1 (pop-member t u held h)

pop_all_out :
    (t : ℕ) (tokens : List ℕ) (held : Dict ℕ Held)
    → IsDistinct (keys held)
    → member t tokens ≡ true
    → lookup t (pop_all tokens held).1 ≡ none
unfolding pop_all
pop_all_out t [] held u m = cc
pop_all_out t (v ∷ tokens) held u m = elim (Bool-cases (v == t)) [
  | inl e ↦ ground (
    arith,
    e,
    ==_iff v t,
    member-lookup t (pop_all tokens (pop v held).1).1,
    pop_all-member t tokens (pop v held).1,
    pop_self v held u,
  )
  | inr n ↦ ground (arith, n, pop_all_out t tokens (pop v held).1 (pop-IsDistinct v held u))
]

session_of-none :
    (tokens : List ℕ) (now : ℕ) (s : Sessions)
    → All (λ t. lookup t s.held ≡ none) tokens
    → (session_of tokens now s).0 ≡ none
unfolding session_of
session_of-none [] now s h = refl
session_of-none (t ∷ tokens) now s h = ground (arith, h.0, session_of-none tokens now s h.1)

each_out :
    (some_tokens tokens : List ℕ) (held : Dict ℕ Held)
    → IsDistinct (keys held)
    → All (λ t. member t tokens ≡ true) some_tokens
    → All (λ t. lookup t (pop_all tokens held).1 ≡ none) some_tokens
each_out [] tokens held u h = tt
each_out (t ∷ ts) tokens held u h = (pop_all_out t tokens held u h.0, each_out ts tokens held u h.1)

-- Once a request has signed out, no request that names its tokens alone is given a session, where
-- the sessions were held under distinct tokens.
pub end_sessions-session_of :
    (tokens tokens' : List ℕ) (now : ℕ) (s : Sessions)
    → IsDistinct (keys s.held)
    → All (λ t. member t tokens ≡ true) tokens'
    → (session_of tokens' now (end_sessions tokens s)).0 ≡ none
unfolding end_sessions forget
end_sessions-session_of tokens tokens' now s u h =
    session_of-none tokens' now (end_sessions tokens s) (each_out tokens' tokens s.held u h)
