-- ===== src/Webserver/Sessions/Told.antt =====
-- What is told as persons sign in and out agrees with who is signed in:
-- src/libranet/webserver/sessions.py.
use libranet.Base.{
  ℕ, ◌≡◌, refl, ◌∙◌, inl, inr, Bool, true, false, not, ◌&&◌, ◌||◌, Option, none, some, List, [],
  ◌∷◌, ◌++◌, arith, ◌==◌, if◌then◌else◌, ==_iff, Bool-cases, Option-cases, nat_eq,
}
use libranet.Base.Dict.{Dict, lookup, insert, member}
use libranet.Webserver.Sessions.{
  is_idle, pop, person_of, pop_all, people_of, from_keys, tell_ended, forget, idle_tokens, start,
  session_of, Session, Held, Sessions, Event, session_started, last_session_ended,
}

-- Whether a person is signed in, by the last that was told of them.
abbrev pub signed_in_from : ℕ → Bool → List Event → Bool
signed_in_from person now [] = now
signed_in_from person now (session_started p ∷ told) =
    signed_in_from person (if p == person then true else now) told
signed_in_from person now (last_session_ended p ∷ told) =
    signed_in_from person (if p == person then false else now) told

signed_in_from-append :
    (person : ℕ) (now : Bool) (told more : List Event)
    → signed_in_from person now (told ++ more)
      ≡ signed_in_from person (signed_in_from person now told) more
signed_in_from-append person now [] more = refl
signed_in_from-append person now (session_started p ∷ told) more =
    signed_in_from-append person (if p == person then true else now) told more
signed_in_from-append person now (last_session_ended p ∷ told) more =
    signed_in_from-append person (if p == person then false else now) told more

-- What was told says that a person is signed in exactly if a session of theirs is held.
unfoldable pub IsTold : Sessions → ℕ → Type 0
unfolding people_of
IsTold s person = signed_in_from person false s.told ≡ member person (people_of s.held)

tell_ended-signed_in :
    (people signed_in : List ℕ) (told : List Event) (p : ℕ)
    → signed_in_from p false (tell_ended people signed_in told)
      ≡ (if member p people && not (member p signed_in) then false else signed_in_from p false told)
unfolding tell_ended
tell_ended-signed_in [] signed_in told p = refl
tell_ended-signed_in (q ∷ people) signed_in told p = ground (
  arith,
  ==_iff q p,
  tell_ended-signed_in people signed_in told p,
  tell_ended-signed_in people signed_in (told ++ (last_session_ended q ∷ [])) p,
  signed_in_from-append p false told (last_session_ended q ∷ []),
)

member-append : (p : ℕ) (xs ys : List ℕ) → member p (xs ++ ys) ≡ (member p xs || member p ys)
member-append p [] ys = refl
member-append p (x ∷ xs) ys = ground (arith, member-append p xs ys)

member-from_keys :
    (p : ℕ) (seen ks : List ℕ) → member p (from_keys seen ks) ≡ (member p seen || member p ks)
unfolding from_keys
member-from_keys p seen [] = ground arith
member-from_keys p seen (k ∷ ks) = ground (
  arith,
  ==_iff k p,
  member-append p seen (k ∷ []),
  member-from_keys p seen ks,
  member-from_keys p (seen ++ (k ∷ [])) ks,
)

pop-people :
    (token p : ℕ) (held : Dict ℕ Held)
    → member p (people_of held)
      ≡ (member p (person_of (pop token held).0 []) || member p (people_of (pop token held).1))
unfolding pop people_of
pop-people token p [] = refl
pop-people token p ((t, kept) ∷ held) = ground (arith, pop-people token p held)

person_of-member :
    (o : Option Held) (people : List ℕ) (p : ℕ)
    → member p (person_of o people) ≡ (member p (person_of o []) || member p people)
person_of-member none people p = refl
person_of-member (some kept) people p = ground arith

pop_all-people :
    (tokens : List ℕ) (p : ℕ) (held : Dict ℕ Held)
    → member p (people_of held)
      ≡ (member p (pop_all tokens held).0 || member p (people_of (pop_all tokens held).1))
unfolding pop_all
pop_all-people [] p held = refl
pop_all-people (t ∷ tokens) p held = ground (
  arith,
  pop-people t p held,
  pop_all-people tokens p (pop t held).1,
  person_of-member (pop t held).0 (pop_all tokens (pop t held).1).0 p,
)

-- Forgetting sessions, as signing out does, tells a listener what it must: where what was told said
-- whether a person is signed in, it still does.
pub forget-IsTold :
    (tokens : List ℕ) (s : Sessions) (person : ℕ)
    → s.listening ≡ true
    → IsTold s person
    → IsTold (forget tokens s) person
unfolding forget IsTold
forget-IsTold tokens s person l h = ground (
  arith,
  l,
  pop_all-people tokens person s.held,
  tell_ended-signed_in (from_keys [] (pop_all tokens s.held).0)
      (people_of (pop_all tokens s.held).1) s.told person,
  member-from_keys person [] (pop_all tokens s.held).0,
)

pop-lookup : (t u : ℕ) (held : Dict ℕ Held) → lookup t held ≡ none → lookup t (pop u held).1 ≡ none
unfolding pop
pop-lookup t u [] h = refl
pop-lookup t u ((v, kept) ∷ held) h = ground (arith, pop-lookup t u held)

pub pop_all-lookup :
    (t : ℕ) (tokens : List ℕ) (held : Dict ℕ Held)
    → lookup t held ≡ none
    → lookup t (pop_all tokens held).1 ≡ none
unfolding pop_all
pop_all-lookup t [] held h = h
pop_all-lookup t (u ∷ tokens) held h =
    pop_all-lookup t tokens (pop u held).1 (pop-lookup t u held h)

insert-people_new :
    (t p : ℕ) (kept : Held) (held : Dict ℕ Held)
    → lookup t held ≡ none
    → member p (people_of (insert t kept held))
      ≡ (kept.session.person == p || member p (people_of held))
unfolding people_of
insert-people_new t p kept [] h = refl
insert-people_new t p kept ((u, other) ∷ held) h = ground (arith, insert-people_new t p kept held)

insert-people_again :
    (t p now : ℕ) (kept : Held) (held : Dict ℕ Held)
    → lookup t held ≡ some kept
    → member p (people_of (insert t (record { session = kept.session; last_used = now }) held))
      ≡ member p (people_of held)
unfolding people_of
insert-people_again t p now kept [] h = cc
insert-people_again t p now kept ((u, other) ∷ held) h =
    ground (arith, insert-people_again t p now kept held)

forget-listening : (tokens : List ℕ) (s : Sessions) → (forget tokens s).listening ≡ s.listening
unfolding forget
forget-listening tokens s = refl

-- Starting a session under a token that is not in use forgets those gone idle and tells of the new
-- one: where what a listener was told said whether a person is signed in, it still does.
pub start-IsTold :
    (token now : ℕ) (session : Session) (s : Sessions) (person : ℕ)
    → s.listening ≡ true
    → lookup token s.held ≡ none
    → IsTold s person
    → IsTold (start token now session s) person
unfolding start IsTold forget
start-IsTold token now session s person l f h =
    let kept : Sessions = forget (idle_tokens s.idle_seconds now s.held) s in
    ground (
      arith,
      l,
      forget-IsTold (idle_tokens s.idle_seconds now s.held) s person l h,
      insert-people_new token person (record { session = session; last_used = now }) kept.held
          (pop_all-lookup token (idle_tokens s.idle_seconds now s.held) s.held f),
      signed_in_from-append person false kept.told (session_started session.person ∷ []),
    )

-- Reading a request's session, which forgets those of its tokens gone idle and marks the one given
-- used, tells a listener what it must: where what was told said whether a person is signed in, it
-- still does.
pub session_of-IsTold :
    (tokens : List ℕ) (now : ℕ) (s : Sessions) (person : ℕ)
    → s.listening ≡ true
    → IsTold s person
    → IsTold (session_of tokens now s).1 person
unfolding session_of IsTold
session_of-IsTold [] now s person l h = h
session_of-IsTold (token ∷ tokens) now s person l h = elim (Option-cases (lookup token s.held)) [
  | inl e ↦ ground (arith, e, session_of-IsTold tokens now s person l h)
  | inr (kept, e) ↦ elim (Bool-cases (is_idle s.idle_seconds kept now)) [
    | inl i ↦ ground (
      arith,
      e,
      i,
      session_of-IsTold tokens now (forget (token ∷ []) s) person
          (forget-listening (token ∷ []) s ∙ l) (forget-IsTold (token ∷ []) s person l h),
    )
    | inr i ↦ ground (arith, e, i, insert-people_again token person now kept s.held e)
  ]
]
