-- ===== src/Webserver/Router/Allow.antt =====
-- That a path's answer names the methods it is served for: src/libranet/webserver/router.py.
use libranet.Base.{
  ℕ, ◌≡◌, refl, inl, inr, Bool, true, false, ◌||◌, none, some, List, [], ◌∷◌, ◌++◌, arith, ◌==◌,
  Bool-cases, Option-cases, nat_eq,
}
use libranet.Base.Dict.{Dict, member}
use libranet.Base.Sorted.{member-sorted_set}
use libranet.Webserver.Router.{
  route_each, dispatch_request, Request, Route, Answer, answered, method_not_allowed, no_resource,
}

member-append_one : (n m : ℕ) (ms : List ℕ) → member n (ms ++ (m ∷ [])) ≡ (member n ms || m == n)
member-append_one n m [] = ground arith
member-append_one n m (k ∷ ms) = ground (arith, member-append_one n m ms)

module _ {R : Type 0} where
  -- Whether a path is served for a method.
  abbrev pub serves : ℕ → ℕ → List (Route R) → Bool
  serves method path [] = false
  serves method path (route ∷ routes) =
      (elim (route.pattern path) [ none ↦ false | some groups ↦ route.method == method ])
      || serves method path routes

  -- What an answer says of the methods that a request's path is served for, or is in `others`.
  abbrev pub Names : Request → List (Route R) → List ℕ → Answer R → Type 0
  Names request routes others (answered response) = serves request.method request.path routes ≡ true
  Names request routes others (method_not_allowed methods) =
      (serves request.method request.path routes ≡ false)
      × ((m : ℕ) → member m methods ≡ (member m others || serves m request.path routes))
  Names request routes others no_resource =
      (m : ℕ) → (member m others || serves m request.path routes) ≡ false

  Names-none :
      (route : Route R) (routes : List (Route R)) (request : Request) (others : List ℕ)
      (answer : Answer R)
      → route.pattern request.path ≡ none
      → Names request routes others answer
      → Names request (route ∷ routes) others answer
  Names-none route routes request others (answered response) e n = ground (arith, e, n)
  Names-none route routes request others (method_not_allowed methods) e n =
      (ground (arith, e, n.0), λ m. ground (arith, e, n.1 m))
  Names-none route routes request others no_resource e n = λ m. ground (arith, e, n m)

  Names-other :
      (route : Route R) (routes : List (Route R)) (request : Request) (others : List ℕ)
      (answer : Answer R) (groups : Dict ℕ ℕ)
      → route.pattern request.path ≡ some groups
      → (route.method == request.method) ≡ false
      → Names request routes (others ++ (route.method ∷ [])) answer
      → Names request (route ∷ routes) others answer
  Names-other route routes request others (answered response) groups e f n = ground (arith, e, n)
  Names-other route routes request others (method_not_allowed methods) groups e f n = (
    ground (arith, e, f, n.0),
    λ m. ground (arith, e, n.1 m, member-append_one m route.method others),
  )
  Names-other route routes request others no_resource groups e f n =
      λ m. ground (arith, e, n m, member-append_one m route.method others)

  route_each-Names :
      (routes : List (Route R)) (request : Request) (allowed : List ℕ)
      → Names request routes allowed (route_each routes request allowed)
  unfolding route_each
  route_each-Names [] request [] = λ m. refl
  route_each-Names [] request (a ∷ allowed) =
      (refl, λ m. ground (arith, member-sorted_set m (a ∷ allowed)))
  route_each-Names (route ∷ routes) request allowed =
      elim (Option-cases (route.pattern request.path)) [
        | inl e ↦
            rw (e, route_each)
              (Names-none route routes request allowed (route_each routes request allowed) e
                (route_each-Names routes request allowed))
        | inr (groups, e) ↦ elim (Bool-cases (route.method == request.method)) [
          | inl t ↦ rw (e, route_each) (rw t (ground (arith, e, t)))
          | inr f ↦
              rw (e, route_each)
                (rw f (
                  Names-other route routes request allowed
                    (route_each routes request (allowed ++ (route.method ∷ []))) groups e f
                    (route_each-Names routes request (allowed ++ (route.method ∷ [])))))
        ]
      ]

  -- Where no guard stands before the routes: a handler answers a request only if its path is served for its method; a
  -- 405 is for one that is not, and names exactly the methods its path is served for; and a 404 is for a path served for none.
  pub dispatch_request-Names :
      (routes : List (Route R)) (request : Request)
      → Names request routes [] (dispatch_request [] routes request)
  unfolding dispatch_request
  dispatch_request-Names routes request = route_each-Names routes request []
