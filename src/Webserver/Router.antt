-- ===== src/Webserver/Router.antt =====
-- The routing of requests to handlers: `Router` of src/libranet/webserver/router.py. Methods and paths are numbers; what a
-- pattern matches, what a guard and a handler do, and their responses are parameters.
pub mod Allow
use libranet.Base.{ℕ, true, false, Option, none, some, List, [], ◌∷◌, ◌++◌, ◌==◌, nat_eq}
use libranet.Base.Dict.{Dict}
use libranet.Base.Sorted.{sorted_set}

pub record Request : Type 0 where
  pub method : ℕ
  pub path : ℕ
  pub params : Dict ℕ ℕ

-- `Route`; its pattern gives the named groups of a path that it matches.
pub record Route (R : Type 0) : Type 0 where
  pub method : ℕ
  pub pattern : ℕ → Option (Dict ℕ ℕ)
  pub handler : Request → R

-- What a guard makes of a request.
pub data Checked (R : Type 0) : Type 0 where
  answers : R → Checked R
  passes : Request → Checked R

-- A handler's or a guard's response, or one built with the status 405 or 404
pub data Answer (R : Type 0) : Type 0 where
  answered : R → Answer R
  method_not_allowed : List ℕ → Answer R
  no_resource : Answer R

module _ {R : Type 0} where
  -- `add`, of a method that is upper case
  unfoldable pub add_route : Route R → List (Route R) → List (Route R)
  add_route route routes = routes ++ (route ∷ [])

  -- The loop of `dispatch` over the routes, and what follows it
  unfoldable pub route_each : List (Route R) → Request → List ℕ → Answer R
  unfolding sorted_set
  route_each [] request [] = no_resource
  route_each [] request (m ∷ allowed) = method_not_allowed (sorted_set (m ∷ allowed))
  route_each (route ∷ routes) request allowed = elim (route.pattern request.path) [
    | none ↦ route_each routes request allowed
    | some groups ↦ elim (route.method == request.method) [
      | true ↦ answered (route.handler (record request { params = groups }))
      | false ↦ route_each routes request (allowed ++ (route.method ∷ []))
    ]
  ]

  -- `dispatch`
  unfoldable pub dispatch_request : List (Request → Checked R) → List (Route R) → Request → Answer R
  unfolding route_each
  dispatch_request [] routes request = route_each routes request []
  dispatch_request (guard_of ∷ guards) routes request = elim (guard_of request) [
    | answers response ↦ answered response
    | passes checked ↦ dispatch_request guards routes checked
  ]
