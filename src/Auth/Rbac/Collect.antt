-- ===== src/Auth/Rbac/Collect.antt =====
-- internal/auth/rbac.go: the endpoints that a synchronisation collects from the routes.
use alertmesh_new.Prelude.{
  String, Bool, true, false, not, ◌&&◌, Option, none, some, List, [], ◌∷◌, ◌++◌, contains,
  if◌then◌else◌, str_eq, eq_iff, ◌≡◌, refl, arith,
}
use alertmesh_new.Auth.Rbac.{
  Route, Endpoint, Collected, is_acl_enabled, meta_string, endpoint_of, collect_route,
  collect_routes, collect_services,
}

abbrev pub is_row : Option Endpoint → Bool
is_row none = false
is_row (some e) = true

abbrev pub or_else : Option Endpoint → Option Endpoint → Option Endpoint
or_else none b = b
or_else (some e) b = some e

-- The first endpoint of a list with an identity.
abbrev pub named : String → List Endpoint → Option Endpoint
named i [] = none
named i (e ∷ es) = if str_eq e.identity i then some e else named i es

-- No identity is given to two endpoints.
abbrev pub Distinct : List Endpoint → Type 0
Distinct [] = Unit
Distinct (e ∷ es) = (named e.identity es ≡ none) × Distinct es

-- The endpoint that the first route under access control with an identity declares.
abbrev pub declared : List Route → String → Option Endpoint
declared [] i = none
declared (route ∷ routes) i =
    let id = meta_string route.metadata "identity" in
    if is_acl_enabled route.metadata && (not (str_eq id "") && str_eq id i)
    then some (endpoint_of route)
    else declared routes i

abbrev pub all_declared : List (List Route) → String → Option Endpoint
all_declared [] i = none
all_declared (routes ∷ services) i = or_else (declared routes i) (all_declared services i)

-- What the collection keeps: the identities seen are those collected, each once.
abbrev pub IsCollected : Collected → Type 0
IsCollected c =
    ((i : String) → contains c.seen i ≡ is_row (named i c.collected)) × Distinct c.collected

named-append :
    (i : String) (eps : List Endpoint) (e : Endpoint)
    → named i (eps ++ (e ∷ []))
      ≡ or_else (named i eps) (if str_eq e.identity i then some e else none)
named-append i [] e = refl
named-append i (x ∷ eps) e = ground (arith, named-append i eps e)

append-Distinct :
    (eps : List Endpoint) (e : Endpoint)
    → Distinct eps
    → named e.identity eps ≡ none
    → Distinct (eps ++ (e ∷ []))
append-Distinct [] e d n = (refl, tt)
append-Distinct (x ∷ eps) e d n = ground (
  arith,
  append-Distinct eps e d.1,
  named-append x.identity eps e,
  eq_iff x.identity e.identity,
  eq_iff e.identity x.identity,
  d.0,
)

named-collect_route :
    (route : Route) (c : Collected) (i : String)
    → IsCollected c
    → named i (collect_route route c).collected
      ≡ or_else (named i c.collected) (declared (route ∷ []) i)
unfolding collect_route endpoint_of
named-collect_route route c i inv = ground (
  arith,
  named-append i c.collected (endpoint_of route),
  inv.0 (meta_string route.metadata "identity"),
  inv.0 i,
  eq_iff (meta_string route.metadata "identity") i,
)

collect_route-seen :
    (route : Route) (c : Collected) (i : String)
    → IsCollected c
    → contains (collect_route route c).seen i ≡ is_row (named i (collect_route route c).collected)
unfolding collect_route endpoint_of
collect_route-seen route c i inv = ground (
  arith,
  named-append i c.collected (endpoint_of route),
  inv.0 (meta_string route.metadata "identity"),
  inv.0 i,
  eq_iff (meta_string route.metadata "identity") i,
)

collect_route-Distinct :
    (route : Route) (c : Collected) → IsCollected c → Distinct (collect_route route c).collected
unfolding collect_route endpoint_of
collect_route-Distinct route c inv = ground (
  arith,
  inv.0 (meta_string route.metadata "identity"),
  inv.1,
  append-Distinct c.collected (endpoint_of route) inv.1,
)

collect_route-IsCollected :
    (route : Route) (c : Collected) → IsCollected c → IsCollected (collect_route route c)
collect_route-IsCollected route c inv =
    (λ i. collect_route-seen route c i inv, collect_route-Distinct route c inv)

named-collect_routes :
    (routes : List Route) (c : Collected) (i : String)
    → IsCollected c
    → named i (collect_routes routes c).collected
      ≡ or_else (named i c.collected) (declared routes i)
unfolding collect_routes
named-collect_routes [] c i inv = ground arith
named-collect_routes (route ∷ routes) c i inv = ground (
  arith,
  named-collect_routes routes (collect_route route c) i (collect_route-IsCollected route c inv),
  named-collect_route route c i inv,
)

collect_routes-IsCollected :
    (routes : List Route) (c : Collected) → IsCollected c → IsCollected (collect_routes routes c)
unfolding collect_routes
collect_routes-IsCollected [] c inv = inv
collect_routes-IsCollected (route ∷ routes) c inv =
    collect_routes-IsCollected routes (collect_route route c)
      (collect_route-IsCollected route c inv)

pub named-collect_services :
    (services : List (List Route)) (c : Collected) (i : String)
    → IsCollected c
    → (named i (collect_services services c).collected
        ≡ or_else (named i c.collected) (all_declared services i))
      × Distinct (collect_services services c).collected
unfolding collect_services
named-collect_services [] c i inv = (ground arith, inv.1)
named-collect_services (routes ∷ services) c i inv =
    let rest =
      named-collect_services services (collect_routes routes c) i
        (collect_routes-IsCollected routes c inv) in
    (ground (arith, rest.0, named-collect_routes routes c i inv), rest.1)
