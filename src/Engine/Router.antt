-- ===== src/Engine/Router.antt =====
-- internal/engine/routing.go, `Router`, and `loadRoutes` of internal/engine/pipeline.go.
pub mod Table
pub mod Priority
use alertmesh_new.Prelude.{
  String, Bool, Option, none, some, List, [], ◌∷◌, map, Assoc, ℤ, leb_ℤ, if◌then◌else◌,
}
use alertmesh_new.Engine.Alert.{RawAlert}
use alertmesh_new.Engine.Matcher.{
  Regexp, MatcherJson, LabelMatcher, unmarshal, compile, matches_all,
}

pub record RouteDef : Type 0 where
  pub id : String
  pub name : String
  pub priority : ℤ
  pub matchers : List LabelMatcher
  pub group_by : List String

-- A row of `alert_routes`. A JSON column is `none` where `json.Unmarshal` fails; `group_by` is also
-- `none` where the column is empty.
pub record RouteRow : Type 0 where
  pub id : String
  pub name : String
  pub priority : ℤ
  pub is_enabled : Bool
  pub matchers : Option (List MatcherJson)
  pub group_by : Option (List String)

module _ (rx : Regexp) where
  unfoldable pub compile_route : RouteDef → RouteDef
  compile_route r = record r { matchers = map (compile rx) r.matchers }

  -- `SetRoutes`; the result is the router's new `routes`.
  unfoldable pub set_routes : List RouteDef → List RouteDef
  unfolding compile_route
  set_routes routes = map compile_route routes

  -- `Match`; `none` is the nil route.
  unfoldable pub match : List RouteDef → RawAlert → Option RouteDef
  match [] alert = none
  match (r ∷ rs) alert =
      let rest = match rs alert in if matches_all rx r.matchers alert.labels then some r else rest

-- WHERE is_enabled
unfoldable pub enabled_routes : List RouteRow → List RouteRow
enabled_routes [] = []
enabled_routes (r ∷ rs) = let rest = enabled_routes rs in if r.is_enabled then r ∷ rest else rest

-- ORDER BY priority DESC. SQL leaves the order of equal priorities open; here it is that of the table,
-- which is any list.
unfoldable pub insert_row : RouteRow → List RouteRow → List RouteRow
insert_row r [] = r ∷ []
insert_row r (s ∷ rs) =
    let rest = insert_row r rs in if leb_ℤ s.priority r.priority then r ∷ s ∷ rs else s ∷ rest

unfoldable pub order_by_priority : List RouteRow → List RouteRow
unfolding insert_row
order_by_priority [] = []
order_by_priority (r ∷ rs) = insert_row r (order_by_priority rs)

-- The rows of the query.
unfoldable pub select_routes : List RouteRow → List RouteRow
unfolding enabled_routes order_by_priority
select_routes rows = order_by_priority (enabled_routes rows)

-- A JSON column of strings: the nil slice where there is nothing to decode.
unfoldable pub or_nil : Option (List String) → List String
or_nil none = []
or_nil (some ks) = ks

-- The loop of `loadRoutes` over the selected rows: a row whose matchers do not decode is skipped.
unfoldable pub route_defs : List RouteRow → List RouteDef
unfolding or_nil
route_defs [] = []
route_defs (r ∷ rs) =
    let rest = route_defs rs in
    elim r.matchers [
      | none ↦ rest
      | some ms ↦
          record {
            id = r.id;
            name = r.name;
            priority = r.priority;
            matchers = map unmarshal ms;
            group_by = or_nil r.group_by;
          }
          ∷ rest
    ]

-- `loadRoutes` over the table; a failed query (`none`) keeps the old routes.
unfoldable pub load_routes : Regexp → Option (List RouteRow) → List RouteDef → List RouteDef
unfolding set_routes select_routes route_defs
load_routes rx none routes = routes
load_routes rx (some table) routes = set_routes rx (route_defs (select_routes table))
