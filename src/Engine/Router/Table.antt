-- ===== src/Engine/Router/Table.antt =====
-- internal/engine/pipeline.go, `loadRoutes`: what holds of the routes loaded and of the rows of the
-- table.
use mathlib.Core.Option.{some-injective}
use alertmesh_new.Prelude.{
  Option, sym, ◌∙◌, subst, Bool, true, false, none, some, List, [], ◌∷◌, map, All, Any, ◌≡◌, refl,
  inl, inr, ◌⊎◌, leb_ℤ, if◌then◌else◌,
}
use alertmesh_new.Engine.Matcher.{Regexp, MatcherJson, unmarshal}
use alertmesh_new.Engine.Router.{
  RouteDef, RouteRow, or_nil, compile_route, set_routes, enabled_routes, insert_row,
  order_by_priority, select_routes, route_defs, load_routes,
}

abbrev plain_route : RouteRow → List MatcherJson → RouteDef
plain_route row ms = record {
  id = row.id;
  name = row.name;
  priority = row.priority;
  matchers = map unmarshal ms;
  group_by = or_nil row.group_by;
}

-- The route of a row whose matchers decode.
abbrev pub route_of : Regexp → RouteRow → List MatcherJson → RouteDef
route_of rx row ms = compile_route rx (plain_route row ms)

module _ (P : RouteRow → Type 0) where
  insert_row-All_of : (r : RouteRow) (rs : List RouteRow) → All P (insert_row r rs) → P r × All P rs
  unfolding insert_row
  insert_row-All_of r [] h = h
  insert_row-All_of r (s ∷ rs) h = by_test (leb_ℤ s.priority r.priority) (insert_row-All_of r rs) h
    where
      by_test :
          (b : Bool)
          → (All P (insert_row r rs) → P r × All P rs)
          → All P (if b then r ∷ s ∷ rs else s ∷ insert_row r rs)
          → P r × All P (s ∷ rs)
      by_test true ih i = i
      by_test false ih i = let (own, rest) = ih i.1 in (own, (i.0, rest))

  order_by_priority-All_of : (rs : List RouteRow) → All P (order_by_priority rs) → All P rs
  unfolding order_by_priority
  order_by_priority-All_of [] h = tt
  order_by_priority-All_of (r ∷ rs) h =
      let (own, rest) = insert_row-All_of r (order_by_priority rs) h in
      (own, order_by_priority-All_of rs rest)

  enabled_routes-All_of :
      (rs : List RouteRow)
      → All P (enabled_routes rs)
      → All (λ row. row.is_enabled ≡ true → P row) rs
  unfolding enabled_routes
  enabled_routes-All_of [] h = tt
  enabled_routes-All_of (r ∷ rs) h = by_test r.is_enabled refl (enabled_routes-All_of rs) h
    where
      by_test :
          (b : Bool)
          → r.is_enabled ≡ b
          → (All P (enabled_routes rs) → All (λ row. row.is_enabled ≡ true → P row) rs)
          → All P (if b then r ∷ enabled_routes rs else enabled_routes rs)
          → All (λ row. row.is_enabled ≡ true → P row) (r ∷ rs)
      by_test true e ih i = (λ _. i.0, ih i.1)
      by_test false e ih i = (λ on. cc, ih i)

  insert_row-Any_of : (r : RouteRow) (rs : List RouteRow) → Any P (insert_row r rs) → P r ⊎ Any P rs
  unfolding insert_row
  insert_row-Any_of r [] h = h
  insert_row-Any_of r (s ∷ rs) h = by_test (leb_ℤ s.priority r.priority) (insert_row-Any_of r rs) h
    where
      by_test :
          (b : Bool)
          → (Any P (insert_row r rs) → P r ⊎ Any P rs)
          → Any P (if b then r ∷ s ∷ rs else s ∷ insert_row r rs)
          → P r ⊎ Any P (s ∷ rs)
      by_test true ih i = i
      by_test false ih (inl own) = inr (inl own)
      by_test false ih (inr i) = elim (ih i) [ inl own ↦ inl own | inr rest ↦ inr (inr rest) ]

  order_by_priority-Any_of : (rs : List RouteRow) → Any P (order_by_priority rs) → Any P rs
  unfolding order_by_priority
  order_by_priority-Any_of [] h = h
  order_by_priority-Any_of (r ∷ rs) h = elim (insert_row-Any_of r (order_by_priority rs) h) [
    | inl own ↦ inl own
    | inr rest ↦ inr (order_by_priority-Any_of rs rest)
  ]

  enabled_routes-Any_of :
      (rs : List RouteRow)
      → Any P (enabled_routes rs)
      → Any (λ row. (row.is_enabled ≡ true) × P row) rs
  unfolding enabled_routes
  enabled_routes-Any_of [] h = h
  enabled_routes-Any_of (r ∷ rs) h = by_test r.is_enabled refl (enabled_routes-Any_of rs) h
    where
      by_test :
          (b : Bool)
          → r.is_enabled ≡ b
          → (Any P (enabled_routes rs) → Any (λ row. (row.is_enabled ≡ true) × P row) rs)
          → Any P (if b then r ∷ enabled_routes rs else enabled_routes rs)
          → Any (λ row. (row.is_enabled ≡ true) × P row) (r ∷ rs)
      by_test true e ih (inl own) = inl (e, own)
      by_test true e ih (inr i) = inr (ih i)
      by_test false e ih i = inr (ih i)

module _ (rx : Regexp) (Q : RouteDef → Type 0) where
  -- What holds of the routes of a row.
  abbrev pub OfRow : RouteRow → Type 0
  OfRow row = (ms : List MatcherJson) → row.matchers ≡ some ms → Q (route_of rx row ms)

  abbrev pub SomeOfRow : RouteRow → Type 0
  SomeOfRow row = (ms : List MatcherJson) × (row.matchers ≡ some ms) × Q (route_of rx row ms)

  set_routes-All_of : (rs : List RouteRow) → All Q (set_routes rx (route_defs rs)) → All OfRow rs
  unfolding set_routes route_defs
  set_routes-All_of [] h = tt
  set_routes-All_of (r ∷ rs) h = by_matchers r.matchers refl (set_routes-All_of rs) h
    where
      by_matchers :
          (o : Option (List MatcherJson))
          → r.matchers ≡ o
          → (All Q (set_routes rx (route_defs rs)) → All OfRow rs)
          → All Q (
              set_routes rx
                (elim o [ none ↦ route_defs rs | some ms ↦ plain_route r ms ∷ route_defs rs ]))
          → All OfRow (r ∷ rs)
      by_matchers none e ih i = (λ ms d. cc, ih i)
      by_matchers (some ms) e ih i =
          (λ ns d. subst (λ k. Q (route_of rx r k)) (some-injective _ _ (sym e ∙ d)) i.0, ih i.1)

  set_routes-Any_of :
      (rs : List RouteRow) → Any Q (set_routes rx (route_defs rs)) → Any SomeOfRow rs
  unfolding set_routes route_defs
  set_routes-Any_of [] h = h
  set_routes-Any_of (r ∷ rs) h = by_matchers r.matchers refl (set_routes-Any_of rs) h
    where
      by_matchers :
          (o : Option (List MatcherJson))
          → r.matchers ≡ o
          → (Any Q (set_routes rx (route_defs rs)) → Any SomeOfRow rs)
          → Any Q (
              set_routes rx
                (elim o [ none ↦ route_defs rs | some ms ↦ plain_route r ms ∷ route_defs rs ]))
          → Any SomeOfRow (r ∷ rs)
      by_matchers none e ih i = inr (ih i)
      by_matchers (some ms) e ih (inl own) = inl (ms, e, own)
      by_matchers (some ms) e ih (inr i) = inr (ih i)

  -- What holds of every route loaded holds of the route of every enabled row that decodes.
  pub load_routes-All_of :
      (rows : List RouteRow) (old : List RouteDef)
      → All Q (load_routes rx (some rows) old)
      → All (λ row. row.is_enabled ≡ true → OfRow row) rows
  unfolding load_routes select_routes
  load_routes-All_of rows old h = enabled_routes-All_of OfRow rows (
      order_by_priority-All_of OfRow (enabled_routes rows)
        (set_routes-All_of (select_routes rows) h))

  -- What holds of some route loaded holds of the route of some enabled row that decodes.
  pub load_routes-Any_of :
      (rows : List RouteRow) (old : List RouteDef)
      → Any Q (load_routes rx (some rows) old)
      → Any (λ row. (row.is_enabled ≡ true) × SomeOfRow row) rows
  unfolding load_routes select_routes
  load_routes-Any_of rows old h = enabled_routes-Any_of SomeOfRow rows (
      order_by_priority-Any_of SomeOfRow (enabled_routes rows)
        (set_routes-Any_of (select_routes rows) h))
