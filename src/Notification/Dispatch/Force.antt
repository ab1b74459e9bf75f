-- ===== src/Notification/Dispatch/Force.antt =====
-- internal/notification/dispatcher.go: which policies are in force for an incident.
use alertmesh_new.Prelude.{
  String, Bool, true, false, Option, none, some, List, [], ◌∷◌, ◌≡◌, refl, subst, ◌&&◌, str_eq,
  if◌then◌else◌, contains,
}
use alertmesh_new.Notification.Dispatch.{
  Directory, NotificationPolicy, AlertRoute, strict_items, load_route_for_incident,
  matched_policies,
}
use alertmesh_new.Notification.Dispatch.{
  Column, malformed, absent, items, severity_matches, find_route,
}
use alertmesh_new.Notification.Dispatch.Reach.{In}
use alertmesh_new.Notification.Dispatch.Listed.{covering, linked, in_force}
use mathlib.Core.Option.{some-injective}
use alertmesh_new.Prelude.{eq_iff, inl, inr}
use alertmesh_new.Notification.Dispatch.Origin.{contains-In}

-- The severities of a policy cover one: all are covered where the column is no list, or an empty one.
abbrev pub Covers : Column → String → Type 0
Covers absent sev = Unit
Covers (malformed left) sev = Unit
Covers (items []) sev = Unit
Covers (items (s ∷ ss)) sev = In sev (s ∷ ss)

-- A policy of the directory is in force: a route with this id links it, it is enabled, and it covers the
-- severity.
pub record InForce (db : Directory) (sev route_id : String) (p : NotificationPolicy) : Type 0 where
  pub routes : List AlertRoute
  pub all_routes : db.routes ≡ some routes
  pub route : AlertRoute
  pub stored_route : In route routes
  pub same_id : route.id ≡ route_id
  pub links : List String
  pub linking : route.channel_ids ≡ items links
  pub linked_policy : In p.id links
  pub policies : List NotificationPolicy
  pub all_policies : db.policies ≡ some policies
  pub stored_policy : In p policies
  pub enabled : p.is_enabled ≡ true
  pub covers : Covers p.severities sev

severity_matches-Covers : (c : Column) (sev : String) → severity_matches c sev ≡ true → Covers c sev
unfolding severity_matches
severity_matches-Covers absent sev h = tt
severity_matches-Covers (malformed left) sev h = tt
severity_matches-Covers (items []) sev h = tt
severity_matches-Covers (items (s ∷ ss)) sev h = contains-In (s ∷ ss) sev h

all_hold : (a b c : Bool) → ((a && b) && c) ≡ true → (a ≡ true) × (b ≡ true) × (c ≡ true)
all_hold true true c h = (refl, refl, h)
all_hold true false c h = cc
all_hold false b c h = cc

matched_policies-InRows :
    (ids : List String) (sev : String) (rows : List NotificationPolicy) (p : NotificationPolicy)
    → In p (matched_policies ids sev rows)
    → In p rows × (contains ids p.id ≡ true) × (p.is_enabled ≡ true) × Covers p.severities sev
unfolding matched_policies
matched_policies-InRows ids sev [] p h = absurd h
matched_policies-InRows ids sev (q ∷ rows) p h =
    by_tests (λ i. later (matched_policies-InRows ids sev rows p i)) _ refl h
  where
    Kept : NotificationPolicy → Type 0
    Kept x =
        In x (q ∷ rows)
        × (contains ids x.id ≡ true)
        × (x.is_enabled ≡ true)
        × Covers x.severities sev

    later :
        In p rows × (contains ids p.id ≡ true) × (p.is_enabled ≡ true) × Covers p.severities sev
        → Kept p
    later (at, linked, on, covered) = (inr at, linked, on, covered)

    by_tests :
        (In p (matched_policies ids sev rows) → Kept p)
        → (b : Bool)
        → ((contains ids q.id && q.is_enabled) && severity_matches q.severities sev) ≡ b
        → In p (if b then q ∷ matched_policies ids sev rows else matched_policies ids sev rows)
        → Kept p
    by_tests ih true e (inl same) =
        let (linked, on, covered) = all_hold _ _ _ e in
        subst Kept same (inl refl, linked, on, severity_matches-Covers q.severities sev covered)
    by_tests ih true e (inr i) = ih i
    by_tests ih false e i = ih i

find_route-In :
    (rows : List AlertRoute) (id : String) (route : AlertRoute)
    → find_route rows id ≡ some route
    → In route rows × (route.id ≡ id)
unfolding find_route
find_route-In [] id route h = cc
find_route-In (r ∷ rows) id route h =
    by_id (λ i. find_route-In rows id route i) (str_eq r.id id) refl h
  where
    by_id :
        (find_route rows id ≡ some route → In route rows × (route.id ≡ id))
        → (b : Bool) → str_eq r.id id ≡ b
        → (if b then some r else find_route rows id) ≡ some route
        → In route (r ∷ rows) × (route.id ≡ id)
    by_id ih true e i =
        let same = some-injective _ _ i in
        (inl same, subst (λ x. x.id ≡ id) same ((eq_iff r.id id).0 e))
    by_id ih false e i = let (at, named) = ih i in (inr at, named)

load_route-In :
    (db : Directory) (route_id : String) (route : AlertRoute)
    → load_route_for_incident db route_id ≡ some route
    → (routes : List AlertRoute) × (db.routes ≡ some routes)
      × In route routes
      × (route.id ≡ route_id)
unfolding load_route_for_incident
load_route-In db route_id route h = by_empty (str_eq route_id "") h
  where
    Found : Type 0
    Found =
        (routes : List AlertRoute) × (db.routes ≡ some routes)
        × In route routes
        × (route.id ≡ route_id)

    by_rows :
        (o : Option (List AlertRoute))
        → db.routes ≡ o
        → elim o [ none ↦ none | some rows ↦ find_route rows route_id ] ≡ some route
        → Found
    by_rows none e i = cc
    by_rows (some rows) e i =
        let (at, named) = find_route-In rows route_id route i in (rows, e, at, named)

    by_empty :
        (b : Bool)
        → (if b
            then none
            else elim db.routes [ none ↦ none | some rows ↦ find_route rows route_id ])
          ≡ some route
        → Found
    by_empty true i = cc
    by_empty false i = by_rows db.routes refl i

strict_items-In :
    (c : Column) (id : String)
    → contains (strict_items c) id ≡ true
    → (links : List String) × (c ≡ items links) × In id links
strict_items-In absent id h = cc
strict_items-In (malformed left) id h = cc
strict_items-In (items links) id h = (links, refl, contains-In links id h)

pub in_force-InForce :
    (db : Directory) (sev route_id : String) (p : NotificationPolicy)
    → In p (in_force db sev route_id)
    → InForce db sev route_id p
in_force-InForce db sev route_id p h = by_route (load_route_for_incident db route_id) refl h
  where
    by_links :
        (route : AlertRoute) (o : Option (List NotificationPolicy))
        → load_route_for_incident db route_id ≡ some route
        → db.policies ≡ o
        → In p (covering (strict_items route.channel_ids) sev o)
        → InForce db sev route_id p
    by_links route none e d i = absurd i
    by_links route (some rows) e d i =
        let (routes, all_routes, stored, same) = load_route-In db route_id route e in
        let (at, linked, on, covered) =
          matched_policies-InRows (strict_items route.channel_ids) sev rows p i in
        let (links, linking, named) = strict_items-In route.channel_ids p.id linked in
        record {
          routes = routes;
          all_routes = all_routes;
          route = route;
          stored_route = stored;
          same_id = same;
          links = links;
          linking = linking;
          linked_policy = named;
          policies = rows;
          all_policies = d;
          stored_policy = at;
          enabled = on;
          covers = covered;
        }

    by_route :
        (o : Option AlertRoute)
        → load_route_for_incident db route_id ≡ o
        → In p (covering (linked o) sev db.policies)
        → InForce db sev route_id p
    by_route none e i = by_none db.policies i
      where
        by_none :
            (o : Option (List NotificationPolicy))
            → In p (covering [] sev o)
            → InForce db sev route_id p
        by_none none i = absurd i
        by_none (some rows) i =
            let (at, none_linked, on, covered) = matched_policies-InRows [] sev rows p i in cc
    by_route (some route) e i = by_links route db.policies e refl i
