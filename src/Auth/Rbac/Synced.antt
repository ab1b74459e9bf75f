-- ===== src/Auth/Rbac/Synced.antt =====
-- internal/auth/rbac.go: what a synchronisation of the routes leaves in the tables.
use alertmesh_new.Prelude.{
  ℕ, String, Bool, true, false, not, ◌&&◌, ◌||◌, none, List, [], ◌∷◌, map, Assoc, lookup,
  lookup-insert, lookup-delete, contains, if◌then◌else◌, str_eq, eq_iff, ◌≡◌, refl, ap, ◌∙◌, ◌==◌,
  arith,
}
use alertmesh_new.Auth.Rbac.{
  Route, Endpoint, AclTables, Failures, collect_services, unlink, remove_stale, remove_endpoint,
  plucked, upsert, upserts, store_router, sync, nothing_collected,
}
use alertmesh_new.Auth.Rbac.Collect.{
  is_row, or_else, named, Distinct, all_declared, IsCollected, named-collect_services,
}

-- Whether a role may use an endpoint.
abbrev pub linked : ℕ → String → List (ℕ × String) → Bool
linked role i [] = false
linked role i (link ∷ links) = ((link.0 == role) && str_eq link.1 i) || linked role i links

abbrev pub NoFailures : Failures → Type 0
NoFailures f =
    (f.pluck_fails ≡ false)
    × ((i : String) → f.unlink_fails i ≡ false)
    × ((i : String) → f.remove_fails i ≡ false)
    × ((i : String) → f.upsert_fails i ≡ false)

lookup-upserts :
    (f : Failures) (eps : List Endpoint) (t : AclTables) (i : String)
    → NoFailures f
    → Distinct eps
    → lookup i (upserts f eps t).endpoints ≡ or_else (named i eps) (lookup i t.endpoints)
unfolding upserts upsert
lookup-upserts f [] t i ok d = refl
lookup-upserts f (e ∷ es) t i ok d = ground (
  arith,
  lookup-upserts f es (upsert f e t) i ok d.1,
  ok.3 e.identity,
  lookup-insert e.identity i e t.endpoints,
  eq_iff e.identity i,
  d.0,
)

role_endpoints-upserts :
    (f : Failures) (eps : List Endpoint) (t : AclTables)
    → (upserts f eps t).role_endpoints ≡ t.role_endpoints
unfolding upserts upsert
role_endpoints-upserts f [] t = refl
role_endpoints-upserts f (e ∷ es) t = role_endpoints-upserts f es (upsert f e t)

linked-unlink :
    (role : ℕ) (i j : String) (links : List (ℕ × String))
    → linked role j (unlink i links) ≡ (linked role j links && not (str_eq i j))
unfolding unlink
linked-unlink role i j [] = refl
linked-unlink role i j (link ∷ links) =
    ground (arith, linked-unlink role i j links, eq_iff link.1 i, eq_iff link.1 j, eq_iff i j)

lookup-remove_stale :
    (current : List String) (f : Failures) (stale : List String) (t : AclTables) (i : String)
    → NoFailures f
    → lookup i (remove_stale current f stale t).endpoints
      ≡ (if contains stale i && not (contains current i) then none else lookup i t.endpoints)
unfolding remove_stale remove_endpoint
lookup-remove_stale current f [] t i ok = refl
lookup-remove_stale current f (j ∷ stale) t i ok = ground (
  arith,
  lookup-remove_stale current f stale (if contains current j then t else remove_endpoint f j t) i
      ok,
  ok.2 j,
  lookup-delete j i t.endpoints,
  eq_iff j i,
)

linked-remove_stale :
    (current : List String) (f : Failures) (stale : List String) (t : AclTables) (role : ℕ)
    (i : String)
    → NoFailures f
    → linked role i (remove_stale current f stale t).role_endpoints
      ≡ (linked role i t.role_endpoints && not (contains stale i && not (contains current i)))
unfolding remove_stale remove_endpoint
linked-remove_stale current f [] t role i ok = ground arith
linked-remove_stale current f (j ∷ stale) t role i ok = ground (
  arith,
  linked-remove_stale current f stale (if contains current j then t else remove_endpoint f j t) role
      i ok,
  ok.1 j,
  linked-unlink role j i t.role_endpoints,
  eq_iff j i,
)

contains-keys :
    (table : Assoc Endpoint) (i : String)
    → contains (map (λ row. row.0) table) i ≡ is_row (lookup i table)
unfolding lookup
contains-keys [] i = refl
contains-keys (row ∷ table) i = ground (arith, contains-keys table i)

contains-identities :
    (eps : List Endpoint) (i : String)
    → contains (map (λ e. e.identity) eps) i ≡ is_row (named i eps)
contains-identities [] i = refl
contains-identities (e ∷ eps) i = ground (arith, contains-identities eps i)

lookup-sync :
    (f : Failures) (eps : List Endpoint) (t : AclTables) (i : String)
    → NoFailures f
    → Distinct eps
    → lookup i (sync f eps t).endpoints
      ≡ elim eps [ [] ↦ lookup i t.endpoints | e ∷ es ↦ named i (e ∷ es) ]
unfolding sync plucked
lookup-sync f [] t i ok d = refl
lookup-sync f (e ∷ es) t i ok d = ground (
  arith,
  ok.0,
  lookup-upserts f (e ∷ es) (remove_stale (map (λ e. e.identity) (e ∷ es)) f (plucked f t) t) i ok
      d,
  lookup-remove_stale (map (λ e. e.identity) (e ∷ es)) f (plucked f t) t i ok,
  contains-keys t.endpoints i,
  contains-identities (e ∷ es) i,
)

linked-sync :
    (f : Failures) (eps : List Endpoint) (t : AclTables) (role : ℕ) (i : String)
    → NoFailures f
    → linked role i (sync f eps t).role_endpoints ≡ elim eps [
      | [] ↦ linked role i t.role_endpoints
      | e ∷ es ↦
          linked role i t.role_endpoints
          && not (is_row (lookup i t.endpoints) && not (is_row (named i (e ∷ es))))
    ]
unfolding sync plucked
linked-sync f [] t role i ok = refl
linked-sync f (e ∷ es) t role i ok = ground (
  arith,
  ok.0,
  role_endpoints-upserts f (e ∷ es)
      (remove_stale (map (λ e. e.identity) (e ∷ es)) f (plucked f t) t),
  linked-remove_stale (map (λ e. e.identity) (e ∷ es)) f (plucked f t) t role i ok,
  contains-keys t.endpoints i,
  contains-identities (e ∷ es) i,
)

-- If no statement fails and some route under access control has an identity, then after a
-- synchronisation the row of an identity is what the first such route with it declares, an
-- identity without one has no row, and a role keeps its link to an identity unless a row of that
-- identity was dropped.
pub store_router-IsSynced :
    (f : Failures) (services : List (List Route)) (t : AclTables) (j : String) (role : ℕ)
    (i : String)
    → NoFailures f
    → is_row (all_declared services j) ≡ true
    → (lookup i (store_router f services t).endpoints ≡ all_declared services i)
      × (linked role i (store_router f services t).role_endpoints ≡ (
          linked role i t.role_endpoints
          && not (is_row (lookup i t.endpoints) && not (is_row (all_declared services i)))))
unfolding store_router
store_router-IsSynced f services t j role i ok h =
    let none_yet : IsCollected nothing_collected = (λ k. refl, tt) in
    let eps = (collect_services services nothing_collected).collected in
    let at_i = named-collect_services services nothing_collected i none_yet in
    let at_j = named-collect_services services nothing_collected j none_yet in
    (
      ground (arith, at_i.0, at_j.0, h, lookup-sync f eps t i ok at_i.1),
      ground (arith, at_i.0, at_j.0, h, linked-sync f eps t role i ok),
    )

linked-remove_stale_current :
    (current : List String) (f : Failures) (stale : List String) (t : AclTables) (role : ℕ)
    (i : String)
    → contains current i ≡ true
    → linked role i (remove_stale current f stale t).role_endpoints ≡ linked role i t.role_endpoints
unfolding remove_stale remove_endpoint
linked-remove_stale_current current f [] t role i h = refl
linked-remove_stale_current current f (j ∷ stale) t role i h = ground (
  arith,
  h,
  linked-remove_stale_current current f stale
      (if contains current j then t else remove_endpoint f j t) role i h,
  linked-unlink role j i t.role_endpoints,
  eq_iff j i,
)

linked-sync_current :
    (f : Failures) (eps : List Endpoint) (t : AclTables) (role : ℕ) (i : String)
    → is_row (named i eps) ≡ true
    → linked role i (sync f eps t).role_endpoints ≡ linked role i t.role_endpoints
unfolding sync
linked-sync_current f [] t role i h = refl
linked-sync_current f (e ∷ es) t role i h =
    ap (linked role i) (
      role_endpoints-upserts f (e ∷ es)
        (remove_stale (map (λ e. e.identity) (e ∷ es)) f (plucked f t) t))
    ∙ linked-remove_stale_current (map (λ e. e.identity) (e ∷ es)) f (plucked f t) t role i
        (contains-identities (e ∷ es) i ∙ h)

-- Whichever statements of the database fail, a synchronisation takes from no role, and gives to
-- none, the permission on an identity that a route under access control declares.
pub store_router-keeps_permissions :
    (f : Failures) (services : List (List Route)) (t : AclTables) (role : ℕ) (i : String)
    → is_row (all_declared services i) ≡ true
    → linked role i (store_router f services t).role_endpoints ≡ linked role i t.role_endpoints
unfolding store_router
store_router-keeps_permissions f services t role i h =
    linked-sync_current f (collect_services services nothing_collected).collected t role i
      (ap is_row (named-collect_services services nothing_collected i (λ k. refl, tt)).0 ∙ h)
