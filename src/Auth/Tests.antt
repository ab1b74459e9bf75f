-- ===== src/Auth/Tests.antt =====
-- internal/auth: a synchronisation that fails in part, run on two routes and a stale row.
use alertmesh_new.Prelude.{String, Bool, true, false, none, List, [], ◌∷◌, lookup, ◌≡◌, refl}
use alertmesh_new.Auth.Rbac.{
  flag, text, Route, Endpoint, AclTables, Failures, is_acl_enabled, meta_string, endpoint_of,
  store_router,
}
use alertmesh_new.Auth.Rbac.Synced.{linked, store_router-IsSynced, store_router-keeps_permissions}

abbrev route : String → Bool → Route
route id acl = record {
  route_path = "/api/v1/incidents";
  route_method = "GET";
  doc = "List";
  metadata =
      ("acl", flag acl)
      ∷ ("identity", text id)
      ∷ ("module", text "incident")
      ∷ ("kind", text "read")
      ∷ [];
}

abbrev services : List (List Route)
services = (route "login" false ∷ route "list" true ∷ []) ∷ (route "list" true ∷ []) ∷ []

abbrev row : String → Endpoint
row id = record {
  path = "/old";
  method = "GET";
  module_name = "incident";
  kind = "read";
  identity = id;
  remark = "";
}

abbrev tables : AclTables
tables = record {
  endpoints = ("gone", row "gone") ∷ ("list", row "list") ∷ [];
  role_endpoints = (7, "gone") ∷ (7, "list") ∷ [];
}

abbrev no_failures : Failures
no_failures = record {
  pluck_fails = false;
  unlink_fails = λ i. false;
  remove_fails = λ i. false;
  upsert_fails = λ i. false;
}

abbrev unlink_failures : Failures
unlink_failures = record {
  pluck_fails = false;
  unlink_fails = λ i. true;
  remove_fails = λ i. true;
  upsert_fails = λ i. false;
}

-- The row that no route declares goes, with the link to it.
store_router-IsSynced_example :
    (lookup "gone" (store_router no_failures services tables).endpoints ≡ none)
    × (linked 7 "gone" (store_router no_failures services tables).role_endpoints ≡ false)
unfolding is_acl_enabled meta_string endpoint_of lookup
store_router-IsSynced_example =
    store_router-IsSynced no_failures services tables "list" 7 "gone"
      (refl, λ i. refl, λ i. refl, λ i. refl) refl

-- The link to a declared identity stays, also where no deletion succeeds.
store_router-keeps_permissions_example :
    linked 7 "list" (store_router unlink_failures services tables).role_endpoints ≡ true
unfolding is_acl_enabled meta_string endpoint_of lookup
store_router-keeps_permissions_example =
    store_router-keeps_permissions unlink_failures services tables 7 "list" refl
