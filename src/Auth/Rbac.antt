-- ===== src/Auth/Rbac.antt =====
-- internal/auth/rbac.go: `StoreRouter`, with its helpers `isACLEnabled` and `metaString`, and
-- internal/model/endpoint.go.
--
-- The table `endpoints` is a map, since the identity is its primary key. `Failures` says which
-- statements of the database fail; a statement that fails leaves the tables as they are.
pub mod Collect
pub mod Synced
use alertmesh_new.Prelude.{
  ℕ, String, Bool, true, false, not, ◌&&◌, ◌||◌, Option, none, some, List, [], ◌∷◌, ◌++◌, map,
  Assoc, lookup, insert, delete, contains, if◌then◌else◌, str_eq,
}

-- A value of the metadata of a route, of type any.
pub data MetaValue : Type 0 where
  flag : Bool → MetaValue
  text : String → MetaValue
  other : MetaValue

-- What is read of a route of go-restful.
pub record Route : Type 0 where
  pub route_path : String
  pub route_method : String
  pub doc : String
  pub metadata : Assoc MetaValue

pub record Endpoint : Type 0 where
  pub path : String
  pub method : String
  pub module_name : String
  pub kind : String
  pub identity : String
  pub remark : String

pub record AclTables : Type 0 where
  pub endpoints : Assoc Endpoint
  -- a role id and the identity of an endpoint
  pub role_endpoints : List (ℕ × String)

pub record Failures : Type 0 where
  pub pluck_fails : Bool
  pub unlink_fails : String → Bool
  pub remove_fails : String → Bool
  pub upsert_fails : String → Bool

as_flag : Option MetaValue → Bool
as_flag (some (flag b)) = b
as_flag (some (text s)) = false
as_flag (some other) = false
as_flag none = false

unfoldable pub is_acl_enabled : Assoc MetaValue → Bool
unfolding as_flag lookup
is_acl_enabled meta = as_flag (lookup "acl" meta)

as_text : Option MetaValue → String
as_text (some (text s)) = s
as_text (some (flag b)) = ""
as_text (some other) = ""
as_text none = ""

unfoldable pub meta_string : Assoc MetaValue → String → String
unfolding as_text lookup
meta_string meta key = as_text (lookup key meta)

-- The endpoints collected so far, and the identities seen.
pub record Collected : Type 0 where
  pub seen : List String
  pub collected : List Endpoint

unfoldable pub endpoint_of : Route → Endpoint
endpoint_of route = record {
  path = route.route_path;
  method = route.route_method;
  module_name = meta_string (route.metadata) "module";
  kind = meta_string (route.metadata) "kind";
  identity = meta_string (route.metadata) "identity";
  remark = route.doc;
}

unfoldable pub collect_route : Route → Collected → Collected
collect_route route c =
    let id = meta_string (route.metadata) "identity" in
    if not (is_acl_enabled (route.metadata))
    then c
    else if str_eq id "" || contains (c.seen) id
    then c
    else record { seen = id ∷ c.seen; collected = c.collected ++ (endpoint_of route ∷ []) }

unfoldable pub collect_routes : List Route → Collected → Collected
collect_routes [] c = c
collect_routes (route ∷ routes) c = collect_routes routes (collect_route route c)

unfoldable pub collect_services : List (List Route) → Collected → Collected
collect_services [] c = c
collect_services (routes ∷ services) c = collect_services services (collect_routes routes c)

-- DELETE FROM role_endpoints WHERE endpoint_identity = ?
unfoldable pub unlink : String → List (ℕ × String) → List (ℕ × String)
unlink ident [] = []
unlink ident (link ∷ links) =
    let rest = unlink ident links in if str_eq link.1 ident then rest else link ∷ rest

unfoldable pub remove_endpoint : Failures → String → AclTables → AclTables
remove_endpoint f ident t = record {
  role_endpoints =
      if f.unlink_fails ident then t.role_endpoints else unlink ident (t.role_endpoints);
  endpoints = if f.remove_fails ident then t.endpoints else delete ident (t.endpoints);
}

-- The first argument are the identities of the current routes.
unfoldable pub remove_stale : List String → Failures → List String → AclTables → AclTables
remove_stale current f [] t = t
remove_stale current f (ident ∷ idents) t =
    remove_stale current f idents (if contains current ident then t else remove_endpoint f ident t)

unfoldable pub plucked : Failures → AclTables → List String
plucked f t = if f.pluck_fails then [] else map (λ row. row.0) (t.endpoints)

-- Where(identity).Assign(...).FirstOrCreate(&ep): the row of the identity gets every other column
-- of `ep`, or `ep` is a new row.
unfoldable pub upsert : Failures → Endpoint → AclTables → AclTables
upsert f ep t = record {
  role_endpoints = t.role_endpoints;
  endpoints =
      if f.upsert_fails (ep.identity) then t.endpoints else insert (ep.identity) ep (t.endpoints);
}

unfoldable pub upserts : Failures → List Endpoint → AclTables → AclTables
upserts f [] t = t
upserts f (ep ∷ eps) t = upserts f eps (upsert f ep t)

unfoldable pub sync : Failures → List Endpoint → AclTables → AclTables
sync f [] t = t
sync f (ep ∷ eps) t =
    upserts f (ep ∷ eps) (remove_stale (map (λ e. e.identity) (ep ∷ eps)) f (plucked f t) t)

abbrev pub nothing_collected : Collected
nothing_collected = record { seen = []; collected = [] }

unfoldable pub store_router : Failures → List (List Route) → AclTables → AclTables
store_router f services t = sync f (collect_services services nothing_collected).collected t
