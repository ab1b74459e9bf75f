-- ===== src/Engine/Aggregate.antt =====
-- internal/engine/aggregation.go, and `loadAggregations` of internal/engine/pipeline.go.
--
-- A pending group holds the route that its timer's callback
-- captured and the time at which the timer fires.
pub mod Shards
pub mod Growth
use alertmesh_new.Prelude.{
  ℕ, ◌+◌, ◌*◌, ◌%◌, String, Bool, true, false, Option, none, some, List, [], ◌∷◌, ◌++◌, map, Assoc,
  get, lookup, insert, delete, str_eq, ltb, if◌then◌else◌, ℤ, pos, pos_part, leb_ℤ, ◌==◌, negsuc,
  ◌-◌,
}
use alertmesh_new.Engine.Alert.{RawAlert}
use alertmesh_new.Engine.Matcher.{Regexp, MatcherJson, LabelMatcher, unmarshal, matches_all}
use alertmesh_new.Engine.Dedup.{second}
use alertmesh_new.Engine.Router.{RouteDef, or_nil}
use alertmesh_new.Engine.Severity.{map_severity, max_severity}
use alertmesh_new.Engine.GroupKey.{Digest, compute_group_key}

-- A `time.Duration` may be negative.
pub record AggPolicyDef : Type 0 where
  pub name : String
  pub matchers : List LabelMatcher
  pub group_by : List String
  pub group_wait : ℤ

pub record AlertGroup : Type 0 where
  pub group_key : String
  pub labels : Assoc String
  pub alerts : List RawAlert
  pub severity : String
  pub route_id : String
  pub route_name : String
  pub data_source_id : String

pub record PendingGroup : Type 0 where
  pub group : AlertGroup
  pub route : Option RouteDef
  pub due : ℕ

abbrev pub aggregator_shards : ℕ
aggregator_shards = 16

-- `shards` is read at the indices below `aggregator_shards` only.
pub record Aggregator : Type 0 where
  pub shards : ℕ → Assoc PendingGroup
  pub group_wait : ℕ
  pub policies : List AggPolicyDef

-- `NewAggregator`, with `defaultGroupWait` of thirty seconds.
unfoldable pub new_aggregator : Aggregator
new_aggregator = record { shards = λ i. []; group_wait = 30 * second; policies = [] }

unfoldable pub set_policies : Aggregator → List AggPolicyDef → Aggregator
set_policies a policies = record a { policies = policies }

-- Route group_by, else the built-in default.
route_group_by : Option RouteDef → List String
route_group_by none = "alertname" ∷ []
route_group_by (some route) = elim route.group_by [ [] ↦ "alertname" ∷ [] | k ∷ ks ↦ k ∷ ks ]

module _ (rx : Regexp) where
  resolve_in : List AggPolicyDef → ℕ → RawAlert → Option RouteDef → List String × ℕ
  unfolding route_group_by
  resolve_in [] default alert route = (route_group_by route, default)
  resolve_in (p ∷ ps) default alert route =
      let rest = resolve_in ps default alert route in
      if matches_all rx p.matchers alert.labels
      then (
        elim p.group_by [ [] ↦ route_group_by route | k ∷ ks ↦ k ∷ ks ],
        if leb_ℤ p.group_wait (pos 0) then default else pos_part p.group_wait,
      )
      else rest

  -- `resolve`: the labels to group by, and the wait.
  unfoldable pub resolve : Aggregator → RawAlert → Option RouteDef → List String × ℕ
  unfolding resolve_in
  resolve a alert route = resolve_in a.policies a.group_wait alert route

-- `shardFor`, as an index into `shards`.
unfoldable pub shard_for : Digest → String → ℕ
shard_for dg key = dg.fnv32a key % aggregator_shards

unfoldable pub set_shard : Aggregator → ℕ → Assoc PendingGroup → Aggregator
set_shard a i m = record a { shards = λ j. if i == j then m else a.shards j }

-- The group that the first alert of a key opens.
unfoldable pub open_group : String → RawAlert → AlertGroup
open_group key alert = record {
  group_key = key;
  labels = alert.labels;
  alerts = alert ∷ [];
  severity = map_severity (get alert.labels "severity");
  route_id = "";
  route_name = "";
  data_source_id = alert.data_source_id;
}

-- A later alert of the key.
unfoldable pub append_alert : AlertGroup → RawAlert → AlertGroup
append_alert g alert = record g {
  alerts = g.alerts ++ alert ∷ [];
  severity = max_severity g.severity (get alert.labels "severity");
}

-- What the key's entry becomes.
unfoldable pub next_pending :
    Option PendingGroup → ℕ → ℕ → String → RawAlert → Option RouteDef → PendingGroup
unfolding open_group append_alert
next_pending none now wait key alert route = record {
  group = open_group key alert;
  route = route;
  due = now + wait;
}
next_pending (some pg) now wait key alert route = record pg { group = append_alert pg.group alert }

module _ (rx : Regexp) (dg : Digest) where
  -- The key under which the engine files an alert.
  unfoldable pub key_of : Aggregator → RawAlert → Option RouteDef → String
  unfolding compute_group_key
  key_of a alert route = compute_group_key dg alert.labels (resolve rx a alert route).0

  -- `Add`, with the shard's mutex held throughout.
  unfoldable pub add : Aggregator → ℕ → RawAlert → Option RouteDef → Aggregator
  unfolding key_of shard_for set_shard next_pending
  add a now alert route =
      let key = key_of a alert route in
      let i = shard_for dg key in
      let shard = a.shards i in
      let wait = (resolve rx a alert route).1 in
      set_shard a i (insert key (next_pending (lookup key shard) now wait key alert route) shard)

-- The function of the timer, up to the callback: the group that it takes out, if it is there.
unfoldable pub take_group : Digest → Aggregator → String → Aggregator × Option PendingGroup
unfolding shard_for set_shard
take_group dg a key =
    let i = shard_for dg key in
    elim (lookup key (a.shards i)) [
      | none ↦ (a, none)
      | some pg ↦ (set_shard a i (delete key (a.shards i)), some pg)
    ]

-- A row of `aggregation_policies`; `group_wait` is in seconds.
pub record AggregationRow : Type 0 where
  pub name : String
  pub is_enabled : Bool
  pub matchers : Option (List MatcherJson)
  pub group_by : Option (List String)
  pub group_wait : ℤ

-- time.Duration(s) * time.Second, which stays within int64 for the waits in use.
unfoldable pub seconds : ℤ → ℤ
seconds (pos n) = pos (n * second)
seconds (negsuc n) = negsuc ((n + 1) * second - 1)

unfoldable pub policy_defs : List AggregationRow → List AggPolicyDef
unfolding or_nil seconds
policy_defs [] = []
policy_defs (r ∷ rs) =
    let rest = policy_defs rs in
    if r.is_enabled
    then (elim r.matchers [
      | none ↦ rest
      | some ms ↦
          record {
            name = r.name;
            matchers = map unmarshal ms;
            group_by = or_nil r.group_by;
            group_wait = seconds r.group_wait;
          }
          ∷ rest
    ])
    else rest

-- `loadAggregations`; a failed query (`none`) keeps the old policies.
unfoldable pub load_aggregations : Option (List AggregationRow) → Aggregator → Aggregator
unfolding set_policies policy_defs
load_aggregations none a = a
load_aggregations (some table) a = set_policies a (policy_defs table)
