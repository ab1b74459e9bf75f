-- ===== src/Engine/Pipeline.antt =====
-- internal/engine/pipeline.go: `Pipeline`, `Process`, the callback of a group's timer, and `Reload`.
--
-- One call of `Process` reads the clock in three stages; the model reads it once. Callbacks and
-- metrics are the events of a step. `Reload` holds the write lock and `Process` the read lock, so a
-- reload never falls inside a call. A timer holds neither: its callback reads the inhibitor's rules
-- as they are when it runs.
pub mod Filing
pub mod Outcome
use alertmesh_new.Prelude.{
  ℕ, String, Bool, true, false, Option, none, some, List, [], ◌∷◌, str_eq, if◌then◌else◌,
}
use alertmesh_new.Engine.Alert.{RawAlert}
use alertmesh_new.Engine.Matcher.{Regexp}
use alertmesh_new.Engine.Router.{RouteDef, RouteRow, match, load_routes}
use alertmesh_new.Engine.Silence.{SilenceRule, SilenceRow, is_silenced, load_silences}
use alertmesh_new.Engine.Dedup.{Deduplicator, new_deduplicator, is_duplicate}
use alertmesh_new.Engine.Inhibit.{
  Inhibitor, InhibitRow, new_inhibitor, track, is_inhibited, load_inhibits,
}
use alertmesh_new.Engine.GroupKey.{Digest}
use alertmesh_new.Engine.Aggregate.{
  AlertGroup, PendingGroup, Aggregator, AggregationRow, new_aggregator, key_of, add, take_group,
  load_aggregations,
}

-- The callbacks are only tested for nil here: whether each is there.
pub record Pipeline : Type 0 where
  pub dedup : Deduplicator
  pub routes : List RouteDef
  pub aggregator : Aggregator
  pub inhibitor : Inhibitor
  pub silences : List SilenceRule
  pub on_incident : Bool
  pub on_resolved : Bool

pub data DropReason : Type 0 where
  by_dedup by_silence by_inhibit : DropReason

-- What a step shows: the counters of pkg/metrics, and the calls of the two callbacks.
pub data Event : Type 0 where
  received : String → Event
  dropped : DropReason → Event
  resolved : RawAlert → String → Event
  incident : AlertGroup → Event

-- The group with the names of the route that its first alert matched.
unfoldable pub with_route : PendingGroup → AlertGroup
with_route pg = elim pg.route [
  | none ↦ pg.group
  | some route ↦ record (pg.group) { route_id = route.id; route_name = route.name }
]

-- The callback given to `Add`.
unfoldable pub flush : Regexp → Pipeline → ℕ → PendingGroup → List Event
unfolding with_route
flush rx p now pg =
    if is_inhibited rx p.inhibitor now pg.group.labels
    then dropped by_inhibit ∷ []
    else if p.on_incident
    then incident (with_route pg) ∷ []
    else []

module _ (rx : Regexp) (dg : Digest) where
  -- The resolved-status branch of `Process`.
  resolve_alert : Pipeline → RawAlert → List Event
  resolve_alert p alert =
      let key = key_of rx dg p.aggregator alert (match rx p.routes alert) in
      if p.on_resolved then resolved alert key ∷ [] else []

  -- `Process` from the routing on.
  file_alert : Pipeline → ℕ → RawAlert → Pipeline
  file_alert p now alert = record p {
    aggregator = add rx dg p.aggregator now alert (match rx p.routes alert);
  }

  unfoldable pub process : Pipeline → ℕ → RawAlert → Pipeline × List Event
  unfolding resolve_alert file_alert
  process p now alert =
      if str_eq alert.status "resolved"
      then (p, received alert.source ∷ resolve_alert p alert)
      else (let (seen, dup) = is_duplicate p.dedup now alert.fingerprint in
          let asked = record p { inhibitor = track rx p.inhibitor now alert; dedup = seen } in
          if dup
          then (asked, received alert.source ∷ dropped by_dedup ∷ [])
          else if is_silenced rx p.silences now alert
          then (asked, received alert.source ∷ dropped by_silence ∷ [])
          else (file_alert asked now alert, received alert.source ∷ []))

  -- The timer of a key goes off.
  unfoldable pub fire : Pipeline → ℕ → String → Pipeline × List Event
  unfolding flush
  fire p now key =
      let (left, out) = take_group dg p.aggregator key in
      (record p { aggregator = left }, elim out [ none ↦ [] | some pg ↦ flush rx p now pg ])

-- The four tables; each is `none` where its query fails.
pub record Tables : Type 0 where
  pub routes : Option (List RouteRow)
  pub silences : Option (List SilenceRow)
  pub inhibits : Option (List InhibitRow)
  pub aggregations : Option (List AggregationRow)

-- `loadRulesFromDB`, which is also all that `Reload` does under the lock.
unfoldable pub load_rules : Regexp → ℕ → Tables → Pipeline → Pipeline
load_rules rx now db p = record p {
  routes = load_routes rx db.routes p.routes;
  silences = load_silences now db.silences p.silences;
  inhibitor = load_inhibits db.inhibits p.inhibitor;
  aggregator = load_aggregations db.aggregations p.aggregator;
}

-- `NewPipeline`
unfoldable pub new_pipeline : Regexp → ℕ → Tables → Bool → Bool → Pipeline
unfolding load_rules new_deduplicator new_inhibitor new_aggregator
new_pipeline rx now db on_incident on_resolved = load_rules rx now db (record {
  dedup = new_deduplicator;
  routes = [];
  aggregator = new_aggregator;
  inhibitor = new_inhibitor;
  silences = [];
  on_incident = on_incident;
  on_resolved = on_resolved;
})
