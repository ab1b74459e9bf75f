-- ===== src/Engine/Tests/Flow.antt =====
-- Runs of deduplication, aggregation and the pipeline of internal/engine.
use alertmesh_new.Prelude.{
  String, true, false, none, some, List, [], ◌∷◌, ◌++◌, ◌≡◌, ◌≢◌, refl, arith, eq_iff, lookup, get,
  insert,
}
use alertmesh_new.Engine.Alert.{RawAlert}
use alertmesh_new.Engine.Matcher.{unmarshal, compile, matches, matches_all}
use alertmesh_new.Engine.Silence.{is_silenced, load_silences}
use alertmesh_new.Engine.Router.{match, load_routes}
use alertmesh_new.Engine.Dedup.{is_duplicate, sweep}
use alertmesh_new.Engine.Dedup.Window.{
  Op, ask, tick, verdicts, spec_verdicts, verdicts-eq-spec_verdicts,
}
use alertmesh_new.Engine.Inhibit.{track, is_inhibited, load_inhibits}
use alertmesh_new.Engine.GroupKey.{key_text}
use alertmesh_new.Engine.Severity.{max_severity, map_severity}
use alertmesh_new.Engine.Aggregate.{
  PendingGroup, open_group, append_alert, key_of, add, resolve, load_aggregations,
}
use alertmesh_new.Engine.Aggregate.Growth.{grow, IsGroupOf, grow-IsGroupOf}
use alertmesh_new.Engine.Aggregate.Shards.{pending}
use alertmesh_new.Engine.Pipeline.{
  Pipeline, Tables, received, resolved, process, fire, new_pipeline,
}
use alertmesh_new.Engine.Pipeline.Filing.{
  passes, arrive, run, spec_run, step, spec_step, Delivers, fire-Delivers, Input,
}
use alertmesh_new.Engine.Pipeline.Outcome.{process-is_inhibited, process-resolved_key}
use alertmesh_new.Engine.Tests.{
  two_routes, literal_rx, plain_digest, disk_labels, alert_with, disk_full, critical_inhibits,
  warning_json, warning_labels, Pairs-disk_labels,
}

abbrev requests : List Op
requests = ask 0 "a" ∷ ask 3 "a" ∷ tick 4 ∷ ask 4 "b" ∷ ask 5 "a" ∷ tick 11 ∷ ask 11 "a" ∷ []

verdicts_run :
    verdicts (record { seen = []; ttl = 5 }) requests ≡ false ∷ true ∷ false ∷ false ∷ false ∷ []
unfolding verdicts is_duplicate lookup insert sweep
verdicts_run = refl

verdicts-eq-spec_verdicts_example :
    verdicts (record { seen = []; ttl = 5 }) requests ≡ spec_verdicts 5 (λ k. none) requests
verdicts-eq-spec_verdicts_example = verdicts-eq-spec_verdicts 5 requests (omega arith)

abbrev disk_warning : RawAlert
disk_warning = alert_with "firing" warning_labels

grow-IsGroupOf_example :
    IsGroupOf "k" disk_warning
      (disk_full ∷ [])
      (grow (open_group "k" disk_warning) (disk_full ∷ []))
grow-IsGroupOf_example = grow-IsGroupOf "k" disk_warning (disk_full ∷ [])

grows_to_p1 : (grow (open_group "k" disk_warning) (disk_full ∷ [])).severity ≡ "P1"
unfolding grow open_group append_alert max_severity map_severity get lookup
grows_to_p1 = refl

abbrev rules : Tables
rules = record {
  routes = some two_routes;
  silences = some [];
  inhibits = some [];
  aggregations = some [];
}

abbrev started : Pipeline
started = new_pipeline literal_rx 0 rules true true

abbrev arrivals : List Input
arrivals = arrive 1 disk_full ∷ arrive 2 disk_full ∷ []

fire-Delivers_example :
    Delivers literal_rx plain_digest
      (run literal_rx plain_digest started arrivals)
      40
      "alertname=DiskFull"
      (spec_run literal_rx plain_digest started (λ k. []) arrivals "alertname=DiskFull")
      (fire literal_rx plain_digest
        (run literal_rx plain_digest started arrivals)
        40
        "alertname=DiskFull").1
fire-Delivers_example =
    (fire-Delivers literal_rx plain_digest 0 40 rules true true arrivals "alertname=DiskFull").0

-- The second alert of the run is a duplicate of the first.
bucket_run :
    spec_run literal_rx plain_digest started (λ k. []) arrivals "alertname=DiskFull"
    ≡ disk_full ∷ []
unfolding spec_run spec_step step process new_pipeline is_duplicate is_silenced load_silences match
    load_routes matches_all matches compile unmarshal lookup insert get track key_of resolve
    key_text load_inhibits load_aggregations add
bucket_run = refl

not_resolved : disk_full.status ≢ "resolved"
not_resolved = ground (arith, eq_iff "firing" "resolved")

process-is_inhibited_example :
    is_inhibited literal_rx
      (process literal_rx plain_digest
        (record started { inhibitor = critical_inhibits (warning_json ∷ []) })
        100
        disk_full).0.inhibitor
      110
      warning_labels
    ≡ true
process-is_inhibited_example =
    process-is_inhibited literal_rx plain_digest
      (record started { inhibitor = critical_inhibits (warning_json ∷ []) }) 100 110 disk_full
      warning_labels not_resolved (omega arith) Pairs-disk_labels

abbrev disk_resolved : RawAlert
disk_resolved = alert_with "resolved" disk_labels

passes-disk_full : passes literal_rx started 1 disk_full ≡ true
unfolding new_pipeline is_duplicate is_silenced load_silences lookup
passes-disk_full = refl

process-resolved_key_example :
    (key : String) × (process literal_rx plain_digest started 9 disk_resolved
      ≡ (started, received "prometheus" ∷ resolved disk_resolved key ∷ []))
    × (pg : PendingGroup) × (pending plain_digest
          (process literal_rx plain_digest started 1 disk_full).0.aggregator
          key
        ≡ some pg)
    × (earlier : List RawAlert) × (pg.group.alerts ≡ earlier ++ disk_full ∷ [])
unfolding new_pipeline
process-resolved_key_example =
    process-resolved_key literal_rx plain_digest started 9 1 disk_resolved disk_full refl refl refl
      passes-disk_full
