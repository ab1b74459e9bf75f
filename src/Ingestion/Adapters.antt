-- ===== src/Ingestion/Adapters.antt =====
-- internal/ingestion: the adapters of pushed alerts, alertmanager_v2.go, alertmanager.go, prometheus.go
-- and cloud.go.
--
-- A payload is given as what encoding/json makes of it, or `none` where it fails; a nil map is an empty
-- one. The clock starts at Go's zero time. The text of a statement is cut by characters.
pub mod Labelled
pub mod Webhook
mod Tests
use Prim.Native.String.{[], ◌∷◌}
use mathlib.Core.List.{List, [] as nil, ◌∷◌ as cons}
use alertmesh_new.Prelude.{
  ℕ, zero, suc, ◌+◌, String, Bool, true, false, not, Option, none, some, ◌&&◌, ◌==◌, ltb, str_eq,
  if◌then◌else◌, Assoc, insert, lookup, get, Option-cases,
}
use alertmesh_new.Engine.Alert.{RawAlert}
use alertmesh_new.Ingestion.KafkaFilter.{Libs}
use alertmesh_new.Ingestion.KafkaFilter.Apply.{compute_fingerprint}

pub data AdaptError : Type 0 where
  invalid_payload : AdaptError
  missing_fields : AdaptError
  -- with the index of the item
  missing_name : ℕ → AdaptError
  no_alerts : AdaptError

pub data Adapted : Type 0 where
  rejected : AdaptError → Adapted
  adapted : List RawAlert → Adapted

unfoldable pub more : RawAlert → Adapted → Adapted
more alert (rejected e) = rejected e
more alert (adapted alerts) = adapted (cons alert alerts)

-- An item of any of the three formats; the fields that a format does not have are empty.
pub record AlertItem : Type 0 where
  pub status : String
  pub labels : Assoc String
  pub annotations : Assoc String
  pub starts_at : ℕ
  pub ends_at : ℕ
  pub generator_url : String
  pub fingerprint : String

abbrev pub fill_source : Assoc String → Assoc String
fill_source labels = elim (lookup "source" labels) [
  | none ↦ insert "source" "prometheus" labels
  | some s ↦ labels
]

abbrev pub fill_severity : Assoc String → Assoc String
fill_severity labels =
    if str_eq (get labels "severity") "" then insert "severity" "warning" labels else labels

abbrev pub with_url : String → Assoc String → Assoc String
with_url url annotations =
    if str_eq url "" then annotations else insert "generator_url" url annotations

abbrev pub or_fingerprint : Libs → String → Assoc String → String
or_fingerprint lib given labels = if str_eq given "" then compute_fingerprint lib labels else given

-- One round of the loop of `AlertmanagerV2Adapter.Adapt`, for an item with a name.
unfoldable pub alert_v2 : Libs → ℕ → String → AlertItem → RawAlert
unfolding insert lookup get compute_fingerprint
alert_v2 lib now payload it =
    let labels = fill_severity (fill_source it.labels) in
    record {
      source = "prometheus";
      fingerprint = compute_fingerprint lib labels;
      labels = labels;
      annotations = with_url it.generator_url it.annotations;
      starts_at = if it.starts_at == 0 then now else it.starts_at;
      ends_at = if it.ends_at == 0 then none else some it.ends_at;
      status =
          if it.ends_at == 0 then "firing" else if ltb now it.ends_at then "firing" else "resolved";
      raw_payload = payload;
      data_source_id = "";
    }

unfoldable pub adapt_v2_items : Libs → ℕ → String → ℕ → List AlertItem → Adapted
unfolding get alert_v2 more
adapt_v2_items lib now payload i nil = adapted nil
adapt_v2_items lib now payload i (cons it items) =
    let rest = adapt_v2_items lib now payload (suc i) items in
    if str_eq (get it.labels "alertname") ""
    then rejected (missing_name i)
    else more (alert_v2 lib now payload it) rest

-- `AlertmanagerV2Adapter.Adapt`
unfoldable pub adapt_v2 : Libs → ℕ → String → Option (List AlertItem) → Adapted
unfolding adapt_v2_items
adapt_v2 lib now payload none = rejected invalid_payload
adapt_v2 lib now payload (some items) = adapt_v2_items lib now payload 0 items

unfoldable pub alert_alertmanager : Libs → String → AlertItem → RawAlert
unfolding insert compute_fingerprint
alert_alertmanager lib payload it =
    let labels = insert "source" "alertmanager" it.labels in
    record {
      source = "alertmanager";
      fingerprint = or_fingerprint lib it.fingerprint labels;
      labels = labels;
      annotations = it.annotations;
      starts_at = it.starts_at;
      ends_at = if it.ends_at == 0 then none else some it.ends_at;
      status = it.status;
      raw_payload = payload;
      data_source_id = "";
    }

unfoldable pub map_items : (AlertItem → RawAlert) → List AlertItem → List RawAlert
map_items f nil = nil
map_items f (cons it items) = cons (f it) (map_items f items)

-- `AlertmanagerAdapter.Adapt`
unfoldable pub adapt_alertmanager : Libs → String → Option (List AlertItem) → Adapted
unfolding alert_alertmanager map_items
adapt_alertmanager lib payload none = rejected invalid_payload
adapt_alertmanager lib payload (some items) =
    adapted (map_items (alert_alertmanager lib payload) items)

unfoldable pub alert_prometheus : Libs → String → AlertItem → RawAlert
unfolding insert get compute_fingerprint
alert_prometheus lib payload it =
    let labels = fill_severity (insert "source" "prometheus" it.labels) in
    record {
      source = "prometheus";
      fingerprint = or_fingerprint lib it.fingerprint labels;
      labels = labels;
      annotations = with_url it.generator_url it.annotations;
      starts_at = it.starts_at;
      ends_at =
          if not (it.ends_at == 0) && ltb it.starts_at it.ends_at then some it.ends_at else none;
      status = it.status;
      raw_payload = payload;
      data_source_id = "";
    }

-- `PrometheusAdapter.Adapt`
unfoldable pub adapt_prometheus : Libs → String → Option (List AlertItem) → Adapted
unfolding alert_prometheus map_items
adapt_prometheus lib payload none = rejected invalid_payload
adapt_prometheus lib payload (some nil) = rejected no_alerts
adapt_prometheus lib payload (some (cons it items)) =
    adapted (map_items (alert_prometheus lib payload) (cons it items))

unfoldable pub take_chars : ℕ → String → String
take_chars zero s = []
take_chars (suc n) [] = []
take_chars (suc n) (c ∷ s) = c ∷ take_chars n s

-- The seconds of a query are floats, which are a type `F` with its order.
module _ (F : Type 0) (ge : F → F → Bool) where
  pub record CloudRdsAdapter : Type 0 where
    pub slow_query_warning_threshold : F
    pub slow_query_critical_threshold : F

  pub record CloudRdsPayload : Type 0 where
    pub db_instance_id : String
    pub region_id : String
    pub db_name : String
    pub engine : String
    pub sql_text : String
    pub execution_time : F
    -- time.Parse of query_start_time; 0 where it fails
    pub query_start : ℕ

  unfoldable pub query_severity : CloudRdsAdapter → F → String
  query_severity a t =
      if ge t a.slow_query_critical_threshold
      then "critical"
      else if ge t a.slow_query_warning_threshold
      then "warning"
      else "info"

  -- `CloudRDSAdapter.Adapt`
  unfoldable pub adapt_rds : Libs → CloudRdsAdapter → ℕ → String → Option CloudRdsPayload → Adapted
  unfolding query_severity take_chars compute_fingerprint
  adapt_rds lib a now payload none = rejected invalid_payload
  adapt_rds lib a now payload (some p) =
      let sql = take_chars 500 p.sql_text in
      adapted (
        cons
          (record {
            source = "cloud-rds";
            fingerprint = compute_fingerprint lib (
                cons ("db_instance", p.db_instance_id)
                  (cons ("database", p.db_name) (cons ("sql", sql) nil)));
            labels =
                cons ("alertname", "SlowQuery")
                  (cons ("severity", query_severity a p.execution_time)
                    (cons ("source", "cloud-rds")
                      (cons ("db_instance", p.db_instance_id)
                        (cons ("region", p.region_id)
                          (cons ("database", p.db_name) (cons ("db_engine", p.engine) nil))))));
            annotations = cons ("description", sql) nil;
            starts_at = if p.query_start == 0 then now else p.query_start;
            ends_at = none;
            status = "firing";
            raw_payload = payload;
            data_source_id = "";
          })
          nil)
