-- ===== src/Engine/Tests.antt =====
-- The concrete inputs at which the rule engine is run.
mod Rules
mod Flow
mod Keys
use alertmesh_new.Prelude.{
  ℕ, String, true, false, not, none, some, List, [], ◌∷◌, ◌++◌, ◌≡◌, ◌≢◌, ◌↔◌, refl, inl, arith,
  eq_iff, str_eq, Any, pos, Assoc, lookup, subst, map, get, insert,
}
use mathlib.Core.Option.{some-injective}
use alertmesh_new.Engine.Alert.{RawAlert}
use alertmesh_new.Engine.Matcher.{Regexp, MatcherJson, unmarshal, compile, matches, matches_all}
use alertmesh_new.Engine.Matcher.Laws.{IsStuck, Means, matches_iff-Means, unmarshal_shapes}
use alertmesh_new.Engine.Silence.{SilenceRow, is_silenced, load_silences}
use alertmesh_new.Engine.Silence.Windows.{
  Silences, is_silenced-load_silences, load_silences_early, load_silences_regex,
}
use alertmesh_new.Engine.Router.{RouteRow, RouteDef, match, load_routes}
use alertmesh_new.Engine.Router.Priority.{Picked, match-load_routes}
use alertmesh_new.Engine.Dedup.{is_duplicate, sweep}
use alertmesh_new.Engine.Dedup.Window.{
  Op, ask, tick, verdicts, spec_verdicts, verdicts-eq-spec_verdicts,
}
use alertmesh_new.Engine.Inhibit.{Inhibitor, track, is_inhibited, expire_sources, load_inhibits}
use alertmesh_new.Engine.Inhibit.Active.{
  Fires, Pairs, is_inhibited_iff, track-is_inhibited, is_inhibited-expire_sources,
}
use alertmesh_new.Engine.GroupKey.{Digest, key_text}
use alertmesh_new.Engine.Severity.{max_severity, map_severity}
use alertmesh_new.Engine.Aggregate.{
  PendingGroup, open_group, append_alert, key_of, add, resolve, load_aggregations,
}
use alertmesh_new.Engine.Aggregate.Growth.{grow, IsGroupOf, grow-IsGroupOf}
use alertmesh_new.Engine.Aggregate.Shards.{pending}
use alertmesh_new.Engine.Pipeline.{
  Pipeline, Tables, received, resolved, process, fire, new_pipeline,
}
use alertmesh_new.Engine.Pipeline.Filing.{
  passes, arrive, run, spec_run, step, spec_step, Delivers, fire-Delivers, Input,
}
use alertmesh_new.Engine.Pipeline.Outcome.{process-is_inhibited, process-resolved_key}

-- A regexp package that knows literal patterns only, and rejects "(".
abbrev pub literal_rx : Regexp
literal_rx = record { compiles = λ p. not (str_eq p "("); match_string = λ p v. str_eq p v }

abbrev pub plain_digest : Digest
plain_digest = record { sha256_8 = λ t. t; fnv32a = λ t. 7 }

abbrev pub disk_labels : Assoc String
disk_labels = ("alertname", "DiskFull") ∷ ("severity", "critical") ∷ []

abbrev pub alert_with : String → Assoc String → RawAlert
alert_with status labels = record {
  source = "prometheus";
  fingerprint = "fp1";
  labels = labels;
  annotations = [];
  starts_at = 0;
  ends_at = none;
  status = status;
  raw_payload = "";
  data_source_id = "";
}

abbrev pub disk_full : RawAlert
disk_full = alert_with "firing" disk_labels

abbrev pub critical_json : MatcherJson
critical_json = record {
  name = "";
  is_regex = false;
  key = "severity";
  op = "=";
  value = "critical";
}

abbrev pub critical_regex : MatcherJson
critical_regex = record {
  name = "";
  is_regex = false;
  key = "severity";
  op = "=~";
  value = "critical";
}

abbrev pub critical_inhibits : List MatcherJson → Inhibitor
critical_inhibits targets = record {
  rules =
      record {
        name = "critical over warning";
        source_matchers = unmarshal critical_json ∷ [];
        target_matchers = map unmarshal targets;
        equal = "alertname" ∷ [];
      }
      ∷ [];
  sources = [];
  ttl = 10;
}

abbrev pub warning_json : MatcherJson
warning_json = record { name = ""; is_regex = false; key = "severity"; op = "="; value = "warning" }

abbrev pub warning_labels : Assoc String
warning_labels = ("alertname", "DiskFull") ∷ ("severity", "warning") ∷ []

pub Pairs-disk_labels :
    Any (Pairs literal_rx disk_labels warning_labels) (critical_inhibits (warning_json ∷ [])).rules
unfolding matches_all matches unmarshal lookup get
Pairs-disk_labels = inl (refl, refl, (refl, tt))

abbrev pub route_row : String → ℕ → MatcherJson → RouteRow
route_row id priority m = record {
  id = id;
  name = id;
  priority = pos priority;
  is_enabled = true;
  matchers = some (m ∷ []);
  group_by = none;
}

abbrev pub two_routes : List RouteRow
two_routes = route_row "r2" 10 critical_json ∷ route_row "r1" 20 critical_regex ∷ []
