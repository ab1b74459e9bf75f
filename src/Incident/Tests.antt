-- ===== src/Incident/Tests.antt =====
-- Runs of the incident service at concrete inputs, and its theorems at inputs that meet their
-- hypotheses.
use alertmesh_new.Prelude.{
  ℕ, ◌+◌, ◌≤◌, ◌<◌, ◌*◌, true, false, Option, none, some, [], ◌∷◌, ◌≡◌, refl, arith, pos, length,
}
use alertmesh_new.Engine.Dedup.{second}
use alertmesh_new.Engine.Aggregate.{AlertGroup}
use alertmesh_new.Incident.Schedule.{
  ScheduleTier, RepeatSchedule, get_elem?, last, cap, overflow, linear_wait, compute_interval,
}
use alertmesh_new.Incident.Schedule.Cadence.{IsProgressive, compute_interval-IsCadence}
use alertmesh_new.Incident.Store.{Status, opened, resolved, Incident, Db, Faults, find_by_id}
use alertmesh_new.Incident.Service.{Service}
use alertmesh_new.Incident.Handle.{handle_alert_group}
use alertmesh_new.Incident.Handle.Exact.{
  ExactlyOne, handle_alert_group-ExactlyOne, handle_alert_group_failed,
}
use alertmesh_new.Incident.Resolve.{ack_incident, handle_resolved_alert}
use alertmesh_new.Incident.Resolve.Ends.{Ended, ack_incident-revives, handle_resolved_alert-Ended}
use alertmesh_new.Incident.Active.{active_count}
use alertmesh_new.Incident.Lifecycle.{empty, alert_group, resolved_alert, here, next}
use alertmesh_new.Incident.Lifecycle.Single.{IsSingle, Reach-IsSingle}

abbrev minutes : ℕ → ℕ
minutes n = n * (60 * second)

abbrev p2 : ScheduleTier
p2 = record { severity = "P2"; dwell = minutes 60; tag = "[P2]" }

abbrev p1 : ScheduleTier
p1 = record { severity = "P1"; dwell = 0; tag = "[ATTENTION]" }

abbrev schedule : RepeatSchedule
schedule = record {
  interval_sequence = minutes 1 ∷ minutes 3 ∷ minutes 5 ∷ [];
  interval_step = minutes 5;
  interval_max = minutes 30;
  severity_chain = p2 ∷ p1 ∷ [];
}

schedule-IsProgressive : IsProgressive schedule
schedule-IsProgressive = record {
  positive = (omega arith, (omega arith, (omega arith, tt)));
  ascending = ((omega arith, (omega arith, tt)), ((omega arith, tt), (tt, tt)));
  capped = λ h. (omega arith, (omega arith, (omega arith, tt)));
}

fourth_wait : compute_interval schedule 3 ≡ minutes 10
unfolding compute_interval get_elem? last cap overflow linear_wait
fourth_wait = refl

compute_interval-IsCadence_example :
    (0 < compute_interval schedule 20000000000)
    × (compute_interval schedule 20000000000 ≤ schedule.interval_max)
    × (compute_interval schedule 2 ≤ compute_interval schedule 7)
    × (compute_interval schedule (length schedule.interval_sequence + 5) ≡ schedule.interval_max)
unfolding last
compute_interval-IsCadence_example =
    compute_interval-IsCadence schedule 2 7 20000000000 5 schedule-IsProgressive (omega arith)
      (omega arith) (omega arith) (omega arith) (omega arith)

abbrev healthy : Faults
healthy = record {
  open_query = false;
  resolved_query = false;
  closed_query = false;
  create = false;
  bump_last_alert = false;
  mark_notified = false;
  bump_seq_index = false;
  escalate = false;
  reopen = false;
  resolve = false;
  save = false;
  load = false;
  add_alerts = false;
  sync_alerts = false;
  timeline = false;
  source_query = false;
  ai_status = false;
}

abbrev service : Service
service = record {
  dispatcher = true;
  schedule = some schedule;
  reopen_window = pos 300;
  data_sources = [];
  build_title = λ g. g.group_key;
}

abbrev row : ℕ → Status → Option ℕ → Incident
row id status resolved_at = record {
  id = id;
  title = "disk";
  severity = "P2";
  status = status;
  group_key = "k";
  route_id = none;
  data_source_id = none;
  opened_at = id;
  acked_at = none;
  resolved_at = resolved_at;
  last_alert_at = none;
  parent_incident_id = none;
  auto_resolved_at = none;
  notification_count = 1;
  last_notified_at = some id;
  repeat_seq_index = 0;
  severity_started_at = some id;
  ai_status = "pending";
  updated_at = id;
}

-- One incident of the key is resolved, a later one open.
abbrev db : Db
db = record { incidents = row 2 opened none ∷ row 1 resolved (some 50) ∷ []; alerts = [] }

abbrev group : AlertGroup
group = record {
  group_key = "k";
  labels = [];
  alerts = [];
  severity = "P2";
  route_id = "";
  route_name = "";
  data_source_id = "";
}

handle_alert_group-ExactlyOne_example :
    ExactlyOne group
      (row 1 resolved (some 50) ∷ [])
      (handle_alert_group service healthy 100 3 group
        (record db { incidents = row 1 resolved (some 50) ∷ [] })).0.incidents
handle_alert_group-ExactlyOne_example =
    handle_alert_group-ExactlyOne service healthy 100 3 group
      (record db { incidents = row 1 resolved (some 50) ∷ [] }) refl refl refl refl (tt, tt)
      (omega arith, tt) (omega arith)

handle_alert_group_failed_example :
    active_count "k"
      (handle_alert_group service (record healthy { open_query = true }) 100 3 group db).0.incidents
    ≡ active_count "k" db.incidents + 1
handle_alert_group_failed_example =
    handle_alert_group_failed service (record healthy { open_query = true }) 100 3 group db refl
      refl

handle_resolved_alert-Ended_example :
    Ended "k" db.incidents (handle_resolved_alert service healthy 100 "k" db).0.incidents
handle_resolved_alert-Ended_example =
    handle_resolved_alert-Ended service healthy 100 "k" db refl refl ((omega arith, tt), (tt, tt))
      (omega arith)

ack_incident-revives_example :
    active_count "k" (ack_incident healthy 100 1 db).0.incidents ≡ 1 + active_count "k" db.incidents
unfolding find_by_id
ack_incident-revives_example =
    ack_incident-revives healthy 100 1 db (row 1 resolved (some 50)) refl refl refl refl
      ((omega arith, tt), (tt, tt))

Reach-IsSingle_example :
    IsSingle
      (handle_resolved_alert service healthy 120 "k"
        (handle_alert_group service healthy 100 3 group empty).0).0.incidents
Reach-IsSingle_example = Reach-IsSingle service (
    next (next here (alert_group healthy 100 3 group refl refl tt))
      (resolved_alert healthy 120 "k"))
