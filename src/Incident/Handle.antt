-- ===== src/Incident/Handle.antt =====
-- internal/incident/service.go: `HandleAlertGroup` and its three branches.
pub mod Quiet
pub mod Exact
use Prim.Native.String
use alertmesh_new.Prelude.{
  ℕ, String, Bool, true, false, ◌||◌, Option, none, some, List, [], ◌∷◌, ◌++◌, if◌then◌else◌,
}
use alertmesh_new.Engine.Aggregate.{AlertGroup}
use alertmesh_new.Incident.Store.{
  Status, opened, Incident, Incidents, Db, Faults, Found, append_to, reopen_of, not_found,
  lookup_failed, find_active_by_group_key, find_latest_closed_by_group_key, update_where, always,
}
use alertmesh_new.Incident.Service.{
  Service, Effect, timeline, dispatch, publish, enqueue_ai, should_run, should_auto_enqueue,
  or_null, add_alerts, recorded, mark_notified, maybe_repeat_notify,
}

-- The row of a new incident; `id` is the uuid that the database generates.
unfoldable pub new_incident : Service → Faults → Incidents → ℕ → ℕ → AlertGroup → Incident
unfolding find_latest_closed_by_group_key
new_incident s f rows now id group = record {
  id = id;
  title = s.build_title group;
  severity = group.severity;
  status = opened;
  group_key = group.group_key;
  route_id = or_null group.route_id;
  data_source_id = or_null group.data_source_id;
  opened_at = now;
  acked_at = none;
  resolved_at = none;
  last_alert_at = some now;
  parent_incident_id = elim (find_latest_closed_by_group_key f rows group.group_key) [
    | none ↦ none
    | some prev ↦ some prev.id
  ];
  auto_resolved_at = none;
  notification_count = 0;
  last_notified_at = none;
  repeat_seq_index = 0;
  severity_started_at = some now;
  ai_status = "pending";
  updated_at = now;
}

-- The end of `createIncident`: the AI gate.
unfoldable pub gate_ai : Service → Faults → ℕ → ℕ → String → Incidents → Incidents × List Effect
unfolding should_run should_auto_enqueue update_where
gate_ai s f now id source rows =
    if should_auto_enqueue s f source
    then (rows, enqueue_ai id ∷ [])
    else if should_run s f source || f.ai_status
    then (rows, [])
    else (
      update_where id always (λ r. record r { ai_status = "disabled"; updated_at = now }) rows,
      [],
    )

unfoldable pub create_incident : Service → Faults → ℕ → ℕ → AlertGroup → Db → Db × List Effect
unfolding new_incident mark_notified gate_ai
create_incident s f now id group db =
    let inc = new_incident s f db.incidents now id group in
    let rows = inc ∷ db.incidents in
    let marked = if s.dispatcher then mark_notified f now id rows else rows in
    let (gated, tasks) = gate_ai s f now id group.data_source_id marked in
    if f.create then (db, []) else (
      record { incidents = gated; alerts = add_alerts f id group db.alerts },
      recorded f (timeline id "created" none (some opened))
          ++ (if s.dispatcher then dispatch id inc.title inc.severity ∷ [] else [])
          ++ tasks
          ++ publish "incident.created" id ∷ [],
    )

unfoldable pub append_to_incident :
    Service → Faults → ℕ → Incident → AlertGroup → Db → Db × List Effect
unfolding update_where maybe_repeat_notify
append_to_incident s f now inc group db =
    let bumped : Incidents =
      if f.bump_last_alert
      then db.incidents
      else update_where inc.id always (λ r. record r { last_alert_at = some now; updated_at = now })
          db.incidents in
    let (rows, sent) = maybe_repeat_notify s f now inc bumped in
    (
      record { incidents = rows; alerts = add_alerts f inc.id group db.alerts },
      publish "incident.appended" inc.id ∷ sent,
    )

unfoldable pub reopen_incident :
    Service → Faults → ℕ → Incident → AlertGroup → Db → Db × List Effect
unfolding update_where mark_notified
reopen_incident s f now inc group db =
    let rows =
      update_where inc.id always
        (λ r. record r {
          status = opened;
          resolved_at = none;
          auto_resolved_at = none;
          last_alert_at = some now;
          repeat_seq_index = 0;
          severity_started_at = some now;
          updated_at = now;
        })
        db.incidents in
    if f.reopen then (db, []) else (
      record {
        incidents = if s.dispatcher then mark_notified f now inc.id rows else rows;
        alerts = add_alerts f inc.id group db.alerts;
      },
      recorded f (timeline inc.id "reopened" (some inc.status) (some opened))
          ++ publish "incident.created" inc.id
            ∷ (if s.dispatcher
                then dispatch inc.id (String.◌++◌ "[REOPENED] " inc.title) inc.severity ∷ []
                else []),
    )

-- The branches of `HandleAlertGroup`. An error of the lookup other than ErrRecordNotFound leads to a
-- new incident as well.
unfoldable pub branch : Service → Faults → ℕ → ℕ → AlertGroup → Db → Found → Db × List Effect
unfolding create_incident append_to_incident reopen_incident
branch s f now id group db (append_to row) = append_to_incident s f now row group db
branch s f now id group db (reopen_of row) = reopen_incident s f now row group db
branch s f now id group db not_found = create_incident s f now id group db
branch s f now id group db lookup_failed = create_incident s f now id group db

unfoldable pub handle_alert_group : Service → Faults → ℕ → ℕ → AlertGroup → Db → Db × List Effect
unfolding find_active_by_group_key branch
handle_alert_group s f now id group db =
    branch s f now id group db
      (find_active_by_group_key f db.incidents now group.group_key s.reopen_window)
