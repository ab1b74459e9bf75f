-- ===== src/Incident/Resolve.antt =====
-- internal/incident/service.go: how incidents end, by the alerts' own signal, by silence
-- (internal/incident/staleness.go), and by an operator.
pub mod Ends
use Prim.Native.String
use alertmesh_new.Prelude.{
  ℕ, zero, suc, String, Bool, true, false, not, Option, none, some, List, [], ◌∷◌, ◌++◌, map, ◌&&◌,
  ltb, leb, ◌==◌, str_eq, if◌then◌else◌, ℤ, pos, ltb_ℤ, leb_ℤ, ◌-ℤ◌,
}
use alertmesh_new.Engine.Alert.{RawAlert}
use alertmesh_new.Incident.Store.{
  Status, opened, acked, resolved, closed, Incident, Incidents, AlertRow, Db, Faults, Found,
  append_to, reopen_of, not_found, lookup_failed, find_active_by_group_key, find_by_id,
  update_where, affects, always, is_active, or_time,
}
use alertmesh_new.Incident.Service.{Service, Effect, timeline, dispatch, publish, recorded}

abbrev pub still_active : Incident → Bool
still_active row = is_active row.status

-- The firing alerts of the incident become resolved.
abbrev pub resolve_alerts : ℕ → List AlertRow → List AlertRow
resolve_alerts id rows =
    map
      (λ a.
        if (a.incident_id == id) && str_eq a.status "firing"
        then record a { status = "resolved" }
        else a)
      rows

abbrev pub resolve_row : ℕ → Incident → Incident
resolve_row now r = record r {
  status = resolved;
  resolved_at = some now;
  auto_resolved_at = some now;
  updated_at = now;
}

-- `inc` is the row as it was loaded.
unfoldable pub auto_resolve : Service → Faults → ℕ → Incident → Db → Db × List Effect
unfolding update_where affects
auto_resolve s f now inc db =
    let rows = update_where inc.id still_active (resolve_row now) db.incidents in
    if f.resolve
    then (db, [])
    else if not (affects inc.id still_active db.incidents)
    then (db, [])
    else (
      record {
        incidents = rows;
        alerts = if f.sync_alerts then db.alerts else resolve_alerts inc.id db.alerts;
      },
      recorded f (timeline inc.id "auto_resolved" (some inc.status) (some resolved))
          ++ publish "incident.resolved" inc.id
            ∷ (if s.dispatcher
                then dispatch inc.id (String.◌++◌ "[RESOLVED] " inc.title) inc.severity ∷ []
                else []),
    )

-- `HandleResolvedAlert` after its lookup.
unfoldable pub resolve_found : Service → Faults → ℕ → Db → Found → Db × List Effect
unfolding auto_resolve
resolve_found s f now db (append_to row) = auto_resolve s f now row db
resolve_found s f now db (reopen_of row) = auto_resolve s f now row db
resolve_found s f now db not_found = (db, [])
resolve_found s f now db lookup_failed = (db, [])

unfoldable pub handle_resolved_alert : Service → Faults → ℕ → String → Db → Db × List Effect
unfolding find_active_by_group_key resolve_found
handle_resolved_alert s f now group_key db =
    resolve_found s f now db (find_active_by_group_key f db.incidents now group_key (pos 0))

unfoldable pub auto_resolve_stale : Service → Faults → ℕ → ℕ → Db → Db × List Effect
unfolding find_by_id auto_resolve
auto_resolve_stale s f now id db = if f.load then (db, []) else elim (find_by_id db.incidents id) [
  | none ↦ (db, [])
  | some inc ↦ if is_active inc.status then auto_resolve s f now inc db else (db, [])
]

-- last_alert_at IS NOT NULL AND last_alert_at < cutoff
abbrev pub before : ℤ → Option ℕ → Bool
before cutoff none = false
before cutoff (some at) = ltb_ℤ (pos at) cutoff

-- ORDER BY last_alert_at ASC
insert_oldest : Incident → Incidents → Incidents
insert_oldest x [] = x ∷ []
insert_oldest x (y ∷ ys) =
    if leb (or_time x.last_alert_at 0) (or_time y.last_alert_at 0)
    then x ∷ y ∷ ys
    else y ∷ insert_oldest x ys

unfoldable pub stale_rows : ℤ → Incidents → Incidents
unfolding insert_oldest
stale_rows cutoff [] = []
stale_rows cutoff (row ∷ rows) =
    let rest = stale_rows cutoff rows in
    if is_active row.status && before cutoff row.last_alert_at then insert_oldest row rest else rest

unfoldable pub take_rows : ℕ → Incidents → Incidents
take_rows zero rows = []
take_rows (suc n) [] = []
take_rows (suc n) (row ∷ rows) = row ∷ take_rows n rows

unfoldable pub resolve_each : Service → Faults → ℕ → Incidents → Db → Db × List Effect
unfolding auto_resolve_stale
resolve_each s f now [] db = (db, [])
resolve_each s f now (row ∷ rows) db =
    let (db1, out) = auto_resolve_stale s f now row.id db in
    let (db2, rest) = resolve_each s f now rows db1 in (db2, out ++ rest)

-- `stalenessScanOnce` under the timeout that the settings give.
unfoldable pub staleness_scan_once : Service → Faults → ℕ → ℤ → Db → Db × List Effect
unfolding stale_rows take_rows resolve_each ◌-ℤ◌
staleness_scan_once s f now timeout db =
    if leb_ℤ timeout (pos 0)
    then (db, [])
    else if f.open_query
    then (db, [])
    else resolve_each s f now (take_rows 200 (stale_rows (pos now -ℤ timeout) db.incidents)) db

-- The shape of `Ack`, `Resolve` and `Close`: load, change, save, and report. True is success.
unfoldable pub operate :
    (Incident → Incident)
    → String
    → String
    → (Incident → Status)
    → Status
    → Faults
    → ℕ
    → Db
    → Db × List Effect × Bool
unfolding find_by_id update_where
operate change action event from to f id db =
    if f.load then (db, [], false) else elim (find_by_id db.incidents id) [
      | none ↦ (db, [], false)
      | some inc ↦
          let saved = record db { incidents = update_where id always change db.incidents } in
          if f.save
          then (db, [], false)
          else if f.timeline
          then (saved, [], false)
          else (saved, timeline id action (some (from inc)) (some to) ∷ publish event id ∷ [], true)
    ]

abbrev pub ack_row : ℕ → Incident → Incident
ack_row now r = record r { status = acked; acked_at = some now; updated_at = now }

unfoldable pub ack_incident : Faults → ℕ → ℕ → Db → Db × List Effect × Bool
unfolding operate
ack_incident f now id db = operate (ack_row now) "acked" "incident.ack" (λ r. opened) acked f id db

unfoldable pub resolve_incident : Faults → ℕ → ℕ → Db → Db × List Effect × Bool
unfolding operate
resolve_incident f now id db =
    operate (λ r. record r { status = resolved; resolved_at = some now; updated_at = now })
      "resolved" "incident.resolved" (λ r. r.status) resolved f id db

unfoldable pub close_incident : Faults → ℕ → ℕ → Db → Db × List Effect × Bool
unfolding operate
close_incident f now id db =
    operate (λ r. record r { status = closed; updated_at = now }) "closed" "incident.closed"
      (λ r. r.status) closed f id db
