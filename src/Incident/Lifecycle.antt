-- ===== src/Incident/Lifecycle.antt =====
-- internal/incident: the operations of the service in any order.
--
-- Each operation is one step. `HandleAlertGroup` and `HandleResolvedAlert` hold the lock of their key
-- in this process; the scan and the calls of an operator take no lock, and are single steps here all
-- the same. `Ack` does not look at the status: the steps have it on active incidents only.
pub mod Fewer
pub mod Single
use alertmesh_new.Prelude.{
  ℕ, String, Bool, true, false, Option, some, List, [], ◌∷◌, ◌≡◌, ◌≢◌, All, ℤ,
}
use alertmesh_new.Engine.Aggregate.{AlertGroup}
use alertmesh_new.Incident.Store.{Incident, Db, Faults, is_active, find_by_id}
use alertmesh_new.Incident.Service.{Service}
use alertmesh_new.Incident.Handle.{handle_alert_group}
use alertmesh_new.Incident.Resolve.{
  handle_resolved_alert, staleness_scan_once, ack_incident, resolve_incident, close_incident,
}
use alertmesh_new.Incident.Active.{ids}

-- A new row has an id that no row has, and the lookups of `HandleAlertGroup` do not fail. Any other
-- statement may.
pub data ServiceStep (s : Service) (db : Db) : Db → Type 0 where
  alert_group :
      (f : Faults) (now id : ℕ) (group : AlertGroup)
      → f.open_query ≡ false
      → f.resolved_query ≡ false
      → All (λ y. id ≢ y) (ids db.incidents)
      → ServiceStep s db (handle_alert_group s f now id group db).0
  resolved_alert :
      (f : Faults) (now : ℕ) (group_key : String)
      → ServiceStep s db (handle_resolved_alert s f now group_key db).0
  stale_scan :
      (f : Faults) (now : ℕ) (timeout : ℤ)
      → ServiceStep s db (staleness_scan_once s f now timeout db).0
  resolve_step : (f : Faults) (now id : ℕ) → ServiceStep s db (resolve_incident f now id db).0
  close_step : (f : Faults) (now id : ℕ) → ServiceStep s db (close_incident f now id db).0
  ack_step :
      (f : Faults) (now id : ℕ)
      → All (λ r. r.id ≡ id → is_active r.status ≡ true) db.incidents
      → ServiceStep s db (ack_incident f now id db).0

abbrev pub empty : Db
empty = record { incidents = []; alerts = [] }

pub data Reach (s : Service) : Db → Type 0 where
  here : Reach s empty
  next : {a b : Db} → Reach s a → ServiceStep s a b → Reach s b
