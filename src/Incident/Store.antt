-- ===== src/Incident/Store.antt =====
-- internal/incident/repository.go and the statements of internal/incident/service.go on the table
-- `incidents`.
--
-- A table is the list of its rows. Each statement may fail: `Faults` says which. An operation is given
-- one time for its calls of time.Now() and the database's clock.
use alertmesh_new.Prelude.{
  ℕ, String, Bool, true, false, Option, none, some, List, [], ◌∷◌, ◌&&◌, ◌||◌, ltb, ◌==◌, str_eq,
  if◌then◌else◌, ℤ, pos, leb_ℤ, ◌-ℤ◌,
}

pub data Status : Type 0 where
  opened acked in_progress resolved closed : Status

-- internal/model/incident.go, without `Source`, `Labels`, and the columns of the AI report and of the
-- assignee.
pub record Incident : Type 0 where
  pub id : ℕ
  pub title : String
  pub severity : String
  pub status : Status
  pub group_key : String
  pub route_id : Option String
  pub data_source_id : Option String
  pub opened_at : ℕ
  pub acked_at : Option ℕ
  pub resolved_at : Option ℕ
  pub last_alert_at : Option ℕ
  pub parent_incident_id : Option ℕ
  pub auto_resolved_at : Option ℕ
  pub notification_count : ℕ
  pub last_notified_at : Option ℕ
  pub repeat_seq_index : ℕ
  pub severity_started_at : Option ℕ
  pub ai_status : String
  pub updated_at : ℕ

-- internal/model/alert.go, the columns that an incident changes or reads.
pub record AlertRow : Type 0 where
  pub incident_id : ℕ
  pub fingerprint : String
  pub status : String

abbrev pub Incidents : Type 0
Incidents = List Incident

-- status IN (open, ack, in_progress)
abbrev pub is_active : Status → Bool
is_active opened = true
is_active acked = true
is_active in_progress = true
is_active resolved = false
is_active closed = false

-- status IN (resolved, closed)
abbrev pub is_over : Status → Bool
is_over opened = false
is_over acked = false
is_over in_progress = false
is_over resolved = true
is_over closed = true

abbrev pub is_resolved : Status → Bool
is_resolved resolved = true
is_resolved opened = false
is_resolved acked = false
is_resolved in_progress = false
is_resolved closed = false

-- ORDER BY the time, the latest first, then by the id, which GORM's First adds.
unfoldable pub comes_before : (Incident → ℕ) → Incident → Incident → Bool
comes_before at a b = ltb (at b) (at a) || ((at a == at b) && ltb a.id b.id)

-- The earlier of the row and the best of the others, in that order.
unfoldable pub better : (Incident → ℕ) → Incident → Option Incident → Option Incident
unfolding comes_before
better at row none = some row
better at row (some best) = if comes_before at best row then some best else some row

-- The first row, in that order, of those that meet the condition.
unfoldable pub first_by : (Incident → ℕ) → (Incident → Bool) → Incidents → Option Incident
unfolding better
first_by at cond [] = none
first_by at cond (row ∷ rows) =
    let rest = first_by at cond rows in if cond row then better at row rest else rest

abbrev pub active_in : String → Incident → Bool
active_in group_key row = str_eq row.group_key group_key && is_active row.status

-- resolved_at >= now - window; NULL is not.
abbrev pub resolved_since : ℤ → Option ℕ → Bool
resolved_since cutoff none = false
resolved_since cutoff (some at) = leb_ℤ cutoff (pos at)

abbrev pub reopenable : String → ℤ → Incident → Bool
reopenable group_key cutoff row =
    str_eq row.group_key group_key
    && (is_resolved row.status && resolved_since cutoff row.resolved_at)

abbrev pub or_time : Option ℕ → ℕ → ℕ
or_time none d = d
or_time (some at) d = at

pub record Db : Type 0 where
  pub incidents : Incidents
  pub alerts : List AlertRow

-- The statements that fail.
pub record Faults : Type 0 where
  pub open_query : Bool
  pub resolved_query : Bool
  pub closed_query : Bool
  pub create : Bool
  pub bump_last_alert : Bool
  pub mark_notified : Bool
  pub bump_seq_index : Bool
  pub escalate : Bool
  pub reopen : Bool
  pub resolve : Bool
  pub save : Bool
  pub load : Bool
  pub add_alerts : Bool
  pub sync_alerts : Bool
  pub timeline : Bool
  pub source_query : Bool
  pub ai_status : Bool

-- What `FindActiveByGroupKey` returns. `lookup_failed` is any error but ErrRecordNotFound.
pub data Found : Type 0 where
  append_to : Incident → Found
  reopen_of : Incident → Found
  not_found lookup_failed : Found

unfoldable pub find_active_by_group_key : Faults → Incidents → ℕ → String → ℤ → Found
unfolding first_by ◌-ℤ◌
find_active_by_group_key f rows now group_key reopen_window =
    if f.open_query
    then lookup_failed
    else elim (first_by (λ r. r.opened_at) (active_in group_key) rows) [
      | some row ↦ append_to row
      | none ↦
          if leb_ℤ reopen_window (pos 0)
          then not_found
          else if f.resolved_query
          then lookup_failed
          else elim (first_by (λ r. or_time r.resolved_at 0)
              (reopenable group_key (pos now -ℤ reopen_window)) rows) [
                | some row ↦ reopen_of row
                | none ↦ not_found
              ]
    ]

-- ORDER BY COALESCE(resolved_at, updated_at) DESC
unfoldable pub find_latest_closed_by_group_key : Faults → Incidents → String → Option Incident
unfolding first_by
find_latest_closed_by_group_key f rows group_key =
    if f.closed_query
    then none
    else first_by (λ r. or_time r.resolved_at r.updated_at)
        (λ r. str_eq r.group_key group_key && is_over r.status) rows

unfoldable pub find_by_id : Incidents → ℕ → Option Incident
find_by_id [] id = none
find_by_id (row ∷ rows) id = if row.id == id then some row else find_by_id rows id

-- UPDATE incidents SET ... WHERE id = ? AND the condition
unfoldable pub update_where : ℕ → (Incident → Bool) → (Incident → Incident) → Incidents → Incidents
update_where id cond f [] = []
update_where id cond f (row ∷ rows) =
    (if (row.id == id) && cond row then f row else row) ∷ update_where id cond f rows

-- RowsAffected is not 0.
unfoldable pub affects : ℕ → (Incident → Bool) → Incidents → Bool
affects id cond [] = false
affects id cond (row ∷ rows) = ((row.id == id) && cond row) || affects id cond rows

abbrev pub always : Incident → Bool
always row = true
