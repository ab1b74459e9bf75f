-- ===== src/Incident/Service.antt =====
-- internal/incident/service.go: `HandleAlertGroup` with its three branches, and the repeated
-- notifications.
--
-- The mutex of the group key makes `handle_alert_group` one step for its group. The text of titles is
-- a parameter (`build_title`); the body of a message is left out.
pub mod Escalation
use Prim.Native.String
use alertmesh_new.Prelude.{
  ℕ, zero, suc, ◌+◌, String, Bool, true, false, not, Option, none, some, List, [], ◌∷◌, ◌++◌, map,
  ◌&&◌, ltb, leb, str_eq, if◌then◌else◌, ℤ, pos, Assoc, lookup, trim_space,
}
use alertmesh_new.Engine.Alert.{RawAlert}
use alertmesh_new.Engine.Aggregate.{AlertGroup}
use alertmesh_new.Incident.Schedule.{
  ScheduleTier, RepeatSchedule, compute_interval, tier_for, next_tier,
}
use alertmesh_new.Incident.Store.{
  Status, opened, Incident, Incidents, AlertRow, Db, Faults, append_to, reopen_of, not_found,
  lookup_failed, find_active_by_group_key, find_latest_closed_by_group_key, update_where, affects,
  always, is_over, or_time,
}

-- The columns of `data_sources` that the AI gate reads.
pub record DataSource : Type 0 where
  pub is_enabled : Bool
  pub ai_enabled : Bool
  pub ai_auto_trigger : Bool

-- A `Service` with what its queries of the settings find.
pub record Service : Type 0 where
  pub dispatcher : Bool
  pub schedule : Option RepeatSchedule
  pub reopen_window : ℤ
  pub data_sources : Assoc DataSource
  pub build_title : AlertGroup → String

-- What a step sends out: rows of the timeline, messages for the dispatcher with their title and
-- severity, events for the browsers, and tasks for the AI queue.
pub data Effect : Type 0 where
  timeline : ℕ → String → Option Status → Option Status → Effect
  dispatch : ℕ → String → String → Effect
  publish : String → ℕ → Effect
  enqueue_ai : ℕ → Effect

-- internal/ai/eligibility.go
abbrev pub gate : Service → Faults → String → (DataSource → Bool) → Bool
gate s f id test =
    if str_eq id ""
    then false
    else if f.source_query
    then false
    else elim (lookup id s.data_sources) [ none ↦ false | some ds ↦ test ds ]

unfoldable pub should_run : Service → Faults → String → Bool
should_run s f id = gate s f id (λ ds. ds.is_enabled && ds.ai_enabled)

unfoldable pub should_auto_enqueue : Service → Faults → String → Bool
should_auto_enqueue s f id =
    gate s f id (λ ds. ds.is_enabled && ds.ai_enabled && ds.ai_auto_trigger)

abbrev pub or_null : String → Option String
or_null id = if str_eq id "" then none else some id

abbrev pub convert_alerts : ℕ → AlertGroup → List AlertRow
convert_alerts id group =
    map (λ a. record { incident_id = id; fingerprint = a.fingerprint; status = a.status })
      group.alerts

-- `AddAlerts`
abbrev pub add_alerts : Faults → ℕ → AlertGroup → List AlertRow → List AlertRow
add_alerts f id group rows = if f.add_alerts then rows else rows ++ convert_alerts id group

abbrev pub recorded : Faults → Effect → List Effect
recorded f e = if f.timeline then [] else e ∷ []

abbrev pub notified_row : ℕ → Incident → Incident
notified_row now r = record r {
  last_notified_at = some now;
  notification_count = r.notification_count + 1;
  updated_at = now;
}

abbrev pub bumped_row : ℕ → Incident → Incident
bumped_row now r = record r { repeat_seq_index = r.repeat_seq_index + 1; updated_at = now }

abbrev pub escalated_row : ℕ → ScheduleTier → Incident → Incident
escalated_row now to r = record r {
  severity = to.severity;
  repeat_seq_index = 0;
  severity_started_at = some now;
  updated_at = now;
}

unfoldable pub mark_notified : Faults → ℕ → ℕ → Incidents → Incidents
unfolding update_where
mark_notified f now id rows =
    if f.mark_notified then rows else update_where id always (notified_row now) rows

unfoldable pub bump_seq_index : Faults → ℕ → ℕ → Incidents → Incidents
unfolding update_where
bump_seq_index f now id rows =
    if f.bump_seq_index then rows else update_where id always (bumped_row now) rows

unfoldable pub tag_prefix : ScheduleTier → String
unfolding trim_space
tag_prefix tier = let tag = trim_space tier.tag in if str_eq tag "" then "" else String.◌++◌ tag " "

unfoldable pub escalate_and_reset :
    Faults → ℕ → Incident → ScheduleTier → Incidents → Incidents × List Effect
unfolding tag_prefix
escalate_and_reset f now inc to rows =
    let guard : Incident → Bool = λ r. str_eq r.severity inc.severity in
    if f.escalate then (rows, []) else if not (affects inc.id guard rows) then (rows, []) else (
      bump_seq_index f now inc.id
          (mark_notified f now inc.id (update_where inc.id guard (escalated_row now to) rows)),
      recorded f (timeline inc.id "escalated" none none)
          ++ dispatch inc.id (String.◌++◌ (tag_prefix to) inc.title) to.severity ∷ [],
    )

-- The second half of `maybeRepeatNotify`: the cadence.
unfoldable pub repeat_notify :
    RepeatSchedule → Faults → ℕ → Incident → ScheduleTier → Incidents → Incidents × List Effect
unfolding tag_prefix
repeat_notify schedule f now inc tier rows =
    let title : String = elim inc.last_notified_at [
      | none ↦ inc.title
      | some at ↦ String.◌++◌ (tag_prefix tier) inc.title
    ] in
    let sent : Incidents × List Effect = (
      bump_seq_index f now inc.id (mark_notified f now inc.id rows),
      dispatch inc.id title inc.severity ∷ [],
    ) in
    elim inc.last_notified_at [
      | none ↦ sent
      | some at ↦
          if ltb now (at + compute_interval schedule inc.repeat_seq_index) then (rows, []) else sent
    ]

-- The tier to climb to, if the incident has stayed in its tier for the dwell.
unfoldable pub climbs_to : RepeatSchedule → ℕ → Incident → ScheduleTier → Option ScheduleTier
climbs_to schedule now inc tier =
    if ltb 0 tier.dwell && leb (or_time inc.severity_started_at inc.opened_at + tier.dwell) now
    then next_tier schedule.severity_chain inc.severity
    else none

unfoldable pub maybe_repeat_notify :
    Service → Faults → ℕ → Incident → Incidents → Incidents × List Effect
unfolding escalate_and_reset repeat_notify climbs_to
maybe_repeat_notify s f now inc rows =
    if not s.dispatcher
    then (rows, [])
    else if is_over inc.status
    then (rows, [])
    else elim s.schedule [
      | none ↦ (rows, [])
      | some schedule ↦ elim (tier_for schedule.severity_chain inc.severity) [
        | none ↦ (rows, [])
        | some tier ↦ elim (climbs_to schedule now inc tier) [
          | some to ↦ escalate_and_reset f now inc to rows
          | none ↦ repeat_notify schedule f now inc tier rows
        ]
      ]
    ]
