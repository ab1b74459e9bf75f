-- ===== src/Incident/Handle/Quiet.antt =====
-- internal/incident/service.go: the statements that leave keys and activity alone.
use alertmesh_new.Prelude.{
  ℕ, ◌+◌, String, false, not, List, ◌∷◌, ◌≡◌, refl, ◌||◌, if-both, str_eq, Bool-cases, Option-cases,
  inl, inr, ltb,
}
use alertmesh_new.Engine.Aggregate.{AlertGroup}
use alertmesh_new.Incident.Schedule.{ScheduleTier, RepeatSchedule, compute_interval, tier_for}
use alertmesh_new.Incident.Store.{Incident, Incidents, Db, Faults, is_over, affects, always}
use alertmesh_new.Incident.Service.{
  Service, Effect, mark_notified, bump_seq_index, escalate_and_reset, repeat_notify, climbs_to,
  maybe_repeat_notify, should_run, should_auto_enqueue,
}
use alertmesh_new.Incident.Handle.{new_incident, gate_ai, create_incident, append_to_incident}
use alertmesh_new.Incident.Active.{Same, Same-refl, Same-trans, update_where-Same}

pub mark_notified-Same :
    (f : Faults) (now id : ℕ) (rows : Incidents) → Same rows (mark_notified f now id rows)
unfolding mark_notified
mark_notified-Same f now id rows =
    if-both (Same rows) f.mark_notified (Same-refl rows)
      (update_where-Same id always _ rows (λ r. (refl, refl, refl)))

bump_seq_index-Same :
    (f : Faults) (now id : ℕ) (rows : Incidents) → Same rows (bump_seq_index f now id rows)
unfolding bump_seq_index
bump_seq_index-Same f now id rows =
    if-both (Same rows) f.bump_seq_index (Same-refl rows)
      (update_where-Same id always _ rows (λ r. (refl, refl, refl)))

bump_marked-Same :
    (f : Faults) (now id : ℕ) (rows : Incidents)
    → Same rows (bump_seq_index f now id (mark_notified f now id rows))
bump_marked-Same f now id rows =
    Same-trans (mark_notified-Same f now id rows) (bump_seq_index-Same f now id _)

escalate-Same :
    (f : Faults) (now : ℕ) (inc : Incident) (to : ScheduleTier) (rows : Incidents)
    → Same rows (escalate_and_reset f now inc to rows).0
unfolding escalate_and_reset
escalate-Same f now inc to rows =
    if-both (λ (p : Incidents × List Effect). Same rows p.0) f.escalate (Same-refl rows)
      (if-both (λ (p : Incidents × List Effect). Same rows p.0)
        (not (affects inc.id (λ r. str_eq r.severity inc.severity) rows)) (Same-refl rows)
        (Same-trans (update_where-Same inc.id _ _ rows (λ r. (refl, refl, refl)))
          (bump_marked-Same f now inc.id _)))

repeat-Same :
    (schedule : RepeatSchedule) (f : Faults) (now : ℕ) (inc : Incident) (tier : ScheduleTier)
    (rows : Incidents)
    → Same rows (repeat_notify schedule f now inc tier rows).0
unfolding repeat_notify
repeat-Same schedule f now inc tier rows = elim (Option-cases inc.last_notified_at) [
  | inl e ↦ rw e (bump_marked-Same f now inc.id rows)
  | inr (at, e) ↦
      elim (Bool-cases (ltb now (at + compute_interval schedule inc.repeat_seq_index))) [
        | inl t ↦ rw (e, t) (Same-refl rows)
        | inr t ↦ rw (e, t) (bump_marked-Same f now inc.id rows)
      ]
]

maybe_repeat-Same :
    (s : Service) (f : Faults) (now : ℕ) (inc : Incident) (rows : Incidents)
    → Same rows (maybe_repeat_notify s f now inc rows).0
unfolding maybe_repeat_notify
maybe_repeat-Same s f now inc rows = elim (Bool-cases (not s.dispatcher)) [
  | inl t ↦ rw t (Same-refl rows)
  | inr t ↦ elim (Bool-cases (is_over inc.status)) [
    | inl u ↦ rw (t, u) (Same-refl rows)
    | inr u ↦ elim (Option-cases s.schedule) [
      | inl e ↦ rw (t, u, e) (Same-refl rows)
      | inr (schedule, e) ↦ elim (Option-cases (tier_for schedule.severity_chain inc.severity)) [
        | inl d ↦ rw (t, u, e, d) (Same-refl rows)
        | inr (tier, d) ↦ elim (Option-cases (climbs_to schedule now inc tier)) [
          | inl c ↦ rw (t, u, e, d, c) (repeat-Same schedule f now inc tier rows)
          | inr (to, c) ↦ rw (t, u, e, d, c) (escalate-Same f now inc to rows)
        ]
      ]
    ]
  ]
]

pub append-Same :
    (s : Service) (f : Faults) (now : ℕ) (inc : Incident) (group : AlertGroup) (db : Db)
    → Same db.incidents (append_to_incident s f now inc group db).0.incidents
unfolding append_to_incident
append-Same s f now inc group db =
    Same-trans
      (if-both (Same db.incidents) f.bump_last_alert (Same-refl db.incidents)
        (update_where-Same inc.id always _ db.incidents (λ r. (refl, refl, refl))))
      (maybe_repeat-Same s f now inc _)

gate_ai-Same :
    (s : Service) (f : Faults) (now id : ℕ) (source : String) (rows : Incidents)
    → Same rows (gate_ai s f now id source rows).0
unfolding gate_ai
gate_ai-Same s f now id source rows =
    if-both (λ (p : Incidents × List Effect). Same rows p.0) (should_auto_enqueue s f source)
      (Same-refl rows)
      (if-both (λ (p : Incidents × List Effect). Same rows p.0)
        (should_run s f source || f.ai_status) (Same-refl rows)
        (update_where-Same id always _ rows (λ r. (refl, refl, refl))))

pub create-Same :
    (s : Service) (f : Faults) (now id : ℕ) (group : AlertGroup) (db : Db)
    → f.create ≡ false
    → Same
        (new_incident s f db.incidents now id group ∷ db.incidents)
        (create_incident s f now id group db).0.incidents
unfolding create_incident
create-Same s f now id group db ok = rw ok (
    Same-trans (if-both (Same _) s.dispatcher (mark_notified-Same f now id _) (Same-refl _))
      (gate_ai-Same s f now id group.data_source_id _))
