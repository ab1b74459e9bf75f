-- ===== src/Incident/Service/Escalation.antt =====
-- internal/incident/service.go: the row that `escalateAndReset` leaves.
use mathlib.Core.Option.{some-injective}
use alertmesh_new.Prelude.{
  ℕ, ◌+◌, Bool, true, false, not, some, List, [], ◌∷◌, ◌≡◌, refl, sym, ap, ◌∙◌, subst, ◌==◌, str_eq,
  if-no, Bool-cases, inl, inr,
}
use alertmesh_new.Incident.Schedule.{ScheduleTier}
use alertmesh_new.Incident.Store.{
  Incident, Incidents, Faults, find_by_id, update_where, affects, always,
}
use alertmesh_new.Incident.Service.{
  Effect, notified_row, bumped_row, escalated_row, mark_notified, bump_seq_index,
  escalate_and_reset,
}

find_by_id-update_where :
    (id : ℕ) (cond : Incident → Bool) (f : Incident → Incident) (rows : Incidents) (row : Incident)
    → ((r : Incident) → (f r).id ≡ r.id)
    → cond row ≡ true
    → find_by_id rows id ≡ some row
    → find_by_id (update_where id cond f rows) id ≡ some (f row)
unfolding find_by_id update_where
find_by_id-update_where id cond f [] row same c e = cc
find_by_id-update_where id cond f (r ∷ rs) row same c e = elim (Bool-cases (r.id == id)) [
  | inl t ↦
      let e1 : find_by_id (r ∷ rs) id ≡ some r = rw t refl in
      let here : r ≡ row = some-injective _ _ (sym e1 ∙ e) in
      subst (λ x. find_by_id (update_where id cond f (r ∷ rs)) id ≡ some (f x)) here
        (rw (t, subst (λ x. cond x ≡ true) (sym here) c, same r, t) refl)
  | inr t ↦
      let e1 : find_by_id (r ∷ rs) id ≡ find_by_id rs id = rw t refl in
      rw (t, t) (find_by_id-update_where id cond f rs row same c (sym e1 ∙ e))
]

affects-find :
    (id : ℕ) (cond : Incident → Bool) (rows : Incidents) (row : Incident)
    → cond row ≡ true
    → find_by_id rows id ≡ some row
    → affects id cond rows ≡ true
unfolding affects find_by_id
affects-find id cond [] row c e = cc
affects-find id cond (r ∷ rs) row c e = elim (Bool-cases (r.id == id)) [
  | inl t ↦
      let e1 : find_by_id (r ∷ rs) id ≡ some r = rw t refl in
      rw (t, subst (λ x. cond x ≡ true) (some-injective _ _ (sym e ∙ e1)) c) refl
  | inr t ↦
      let e1 : find_by_id (r ∷ rs) id ≡ find_by_id rs id = rw t refl in
      rw t (affects-find id cond rs row c (sym e1 ∙ e))
]

mark_found :
    (f : Faults) (now id : ℕ) (rows : Incidents) (row : Incident)
    → f.mark_notified ≡ false
    → find_by_id rows id ≡ some row
    → find_by_id (mark_notified f now id rows) id ≡ some (notified_row now row)
unfolding mark_notified
mark_found f now id rows row ok e =
    if-no (λ p. find_by_id p id ≡ some (notified_row now row)) f.mark_notified _ _ ok
      (find_by_id-update_where id always (notified_row now) rows row (λ r. refl) refl e)

bump_found :
    (f : Faults) (now id : ℕ) (rows : Incidents) (row : Incident)
    → f.bump_seq_index ≡ false
    → find_by_id rows id ≡ some row
    → find_by_id (bump_seq_index f now id rows) id ≡ some (bumped_row now row)
unfolding bump_seq_index
bump_found f now id rows row ok e =
    if-no (λ p. find_by_id p id ≡ some (bumped_row now row)) f.bump_seq_index _ _ ok
      (find_by_id-update_where id always (bumped_row now) rows row (λ r. refl) refl e)

-- Where its statements succeed, an escalation leaves the incident in the next tier, notified once
-- more, with the sequence index at 1 and not at 0: the first interval of the new tier is skipped.
pub escalate_and_reset_row :
    (f : Faults) (now : ℕ) (inc row : Incident) (to : ScheduleTier) (rows : Incidents)
    → f.escalate ≡ false
    → f.mark_notified ≡ false
    → f.bump_seq_index ≡ false
    → find_by_id rows inc.id ≡ some row
    → str_eq row.severity inc.severity ≡ true
    → find_by_id (escalate_and_reset f now inc to rows).0 inc.id
      ≡ some (record row {
        severity = to.severity;
        repeat_seq_index = 1;
        severity_started_at = some now;
        last_notified_at = some now;
        notification_count = row.notification_count + 1;
        updated_at = now;
      })
unfolding escalate_and_reset
escalate_and_reset_row f now inc row to rows ok1 ok2 ok3 e same =
    if-no
      (λ (p : Incidents × List Effect).
        find_by_id p.0 inc.id ≡ some (bumped_row now (notified_row now (escalated_row now to row))))
      f.escalate _ _ ok1
      (if-no
        (λ (p : Incidents × List Effect).
          find_by_id p.0 inc.id
          ≡ some (bumped_row now (notified_row now (escalated_row now to row))))
        (not (affects inc.id (λ r. str_eq r.severity inc.severity) rows)) _ _
        (ap not (affects-find inc.id (λ r. str_eq r.severity inc.severity) rows row same e))
        (bump_found f now inc.id _ _ ok3 (
          mark_found f now inc.id _ _ ok2 (
            find_by_id-update_where inc.id (λ r. str_eq r.severity inc.severity)
              (escalated_row now to) rows row (λ r. refl) same e))))
