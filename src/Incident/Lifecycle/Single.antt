-- ===== src/Incident/Lifecycle/Single.antt =====
-- internal/incident: a group key never has two active incidents.
use alertmesh_new.Prelude.{
  ℕ, ◌≤◌, String, true, [], ◌≡◌, ◌≢◌, refl, sym, subst, arith, All, str_eq, if-both, if_yes,
  Bool-cases, inl, inr,
}
use alertmesh_new.Engine.Aggregate.{AlertGroup}
use alertmesh_new.Incident.Store.{Incident, Incidents, Db, Faults, Found, always}
use alertmesh_new.Incident.Service.{Service}
use alertmesh_new.Incident.Handle.{branch, create_incident, reopen_incident, handle_alert_group}
use alertmesh_new.Incident.Handle.Quiet.{append-Same, create-Same}
use alertmesh_new.Incident.Handle.Exact.{
  ExactlyOne, IsLookup, found_active, found_resolved, found_none, find-IsLookup, Same-ExactlyOne,
  create-ExactlyOne, reopen-ExactlyOne,
}
use alertmesh_new.Incident.Resolve.{
  handle_resolved_alert, ack_incident, resolve_incident, close_incident,
}
use alertmesh_new.Incident.Active.{active_count, ids, Distinct}
use alertmesh_new.Incident.Lifecycle.{
  ServiceStep, alert_group, resolved_alert, stale_scan, resolve_step, close_step, ack_step, Reach,
  here, next,
}
use alertmesh_new.Incident.Lifecycle.Fewer.{
  Fewer, mild-Fewer, Same-Fewer, resolved-Fewer, scan-Fewer, operate-Fewer, ack-Fewer,
}

pub record IsSingle (rows : Incidents) : Type 0 where
  pub distinct : Distinct (ids rows)
  pub single : (key : String) → active_count key rows ≤ 1

Fewer-IsSingle : {a b : Incidents} → Fewer a b → IsSingle a → IsSingle b
Fewer-IsSingle p v = record {
  distinct = subst Distinct (sym p.fewer_ids) v.distinct;
  single = λ key. omega (arith, p.fewer key, v.single key);
}

ExactlyOne-IsSingle :
    (group : AlertGroup) (a b : Incidents) → IsSingle a → ExactlyOne group a b → IsSingle b
ExactlyOne-IsSingle group a b v h = record {
  distinct = h.0;
  single = λ key.
      subst (λ n. n ≤ 1) (sym (h.1 key))
        (if-both (λ n. n ≤ 1) (str_eq group.group_key key) (omega arith) (v.single key));
}

reopen_fails :
    (s : Service) (f : Faults) (now : ℕ) (row : Incident) (group : AlertGroup) (db : Db)
    → f.reopen ≡ true
    → reopen_incident s f now row group db ≡ (db, [])
unfolding reopen_incident
reopen_fails s f now row group db t = if_yes f.reopen _ _ t

create_fails :
    (s : Service) (f : Faults) (now id : ℕ) (group : AlertGroup) (db : Db)
    → f.create ≡ true
    → create_incident s f now id group db ≡ (db, [])
unfolding create_incident
create_fails s f now id group db t = if_yes f.create _ _ t

branch-IsSingle :
    (s : Service) (f : Faults) (now id : ℕ) (group : AlertGroup) (db : Db) (found : Found)
    → IsSingle db.incidents
    → All (λ y. id ≢ y) (ids db.incidents)
    → IsLookup db.incidents group.group_key found
    → IsSingle (branch s f now id group db found).0.incidents
unfolding branch
branch-IsSingle s f now id group db found v fresh (found_active row a held) =
    Fewer-IsSingle (Same-Fewer (append-Same s f now row group db)) v
branch-IsSingle s f now id group db found v fresh (found_resolved row same off held zero) =
    elim (Bool-cases f.reopen) [
      | inl t ↦ subst (λ p. IsSingle p.0.incidents) (sym (reopen_fails s f now row group db t)) v
      | inr t ↦
          ExactlyOne-IsSingle group db.incidents _ v
            (reopen-ExactlyOne s f now row group db t v.distinct held same off zero)
    ]
branch-IsSingle s f now id group db found v fresh (found_none zero) = elim (Bool-cases f.create) [
  | inl t ↦ subst (λ p. IsSingle p.0.incidents) (sym (create_fails s f now id group db t)) v
  | inr t ↦ ExactlyOne-IsSingle group db.incidents _ v (
      Same-ExactlyOne group db.incidents _ _ (create-Same s f now id group db t)
        (create-ExactlyOne s f now id group db.incidents v.distinct fresh zero))
]

Step-IsSingle :
    {s : Service} {a b : Db} → ServiceStep s a b → IsSingle a.incidents → IsSingle b.incidents
unfolding handle_alert_group handle_resolved_alert ack_incident resolve_incident close_incident
Step-IsSingle {s} {a} (alert_group f now id group q1 q2 fresh) v =
    branch-IsSingle s f now id group a _ v fresh
      (find-IsLookup f a.incidents now group.group_key s.reopen_window q1 q2)
Step-IsSingle {s} {a} (resolved_alert f now group_key) v =
    Fewer-IsSingle (resolved-Fewer s f now a _) v
Step-IsSingle {s} {a} (stale_scan f now timeout) v = Fewer-IsSingle (scan-Fewer s f now timeout a) v
Step-IsSingle {s} {a} (resolve_step f now id) v =
    Fewer-IsSingle
      (operate-Fewer _ _ _ _ _ f id a
        (mild-Fewer id always _ a.incidents (λ r. (refl, refl, refl))))
      v
Step-IsSingle {s} {a} (close_step f now id) v =
    Fewer-IsSingle
      (operate-Fewer _ _ _ _ _ f id a
        (mild-Fewer id always _ a.incidents (λ r. (refl, refl, refl))))
      v
Step-IsSingle {s} {a} (ack_step f now id active) v =
    Fewer-IsSingle (operate-Fewer _ _ _ _ _ f id a (ack-Fewer now id a.incidents active)) v

-- However the operations follow one another, as long as the lookups of `HandleAlertGroup` do not fail,
-- new ids are fresh, and only active incidents are acknowledged, no group key ever has two active
-- incidents. Any other statement may fail.
pub Reach-IsSingle : (s : Service) {db : Db} → Reach s db → IsSingle db.incidents
Reach-IsSingle s here = record { distinct = tt; single = λ key. omega arith }
Reach-IsSingle s (next r step) = Step-IsSingle step (Reach-IsSingle s r)
