-- ===== src/Incident/Handle/Exact.antt =====
-- internal/incident/service.go: which incidents are active after `HandleAlertGroup`.
use alertmesh_new.Prelude.{
  ℕ, ◌+◌, ◌≤◌, String, Bool, true, false, List, ◌∷◌, ◌≡◌, ◌≢◌, refl, sym, ap, ◌∙◌, subst, arith,
  All, Any, ◌&&◌, if-both, if-no, str_eq, eq_iff, eq_refl, if◌then◌else◌, Bool-cases, Option-cases,
  inl, inr, ℤ, pos, leb_ℤ, ◌-ℤ◌,
}
use alertmesh_new.Engine.Aggregate.{AlertGroup}
use alertmesh_new.Incident.Store.{
  Status, opened, acked, in_progress, resolved, closed, Incident, Incidents, Db, Faults, Found,
  append_to, reopen_of, not_found, lookup_failed, is_active, active_in, is_resolved, reopenable,
  or_time, first_by, find_active_by_group_key, update_where, always,
}
use alertmesh_new.Incident.Service.{Service, Effect}
use alertmesh_new.Incident.Handle.{new_incident, reopen_incident, branch, handle_alert_group}
use alertmesh_new.Incident.Active.{
  one_if, active_count, ids, Distinct, Same, Same-refl, update_where-ids, count_of,
}
use alertmesh_new.Incident.Active.First.{
  first_by-Any, first_by-none, active_count-zero, active_count-pos,
}
use alertmesh_new.Incident.Active.Change.{update_where-raise}
use alertmesh_new.Incident.Handle.Quiet.{mark_notified-Same, append-Same, create-Same}

-- What the lookup finds when its queries do not fail.
pub data IsLookup (rows : Incidents) (group_key : String) : Found → Type 0 where
  found_active :
      (row : Incident)
      → active_in group_key row ≡ true
      → Any (λ r. r ≡ row) rows
      → IsLookup rows group_key (append_to row)
  found_resolved :
      (row : Incident)
      → str_eq row.group_key group_key ≡ true
      → is_active row.status ≡ false
      → Any (λ r. r ≡ row) rows
      → active_count group_key rows ≡ 0
      → IsLookup rows group_key (reopen_of row)
  found_none : active_count group_key rows ≡ 0 → IsLookup rows group_key not_found

and_both : (a b : Bool) → (a && b) ≡ true → (a ≡ true) × (b ≡ true)
and_both true b h = (refl, h)
and_both false b h = cc

reopenable-resolved :
    (group_key : String) (cutoff : ℤ) (row : Incident)
    → reopenable group_key cutoff row ≡ true
    → (str_eq row.group_key group_key ≡ true) × (is_active row.status ≡ false)
reopenable-resolved group_key cutoff row h =
    let (key, rest) = and_both _ _ h in (key, over row.status (and_both _ _ rest).0)
  where
    over : (st : Status) → is_resolved st ≡ true → is_active st ≡ false
    over opened e = cc
    over acked e = cc
    over in_progress e = cc
    over resolved e = refl
    over closed e = cc

pub find-IsLookup :
    (f : Faults) (rows : Incidents) (now : ℕ) (group_key : String) (window : ℤ)
    → f.open_query ≡ false
    → f.resolved_query ≡ false
    → IsLookup rows group_key (find_active_by_group_key f rows now group_key window)
unfolding find_active_by_group_key
find-IsLookup f rows now group_key window ok1 ok2 =
    elim (Option-cases (first_by (λ r. r.opened_at) (active_in group_key) rows)) [
      | inr (row, e) ↦
          let (c, held) = first_by-Any (λ r. r.opened_at) (active_in group_key) rows row e in
          rw (ok1, e) (found_active row c held)
      | inl e ↦
          let zero =
            active_count-zero group_key rows
              (first_by-none (λ r. r.opened_at) (active_in group_key) rows e) in
          elim (Bool-cases (leb_ℤ window (pos 0))) [
            | inl t ↦ rw (ok1, e, t) (found_none zero)
            | inr t ↦
                elim (Option-cases (
                  first_by (λ r. or_time r.resolved_at 0) (reopenable group_key (pos now -ℤ window))
                    rows)) [
                      | inl d ↦ rw (ok1, e, t, ok2, d) (found_none zero)
                      | inr (row, d) ↦
                          let (c, held) =
                            first_by-Any (λ r. or_time r.resolved_at 0)
                              (reopenable group_key (pos now -ℤ window)) rows row d in
                          let (k, off) = reopenable-resolved group_key (pos now -ℤ window) row c in
                          rw (ok1, e, t, ok2, d) (found_resolved row k off held zero)
                    ]
          ]
    ]

-- Exactly the active incidents of the group's key change: there is one.
abbrev pub ExactlyOne : AlertGroup → Incidents → Incidents → Type 0
ExactlyOne group before after =
    Distinct (ids after)
    × ((key : String)
        → active_count key after
          ≡ (if str_eq group.group_key key then 1 else active_count key before))

pub Same-ExactlyOne :
    (group : AlertGroup) (before middle after : Incidents)
    → Same middle after
    → ExactlyOne group before middle
    → ExactlyOne group before after
Same-ExactlyOne group before middle after same h =
    (subst Distinct (sym same.same_ids) h.0, λ key. same.same_counts key ∙ h.1 key)

pub append-ExactlyOne :
    (group : AlertGroup) (rows : Incidents)
    → Distinct (ids rows)
    → active_count group.group_key rows ≡ 1
    → ExactlyOne group rows rows
append-ExactlyOne group rows d one = (
  d,
  λ key. elim (Bool-cases (str_eq group.group_key key)) [
    | inl t ↦ rw t (count_of group.group_key key rows t ∙ one)
    | inr t ↦ rw t refl
  ],
)

pub create-ExactlyOne :
    (s : Service) (f : Faults) (now id : ℕ) (group : AlertGroup) (rows : Incidents)
    → Distinct (ids rows)
    → All (λ y. id ≢ y) (ids rows)
    → active_count group.group_key rows ≡ 0
    → ExactlyOne group rows (new_incident s f rows now id group ∷ rows)
unfolding new_incident
create-ExactlyOne s f now id group rows d fresh zero = (
  (fresh, d),
  λ key. elim (Bool-cases (str_eq group.group_key key)) [
    | inl t ↦ rw t (omega (arith, count_of group.group_key key rows t, zero))
    | inr t ↦ rw t (omega arith)
  ],
)

raise-ExactlyOne :
    (group : AlertGroup) (rows : Incidents) (row : Incident) (f : Incident → Incident)
    → Distinct (ids rows)
    → Any (λ r. r ≡ row) rows
    → str_eq row.group_key group.group_key ≡ true
    → is_active row.status ≡ false
    → active_count group.group_key rows ≡ 0
    → ((r : Incident) → (f r).id ≡ r.id)
    → ((r : Incident) → ((f r).group_key ≡ r.group_key) × (is_active (f r).status ≡ true))
    → ExactlyOne group rows (update_where row.id always f rows)
raise-ExactlyOne group rows row f d held same off zero id up = (
  subst Distinct (sym (update_where-ids row.id always f rows id)) d,
  λ key.
      update_where-raise f rows row key d held off up
      ∙ ap (λ k. one_if (str_eq k key) + active_count key rows) ((eq_iff _ _).0 same)
      ∙ counted key,
)
  where
    counted :
        (key : String)
        → one_if (str_eq group.group_key key) + active_count key rows
          ≡ (if str_eq group.group_key key then 1 else active_count key rows)
    counted key = elim (Bool-cases (str_eq group.group_key key)) [
      | inl t ↦ rw t (omega (arith, count_of group.group_key key rows t, zero))
      | inr t ↦ rw t (omega arith)
    ]

pub reopen-ExactlyOne :
    (s : Service) (f : Faults) (now : ℕ) (row : Incident) (group : AlertGroup) (db : Db)
    → f.reopen ≡ false
    → Distinct (ids db.incidents)
    → Any (λ r. r ≡ row) db.incidents
    → str_eq row.group_key group.group_key ≡ true
    → is_active row.status ≡ false
    → active_count group.group_key db.incidents ≡ 0
    → ExactlyOne group db.incidents (reopen_incident s f now row group db).0.incidents
unfolding reopen_incident
reopen-ExactlyOne s f now row group db ok d held same off zero =
    if-no (λ (p : Db × List Effect). ExactlyOne group db.incidents p.0.incidents) f.reopen _ _ ok
      (Same-ExactlyOne group db.incidents _ _
        (if-both (Same _) s.dispatcher (mark_notified-Same f now row.id _) (Same-refl _))
        (raise-ExactlyOne group db.incidents row _ d held same off zero (λ r. refl)
          (λ r. (refl, refl))))

branch-ExactlyOne :
    (s : Service) (f : Faults) (now id : ℕ) (group : AlertGroup) (db : Db) (found : Found)
    → f.create ≡ false
    → f.reopen ≡ false
    → Distinct (ids db.incidents)
    → All (λ y. id ≢ y) (ids db.incidents)
    → active_count group.group_key db.incidents ≤ 1
    → IsLookup db.incidents group.group_key found
    → ExactlyOne group db.incidents (branch s f now id group db found).0.incidents
unfolding branch
branch-ExactlyOne s f now id group db found ok1 ok2 d fresh one (found_active row a held) =
    Same-ExactlyOne group db.incidents _ _ (append-Same s f now row group db) (
      append-ExactlyOne group db.incidents d
        (omega (arith, one, active_count-pos group.group_key db.incidents row a held)))
branch-ExactlyOne s f now id group db found ok1 ok2 d fresh one
      (found_resolved row same off held zero) =
    reopen-ExactlyOne s f now row group db ok2 d held same off zero
branch-ExactlyOne s f now id group db found ok1 ok2 d fresh one (found_none zero) =
    Same-ExactlyOne group db.incidents _ _ (create-Same s f now id group db ok1)
      (create-ExactlyOne s f now id group db.incidents d fresh zero)

-- Whatever branch `HandleAlertGroup` takes, and whatever its other statements do, if the lookups and
-- the insert or reopen do not fail, the group's key has exactly one active incident afterwards, no
-- other key's number changes, and the ids stay distinct. The id of a new row is taken to be fresh,
-- and the key to have had at most one active incident.
pub handle_alert_group-ExactlyOne :
    (s : Service) (f : Faults) (now id : ℕ) (group : AlertGroup) (db : Db)
    → f.open_query ≡ false
    → f.resolved_query ≡ false
    → f.create ≡ false
    → f.reopen ≡ false
    → Distinct (ids db.incidents)
    → All (λ y. id ≢ y) (ids db.incidents)
    → active_count group.group_key db.incidents ≤ 1
    → ExactlyOne group db.incidents (handle_alert_group s f now id group db).0.incidents
unfolding handle_alert_group
handle_alert_group-ExactlyOne s f now id group db q1 q2 ok1 ok2 d fresh one =
    branch-ExactlyOne s f now id group db _ ok1 ok2 d fresh one
      (find-IsLookup f db.incidents now group.group_key s.reopen_window q1 q2)

find_failed :
    (f : Faults) (rows : Incidents) (now : ℕ) (group_key : String) (window : ℤ)
    → f.open_query ≡ true
    → find_active_by_group_key f rows now group_key window ≡ lookup_failed
unfolding find_active_by_group_key
find_failed f rows now group_key window failed = rw failed refl

-- If the lookup fails, for any reason but a missing row, a group whose key has an active incident
-- gets another.
pub handle_alert_group_failed :
    (s : Service) (f : Faults) (now id : ℕ) (group : AlertGroup) (db : Db)
    → f.open_query ≡ true
    → f.create ≡ false
    → active_count group.group_key (handle_alert_group s f now id group db).0.incidents
      ≡ active_count group.group_key db.incidents + 1
unfolding handle_alert_group branch new_incident
handle_alert_group_failed s f now id group db failed ok =
    subst
      (λ found.
        active_count group.group_key (branch s f now id group db found).0.incidents
        ≡ active_count group.group_key db.incidents + 1)
      (sym (find_failed f db.incidents now group.group_key s.reopen_window failed))
      ((create-Same s f now id group db ok).same_counts group.group_key
        ∙ rw (eq_refl group.group_key) (omega arith))
