-- ===== src/Incident/Lifecycle/Fewer.antt =====
-- internal/incident/service.go: the operations that start no incident.
use alertmesh_new.Prelude.{
  ℕ, ◌≤◌, String, Bool, true, not, List, [], ◌∷◌, ◌≡◌, refl, ap, ◌∙◌, arith, All, ◌==◌, if-both,
  Bool-cases, Option-cases, inl, inr, ℤ, pos, leb_ℤ, ◌-ℤ◌,
}
use alertmesh_new.Incident.Store.{
  Status, Incident, Incidents, Db, Faults, Found, append_to, reopen_of, not_found, lookup_failed,
  is_active, find_by_id, update_where, affects, always,
}
use alertmesh_new.Incident.Service.{Service, Effect}
use alertmesh_new.Incident.Resolve.{
  still_active, resolve_row, ack_row, auto_resolve, resolve_found, auto_resolve_stale, stale_rows,
  take_rows, resolve_each, staleness_scan_once, operate,
}
use alertmesh_new.Incident.Active.{
  one_if, active_count, ids, Same, IsMild, update_where-ids, update_where-count,
}
use alertmesh_new.Incident.Active.Change.{active_of_key}

-- No key gains an active incident.
pub record Fewer (a b : Incidents) : Type 0 where
  pub fewer_ids : ids b ≡ ids a
  pub fewer : (key : String) → active_count key b ≤ active_count key a

Fewer-refl : (a : Incidents) → Fewer a a
Fewer-refl a = record { fewer_ids = refl; fewer = λ key. omega arith }

Fewer-trans : {a b c : Incidents} → Fewer a b → Fewer b c → Fewer a c
Fewer-trans p q = record {
  fewer_ids = q.fewer_ids ∙ p.fewer_ids;
  fewer = λ key. omega (arith, p.fewer key, q.fewer key);
}

pub Same-Fewer : {a b : Incidents} → Same a b → Fewer a b
Same-Fewer p = record { fewer_ids = p.same_ids; fewer = λ key. omega (arith, p.same_counts key) }

pub mild-Fewer :
    (id : ℕ) (cond : Incident → Bool) (f : Incident → Incident) (rows : Incidents)
    → IsMild f
    → Fewer rows (update_where id cond f rows)
mild-Fewer id cond f rows mild = record {
  fewer_ids = update_where-ids id cond f rows (λ r. (mild r).0);
  fewer = λ key. update_where-count id cond f rows key mild;
}

auto_resolve-Fewer :
    (s : Service) (f : Faults) (now : ℕ) (inc : Incident) (db : Db)
    → Fewer db.incidents (auto_resolve s f now inc db).0.incidents
unfolding auto_resolve
auto_resolve-Fewer s f now inc db =
    if-both (λ (p : Db × List Effect). Fewer db.incidents p.0.incidents) f.resolve
      (Fewer-refl db.incidents)
      (if-both (λ (p : Db × List Effect). Fewer db.incidents p.0.incidents)
        (not (affects inc.id still_active db.incidents)) (Fewer-refl db.incidents)
        (mild-Fewer inc.id still_active (resolve_row now) db.incidents (λ r. (refl, refl, refl))))

pub resolved-Fewer :
    (s : Service) (f : Faults) (now : ℕ) (db : Db) (found : Found)
    → Fewer db.incidents (resolve_found s f now db found).0.incidents
unfolding resolve_found
resolved-Fewer s f now db (append_to row) = auto_resolve-Fewer s f now row db
resolved-Fewer s f now db (reopen_of row) = auto_resolve-Fewer s f now row db
resolved-Fewer s f now db not_found = Fewer-refl db.incidents
resolved-Fewer s f now db lookup_failed = Fewer-refl db.incidents

stale-Fewer :
    (s : Service) (f : Faults) (now id : ℕ) (db : Db)
    → Fewer db.incidents (auto_resolve_stale s f now id db).0.incidents
unfolding auto_resolve_stale
stale-Fewer s f now id db =
    if-both (λ (p : Db × List Effect). Fewer db.incidents p.0.incidents) f.load
      (Fewer-refl db.incidents)
      (elim (Option-cases (find_by_id db.incidents id)) [
        | inl e ↦ rw e (Fewer-refl db.incidents)
        | inr (inc, e) ↦ rw e (
            if-both (λ (p : Db × List Effect). Fewer db.incidents p.0.incidents)
              (is_active inc.status) (auto_resolve-Fewer s f now inc db) (Fewer-refl db.incidents))
      ])

each-Fewer :
    (s : Service) (f : Faults) (now : ℕ) (rows : Incidents) (db : Db)
    → Fewer db.incidents (resolve_each s f now rows db).0.incidents
unfolding resolve_each
each-Fewer s f now [] db = Fewer-refl db.incidents
each-Fewer s f now (row ∷ rows) db =
    Fewer-trans (stale-Fewer s f now row.id db) (each-Fewer s f now rows _)

pub scan-Fewer :
    (s : Service) (f : Faults) (now : ℕ) (timeout : ℤ) (db : Db)
    → Fewer db.incidents (staleness_scan_once s f now timeout db).0.incidents
unfolding staleness_scan_once
scan-Fewer s f now timeout db =
    if-both (λ (p : Db × List Effect). Fewer db.incidents p.0.incidents) (leb_ℤ timeout (pos 0))
      (Fewer-refl db.incidents)
      (if-both (λ (p : Db × List Effect). Fewer db.incidents p.0.incidents) f.open_query
        (Fewer-refl db.incidents)
        (each-Fewer s f now (take_rows 200 (stale_rows (pos now -ℤ timeout) db.incidents)) db))

pub operate-Fewer :
    (change : Incident → Incident) (action event : String) (from : Incident → Status) (to : Status)
    (f : Faults) (id : ℕ) (db : Db)
    → Fewer db.incidents (update_where id always change db.incidents)
    → Fewer db.incidents (operate change action event from to f id db).0.incidents
unfolding operate
operate-Fewer change action event from to f id db changed =
    if-both (λ (p : Db × List Effect × Bool). Fewer db.incidents p.0.incidents) f.load
      (Fewer-refl db.incidents)
      (elim (Option-cases (find_by_id db.incidents id)) [
        | inl e ↦ rw e (Fewer-refl db.incidents)
        | inr (inc, e) ↦ rw e (
            if-both (λ (p : Db × List Effect × Bool). Fewer db.incidents p.0.incidents) f.save
              (Fewer-refl db.incidents)
              (if-both (λ (p : Db × List Effect × Bool). Fewer db.incidents p.0.incidents)
                f.timeline changed changed))
      ])

ack-count :
    (now id : ℕ) (rows : Incidents) (key : String)
    → All (λ r. r.id ≡ id → is_active r.status ≡ true) rows
    → active_count key (update_where id always (ack_row now) rows) ≤ active_count key rows
unfolding update_where
ack-count now id [] key h = omega arith
ack-count now id (r ∷ rs) key h = elim (Bool-cases (r.id == id)) [
  | inl t ↦ rw t (
      omega (
        arith,
        ap one_if (active_of_key key (ack_row now r) refl),
        ap one_if (active_of_key key r (h.0 (ground (arith, t)))),
        ack-count now id rs key h.1,
      ))
  | inr t ↦ rw t (omega (arith, ack-count now id rs key h.1))
]

pub ack-Fewer :
    (now id : ℕ) (rows : Incidents)
    → All (λ r. r.id ≡ id → is_active r.status ≡ true) rows
    → Fewer rows (update_where id always (ack_row now) rows)
ack-Fewer now id rows h = record {
  fewer_ids = update_where-ids id always (ack_row now) rows (λ r. refl);
  fewer = λ key. ack-count now id rows key h;
}
