-- ===== src/Incident/Resolve/Ends.antt =====
-- internal/incident/service.go: what the operations that end or acknowledge an incident change.
use alertmesh_new.Prelude.{
  ℕ, ◌+◌, ◌≤◌, String, Bool, true, false, not, none, some, List, [], ◌∷◌, ◌≡◌, refl, sym, ap, ◌∙◌,
  subst, arith, Any, ◌&&◌, ◌||◌, ◌==◌, str_eq, eq_iff, eq_refl, if◌then◌else◌, if-both, if-no,
  Bool-cases, Option-cases, inl, inr, pos,
}
use mathlib.Core.Option.{some-injective}
use alertmesh_new.Incident.Store.{
  Incident, Incidents, Db, Faults, append_to, not_found, first_by, find_active_by_group_key,
  is_active, active_in, find_by_id, update_where, affects, always,
}
use alertmesh_new.Incident.Service.{Service, Effect}
use alertmesh_new.Incident.Resolve.{
  still_active, resolve_row, ack_row, auto_resolve, resolve_found, handle_resolved_alert, operate,
  ack_incident,
}
use alertmesh_new.Incident.Active.{one_if, active_count, ids, Distinct, update_where-ids, count_of}
use alertmesh_new.Incident.Active.First.{active_count-zero, first_by-none, first_by-Any}
use alertmesh_new.Incident.Active.Change.{same_id, update_where-raise, update_where-lower}

find_by_id-Any :
    (rows : Incidents) (id : ℕ) (row : Incident)
    → find_by_id rows id ≡ some row
    → (row.id ≡ id) × Any (λ r. r ≡ row) rows
unfolding find_by_id
find_by_id-Any [] id row e = cc
find_by_id-Any (r ∷ rs) id row e = elim (Bool-cases (r.id == id)) [
  | inl t ↦
      let e1 : find_by_id (r ∷ rs) id ≡ some r = rw t refl in
      let same = some-injective _ _ (sym e1 ∙ e) in
      (subst (λ x. x.id ≡ id) same (ground (arith, t)), inl same)
  | inr t ↦
      let e1 : find_by_id (r ∷ rs) id ≡ find_by_id rs id = rw t refl in
      let (at, held) = find_by_id-Any rs id row (sym e1 ∙ e) in (at, inr held)
]

-- `Ack` does not look at the status: on an incident that is over, it adds an active incident to the
-- key, whatever the key has already.
pub ack_incident-revives :
    (f : Faults) (now id : ℕ) (db : Db) (row : Incident)
    → f.load ≡ false
    → f.save ≡ false
    → find_by_id db.incidents id ≡ some row
    → is_active row.status ≡ false
    → Distinct (ids db.incidents)
    → active_count row.group_key (ack_incident f now id db).0.incidents
      ≡ 1 + active_count row.group_key db.incidents
unfolding ack_incident operate
ack_incident-revives f now id db row ok1 ok2 e off d =
    rw (ok1, e, ok2)
      (if-both
        (λ (p : Db × List Effect × Bool).
          active_count row.group_key p.0.incidents ≡ 1 + active_count row.group_key db.incidents)
        f.timeline counted counted)
  where
    found : (row.id ≡ id) × Any (λ r. r ≡ row) db.incidents
    found = find_by_id-Any db.incidents id row e

    counted :
        active_count row.group_key (update_where id always (ack_row now) db.incidents)
        ≡ 1 + active_count row.group_key db.incidents
    counted =
        subst
          (λ i.
            active_count row.group_key (update_where i always (ack_row now) db.incidents)
            ≡ 1 + active_count row.group_key db.incidents)
          found.0
          (update_where-raise (ack_row now) db.incidents row row.group_key d found.1 off
              (λ r. (refl, refl))
            ∙ ap (λ b. one_if b + active_count row.group_key db.incidents) (eq_refl row.group_key))

-- The exact effect of an end on the counts: one less for the key, if it had one.
abbrev pub Ended : String → Incidents → Incidents → Type 0
Ended group_key before after =
    (ids after ≡ ids before)
    × ((key : String)
        → active_count key after ≡ (if str_eq group_key key then 0 else active_count key before))

affects-Any :
    (cond : Incident → Bool) (rows : Incidents) (row : Incident)
    → Any (λ r. r ≡ row) rows
    → cond row ≡ true
    → affects row.id cond rows ≡ true
unfolding affects
affects-Any cond [] row a c = absurd a
affects-Any cond (r ∷ rs) row (inl e) c =
    subst (λ x. affects x.id cond (r ∷ rs) ≡ true) e
      (rw (same_id r.id, subst (λ x. cond x ≡ true) (sym e) c) refl)
affects-Any cond (r ∷ rs) row (inr a) c =
    rw (affects-Any cond rs row a c) (or_true ((r.id == row.id) && cond r))
  where
    or_true : (b : Bool) → (b || true) ≡ true
    or_true true = refl
    or_true false = refl

auto_resolve-Ended :
    (s : Service) (f : Faults) (now : ℕ) (row : Incident) (db : Db)
    → f.resolve ≡ false
    → Distinct (ids db.incidents)
    → Any (λ r. r ≡ row) db.incidents
    → is_active row.status ≡ true
    → active_count row.group_key db.incidents ≤ 1
    → Ended row.group_key db.incidents (auto_resolve s f now row db).0.incidents
unfolding auto_resolve
auto_resolve-Ended s f now row db ok d held on one =
    if-no (λ (p : Db × List Effect). Ended row.group_key db.incidents p.0.incidents) f.resolve _ _
      ok
      (if-no (λ (p : Db × List Effect). Ended row.group_key db.incidents p.0.incidents)
        (not (affects row.id still_active db.incidents)) _ _
        (ap not (affects-Any still_active db.incidents row held on))
        (
          update_where-ids row.id still_active (resolve_row now) db.incidents (λ r. refl),
          λ key. counted key (
              update_where-lower still_active (resolve_row now) db.incidents row key d held on on
                (λ r. refl)),
        ))
  where
    counted :
        (key : String)
        → active_count key db.incidents
          ≡ one_if (str_eq row.group_key key)
            + active_count key (update_where row.id still_active (resolve_row now) db.incidents)
        → active_count key (update_where row.id still_active (resolve_row now) db.incidents)
          ≡ (if str_eq row.group_key key then 0 else active_count key db.incidents)
    counted key h = elim (Bool-cases (str_eq row.group_key key)) [
      | inl t ↦ rw t (omega (arith, one, h, ap one_if t, count_of row.group_key key db.incidents t))
      | inr t ↦ rw t (omega (arith, h, ap one_if t))
    ]

find_open :
    (f : Faults) (rows : Incidents) (now : ℕ) (group_key : String) (row : Incident)
    → f.open_query ≡ false
    → first_by (λ r. r.opened_at) (active_in group_key) rows ≡ some row
    → find_active_by_group_key f rows now group_key (pos 0) ≡ append_to row
unfolding find_active_by_group_key
find_open f rows now group_key row ok e = rw (ok, e) refl

find_none :
    (f : Faults) (rows : Incidents) (now : ℕ) (group_key : String)
    → f.open_query ≡ false
    → first_by (λ r. r.opened_at) (active_in group_key) rows ≡ none
    → find_active_by_group_key f rows now group_key (pos 0) ≡ not_found
unfolding find_active_by_group_key
find_none f rows now group_key ok e = rw (ok, e) refl

active-parts :
    (group_key : String) (row : Incident)
    → active_in group_key row ≡ true
    → (str_eq row.group_key group_key ≡ true) × (is_active row.status ≡ true)
active-parts group_key row h = both _ _ h
  where
    both : (a b : Bool) → (a && b) ≡ true → (a ≡ true) × (b ≡ true)
    both true b e = (refl, e)
    both false b e = cc

-- After `HandleResolvedAlert`, if its lookup and update do not fail, the group's key has no active
-- incident, and no other key's number has changed. The ids are taken to be distinct, and the key to
-- have had at most one active incident.
pub handle_resolved_alert-Ended :
    (s : Service) (f : Faults) (now : ℕ) (group_key : String) (db : Db)
    → f.open_query ≡ false
    → f.resolve ≡ false
    → Distinct (ids db.incidents)
    → active_count group_key db.incidents ≤ 1
    → Ended group_key db.incidents (handle_resolved_alert s f now group_key db).0.incidents
unfolding handle_resolved_alert resolve_found
handle_resolved_alert-Ended s f now group_key db q ok d one =
    elim (Option-cases (first_by (λ r. r.opened_at) (active_in group_key) db.incidents)) [
      | inl e ↦
          subst (λ found. Ended group_key db.incidents (resolve_found s f now db found).0.incidents)
            (sym (find_none f db.incidents now group_key q e))
            (
              refl,
              none_left (
                  active_count-zero group_key db.incidents
                    (first_by-none (λ r. r.opened_at) (active_in group_key) db.incidents e)),
            )
      | inr (row, e) ↦
          let (c, held) =
            first_by-Any (λ r. r.opened_at) (active_in group_key) db.incidents row e in
          let same : row.group_key ≡ group_key = (eq_iff _ _).0 (active-parts group_key row c).0 in
          subst (λ found. Ended group_key db.incidents (resolve_found s f now db found).0.incidents)
            (sym (find_open f db.incidents now group_key row q e))
            (subst (λ k. Ended k db.incidents (auto_resolve s f now row db).0.incidents) same
              (auto_resolve-Ended s f now row db ok d held (active-parts group_key row c).1
                (subst (λ k. active_count k db.incidents ≤ 1) (sym same) one)))
    ]
  where
    none_left :
        active_count group_key db.incidents ≡ 0
        → (key : String)
        → active_count key db.incidents
          ≡ (if str_eq group_key key then 0 else active_count key db.incidents)
    none_left zero key = elim (Bool-cases (str_eq group_key key)) [
      | inl t ↦ rw t (count_of group_key key db.incidents t ∙ zero)
      | inr t ↦ rw t refl
    ]
