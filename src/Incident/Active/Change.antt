-- ===== src/Incident/Active/Change.antt =====
-- internal/incident: the statements that start or end one incident.
use alertmesh_new.Prelude.{
  ℕ, ◌+◌, String, Bool, true, false, [], ◌∷◌, ◌≡◌, ◌≢◌, refl, sym, ap, subst, arith, All, Any, ◌&&◌,
  ◌==◌, str_eq, inl, inr,
}
use alertmesh_new.Incident.Store.{Incident, Incidents, is_active, active_in, update_where, always}
use alertmesh_new.Incident.Active.{one_if, active_count, ids, Distinct, inactive}

ids-All :
    (P : ℕ → Type 0) (rows : Incidents) (row : Incident)
    → All P (ids rows)
    → Any (λ r. r ≡ row) rows
    → P row.id
ids-All P [] row h a = absurd a
ids-All P (r ∷ rs) row h (inl e) = subst (λ x. P x.id) e h.0
ids-All P (r ∷ rs) row h (inr a) = ids-All P rs row h.1 a

other_id : (a b : ℕ) → b ≢ a → (a == b) ≡ false
other_id a b ne = ground arith

pub same_id : (a : ℕ) → (a == a) ≡ true
same_id a = ground arith

pub active_of_key :
    (key : String) (g : Incident)
    → is_active g.status ≡ true
    → active_in key g ≡ str_eq g.group_key key
active_of_key key g h = rw h (and_true (str_eq g.group_key key))
  where
    and_true : (b : Bool) → (b && true) ≡ b
    and_true true = refl
    and_true false = refl

update_where_absent :
    (id : ℕ) (cond : Incident → Bool) (f : Incident → Incident) (rows : Incidents)
    → All (λ y. id ≢ y) (ids rows)
    → update_where id cond f rows ≡ rows
unfolding update_where
update_where_absent id cond f [] h = refl
update_where_absent id cond f (r ∷ rs) h =
    rw (other_id r.id id h.0) (ap (λ x. r ∷ x) (update_where_absent id cond f rs h.1))

-- A change that starts one row that was not active adds it to the count of its key, and to no other.
pub update_where-raise :
    (f : Incident → Incident) (rows : Incidents) (row : Incident) (key : String)
    → Distinct (ids rows)
    → Any (λ r. r ≡ row) rows
    → is_active row.status ≡ false
    → ((r : Incident) → ((f r).group_key ≡ r.group_key) × (is_active (f r).status ≡ true))
    → active_count key (update_where row.id always f rows)
      ≡ one_if (str_eq row.group_key key) + active_count key rows
unfolding update_where
update_where-raise f [] row key d a off up = absurd a
update_where-raise f (r ∷ rs) row key d (inl e) off up =
    subst
      (λ x.
        active_count key (update_where x.id always f (r ∷ rs))
        ≡ one_if (str_eq x.group_key key) + active_count key (r ∷ rs))
      e
      (rw (same_id r.id) (
        omega (
          arith,
          ap one_if (active_of_key key (f r) (up r).1),
          ap (λ k. one_if (str_eq k key)) (up r).0,
          ap one_if (inactive key r (subst (λ x. is_active x.status ≡ false) (sym e) off)),
          ap (active_count key) (update_where_absent r.id always f rs d.0),
        )))
update_where-raise f (r ∷ rs) row key d (inr a) off up =
    rw (other_id r.id row.id (λ h. ids-All (λ y. r.id ≢ y) rs row d.0 a (sym h)))
      (omega (arith, update_where-raise f rs row key d.1 a off up))

-- A change that ends one active row takes it from the count of its key, and from no other.
pub update_where-lower :
    (cond : Incident → Bool) (f : Incident → Incident) (rows : Incidents) (row : Incident)
    (key : String)
    → Distinct (ids rows)
    → Any (λ r. r ≡ row) rows
    → cond row ≡ true
    → is_active row.status ≡ true
    → ((r : Incident) → is_active (f r).status ≡ false)
    → active_count key rows
      ≡ one_if (str_eq row.group_key key) + active_count key (update_where row.id cond f rows)
unfolding update_where
update_where-lower cond f [] row key d a c on down = absurd a
update_where-lower cond f (r ∷ rs) row key d (inl e) c on down =
    subst
      (λ x.
        active_count key (r ∷ rs)
        ≡ one_if (str_eq x.group_key key) + active_count key (update_where x.id cond f (r ∷ rs)))
      e
      (rw (same_id r.id, subst (λ x. cond x ≡ true) (sym e) c)
        (omega (
          arith,
          ap one_if (active_of_key key r (subst (λ x. is_active x.status ≡ true) (sym e) on)),
          ap one_if (inactive key (f r) (down r)),
          ap (active_count key) (update_where_absent r.id cond f rs d.0),
        )))
update_where-lower cond f (r ∷ rs) row key d (inr a) c on down =
    rw (other_id r.id row.id (λ h. ids-All (λ y. r.id ≢ y) rs row d.0 a (sym h)))
      (omega (arith, update_where-lower cond f rs row key d.1 a c on down))
