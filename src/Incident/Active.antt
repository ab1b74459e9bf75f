-- ===== src/Incident/Active.antt =====
-- internal/incident: the number of active incidents of a group key, and the statements that keep or
-- lower it.
pub mod First
pub mod Change
use alertmesh_new.Prelude.{
  ℕ, ◌+◌, ◌≤◌, String, Bool, true, false, Option, none, some, List, [], ◌∷◌, ◌≡◌, ◌≢◌, refl, sym,
  ap, ◌∙◌, subst, arith, All, Any, map, ◌&&◌, ◌==◌, str_eq, eq_iff, if◌then◌else◌, Bool-cases, ◌⊎◌,
  inl, inr,
}
use mathlib.Core.Option.{some-injective}
use alertmesh_new.Incident.Store.{
  Incident, Incidents, is_active, active_in, first_by, better, comes_before, update_where, always,
}

abbrev pub one_if : Bool → ℕ
one_if b = if b then 1 else 0

abbrev pub active_count : String → Incidents → ℕ
active_count key [] = 0
active_count key (row ∷ rows) = one_if (active_in key row) + active_count key rows

abbrev pub ids : Incidents → List ℕ
ids rows = map (λ r. r.id) rows

abbrev pub Distinct : List ℕ → Type 0
Distinct [] = Unit
Distinct (x ∷ xs) = All (λ y. x ≢ y) xs × Distinct xs

-- The same rows as far as keys and activity go.
pub record Same (a b : Incidents) : Type 0 where
  pub same_ids : ids b ≡ ids a
  pub same_counts : (key : String) → active_count key b ≡ active_count key a

pub Same-refl : (a : Incidents) → Same a a
Same-refl a = record { same_ids = refl; same_counts = λ key. refl }

pub Same-trans : {a b c : Incidents} → Same a b → Same b c → Same a c
Same-trans p q = record {
  same_ids = q.same_ids ∙ p.same_ids;
  same_counts = λ key. q.same_counts key ∙ p.same_counts key;
}

-- A change that keeps id, key and activity.
abbrev pub IsCalm : (Incident → Incident) → Type 0
IsCalm f =
    (r : Incident)
    → ((f r).id ≡ r.id)
      × ((f r).group_key ≡ r.group_key)
      × (is_active (f r).status ≡ is_active r.status)

pub update_where-ids :
    (id : ℕ) (cond : Incident → Bool) (f : Incident → Incident) (rows : Incidents)
    → ((r : Incident) → (f r).id ≡ r.id)
    → ids (update_where id cond f rows) ≡ ids rows
unfolding update_where
update_where-ids id cond f [] h = refl
update_where-ids id cond f (row ∷ rows) h = elim (Bool-cases ((row.id == id) && cond row)) [
  | inl t ↦ rw t (cc (h row, update_where-ids id cond f rows h))
  | inr t ↦ rw t (cc (update_where-ids id cond f rows h))
]

pub update_where-Same :
    (id : ℕ) (cond : Incident → Bool) (f : Incident → Incident) (rows : Incidents)
    → IsCalm f
    → Same rows (update_where id cond f rows)
unfolding update_where
update_where-Same id cond f rows calm = record {
  same_ids = update_where-ids id cond f rows (λ r. (calm r).0);
  same_counts = λ key. counts key rows;
}
  where
    active : (key : String) (r : Incident) → active_in key (f r) ≡ active_in key r
    active key r = cc ((calm r).1, (calm r).2)

    counts :
        (key : String) (rs : Incidents)
        → active_count key (update_where id cond f rs) ≡ active_count key rs
    counts key [] = refl
    counts key (r ∷ rs) = elim (Bool-cases ((r.id == id) && cond r)) [
      | inl t ↦ rw t (cc (active key r, counts key rs))
      | inr t ↦ rw t (cc (counts key rs))
    ]

-- A change that keeps id and key and starts nothing.
abbrev pub IsMild : (Incident → Incident) → Type 0
IsMild f =
    (r : Incident)
    → ((f r).id ≡ r.id) × ((f r).group_key ≡ r.group_key) × (is_active (f r).status ≡ false)

pub inactive : (key : String) (r : Incident) → is_active r.status ≡ false → active_in key r ≡ false
inactive key r h = rw h (and_false (str_eq r.group_key key))
  where
    and_false : (b : Bool) → (b && false) ≡ false
    and_false true = refl
    and_false false = refl

pub update_where-count :
    (id : ℕ) (cond : Incident → Bool) (f : Incident → Incident) (rows : Incidents) (key : String)
    → IsMild f
    → active_count key (update_where id cond f rows) ≤ active_count key rows
unfolding update_where
update_where-count id cond f [] key mild = omega arith
update_where-count id cond f (row ∷ rows) key mild =
    elim (Bool-cases ((row.id == id) && cond row)) [
      | inl t ↦ rw t (
          omega (
            arith,
            ap one_if (inactive key (f row) (mild row).2),
            update_where-count id cond f rows key mild,
          ))
      | inr t ↦ rw t (omega (arith, update_where-count id cond f rows key mild))
    ]

pub count_of :
    (a key : String) (rows : Incidents)
    → str_eq a key ≡ true
    → active_count key rows ≡ active_count a rows
count_of a key rows t = ap (λ k. active_count k rows) (sym ((eq_iff a key).0 t))
