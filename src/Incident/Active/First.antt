-- ===== src/Incident/Active/First.antt =====
-- internal/incident/repository.go: what the first row of a query says about the number of active
-- incidents.
use alertmesh_new.Prelude.{
  ℕ, ◌≤◌, String, Bool, true, false, Option, none, some, [], ◌∷◌, ◌≡◌, ◌≢◌, refl, sym, ap, ◌∙◌,
  subst, arith, All, Any, Bool-cases, ◌⊎◌, inl, inr,
}
use mathlib.Core.Option.{some-injective}
use alertmesh_new.Incident.Store.{Incident, Incidents, active_in, first_by, better, comes_before}
use alertmesh_new.Incident.Active.{one_if, active_count}

first_by_met :
    (at : Incident → ℕ) (cond : Incident → Bool) (r : Incident) (rs : Incidents)
    → cond r ≡ true
    → first_by at cond (r ∷ rs) ≡ better at r (first_by at cond rs)
unfolding first_by
first_by_met at cond r rs t = rw t refl

first_by_unmet :
    (at : Incident → ℕ) (cond : Incident → Bool) (r : Incident) (rs : Incidents)
    → cond r ≡ false
    → first_by at cond (r ∷ rs) ≡ first_by at cond rs
unfolding first_by
first_by_unmet at cond r rs t = rw t refl

better-either :
    (at : Incident → ℕ) (r : Incident) (o : Option Incident)
    → (better at r o ≡ some r) ⊎ (better at r o ≡ o)
unfolding better
better-either at r none = inl refl
better-either at r (some best) = elim (Bool-cases (comes_before at best r)) [
  | inl t ↦ inr (rw t refl)
  | inr t ↦ inl (rw t refl)
]

better_some : (at : Incident → ℕ) (r : Incident) (o : Option Incident) → better at r o ≢ none
unfolding better
better_some at r none e = cc
better_some at r (some best) e = elim (Bool-cases (comes_before at best r)) [
  | inl t ↦ cc
  | inr t ↦ cc
]

-- What the first row in an order is.
pub first_by-Any :
    (at : Incident → ℕ) (cond : Incident → Bool) (rows : Incidents) (row : Incident)
    → first_by at cond rows ≡ some row
    → (cond row ≡ true) × Any (λ r. r ≡ row) rows
unfolding first_by
first_by-Any at cond [] row e = cc
first_by-Any at cond (r ∷ rs) row e = elim (Bool-cases (cond r)) [
  | inl t ↦ elim (better-either at r (first_by at cond rs)) [
    | inl b ↦
        let same : r ≡ row = some-injective _ _ (sym b ∙ sym (first_by_met at cond r rs t) ∙ e) in
        (subst (λ x. cond x ≡ true) same t, inl same)
    | inr b ↦
        let (c, held) =
          first_by-Any at cond rs row (sym b ∙ sym (first_by_met at cond r rs t) ∙ e) in
        (c, inr held)
  ]
  | inr t ↦
      let (c, held) = first_by-Any at cond rs row (sym (first_by_unmet at cond r rs t) ∙ e) in
      (c, inr held)
]

pub first_by-none :
    (at : Incident → ℕ) (cond : Incident → Bool) (rows : Incidents)
    → first_by at cond rows ≡ none
    → All (λ r. cond r ≡ false) rows
unfolding first_by
first_by-none at cond [] e = tt
first_by-none at cond (r ∷ rs) e = elim (Bool-cases (cond r)) [
  | inl t ↦ absurd (better_some at r (first_by at cond rs) (sym (first_by_met at cond r rs t) ∙ e))
  | inr t ↦ (t, first_by-none at cond rs (sym (first_by_unmet at cond r rs t) ∙ e))
]

pub active_count-zero :
    (key : String) (rows : Incidents)
    → All (λ r. active_in key r ≡ false) rows
    → active_count key rows ≡ 0
active_count-zero key [] h = refl
active_count-zero key (r ∷ rs) h = omega (arith, ap one_if h.0, active_count-zero key rs h.1)

pub active_count-pos :
    (key : String) (rows : Incidents) (row : Incident)
    → active_in key row ≡ true
    → Any (λ r. r ≡ row) rows
    → 1 ≤ active_count key rows
active_count-pos key [] row a h = absurd h
active_count-pos key (r ∷ rs) row a (inl e) =
    omega (arith, ap (λ x. one_if (active_in key x)) e, ap one_if a)
active_count-pos key (r ∷ rs) row a (inr h) = omega (arith, active_count-pos key rs row a h)
