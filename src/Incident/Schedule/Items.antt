-- ===== src/Incident/Schedule/Items.antt =====
-- internal/incident/service.go: the intervals of a sequence, in order.
use mathlib.Core.Option.{some-injective}
use alertmesh_new.Prelude.{
  ℕ, zero, suc, ◌≤◌, ◌<◌, none, some, List, [], ◌∷◌, length, ◌≡◌, refl, arith, All, subst,
}
use alertmesh_new.Incident.Schedule.{get_elem?, last}

-- The sequence does not decrease.
abbrev pub Ascending : List ℕ → Type 0
Ascending [] = Unit
Ascending (x ∷ xs) = All (λ y. x ≤ y) xs × Ascending xs

pub get_elem?-All :
    (P : ℕ → Type 0) (xs : List ℕ) (i x : ℕ) → All P xs → get_elem? xs i ≡ some x → P x
unfolding get_elem?
get_elem?-All P [] i x h e = cc
get_elem?-All P (y ∷ ys) zero x h e = subst P (some-injective _ _ e) h.0
get_elem?-All P (y ∷ ys) (suc i) x h e = get_elem?-All P ys i x h.1 e

pub last-All : (P : ℕ → Type 0) (x : ℕ) (xs : List ℕ) → All P (x ∷ xs) → P (last (x ∷ xs))
unfolding last
last-All P x [] h = h.0
last-All P x (y ∷ ys) h = last-All P y ys h.1

-- An item that is found is not above a later one, nor above the last.
pub get_elem?-le :
    (xs : List ℕ) (i j x y : ℕ)
    → Ascending xs
    → i ≤ j
    → get_elem? xs i ≡ some x
    → get_elem? xs j ≡ some y
    → x ≤ y
unfolding get_elem?
get_elem?-le [] i j x y h le ex ey = cc
get_elem?-le (z ∷ zs) zero zero x y h le ex ey =
    omega (arith, some-injective _ _ ex, some-injective _ _ ey)
get_elem?-le (z ∷ zs) zero (suc j) x y h le ex ey =
    omega (arith, some-injective _ _ ex, get_elem?-All (λ w. z ≤ w) zs j y h.0 ey)
get_elem?-le (z ∷ zs) (suc i) zero x y h le ex ey = omega (arith, le)
get_elem?-le (z ∷ zs) (suc i) (suc j) x y h le ex ey =
    get_elem?-le zs i j x y h.1 (omega (arith, le)) ex ey

pub get_elem?-last : (xs : List ℕ) (i x : ℕ) → Ascending xs → get_elem? xs i ≡ some x → x ≤ last xs
unfolding get_elem? last
get_elem?-last [] i x h e = cc
get_elem?-last (y ∷ []) zero x h e = omega (arith, some-injective _ _ e)
get_elem?-last (y ∷ []) (suc i) x h e = cc
get_elem?-last (y ∷ z ∷ zs) zero x h e =
    omega (arith, some-injective _ _ e, last-All (λ w. y ≤ w) z zs h.0)
get_elem?-last (y ∷ z ∷ zs) (suc i) x h e = get_elem?-last (z ∷ zs) i x h.1 e

pub get_elem?-none_later :
    (xs : List ℕ) (i j : ℕ) → i ≤ j → get_elem? xs i ≡ none → get_elem? xs j ≡ none
unfolding get_elem?
get_elem?-none_later [] i j le e = refl
get_elem?-none_later (x ∷ xs) zero j le e = cc
get_elem?-none_later (x ∷ xs) (suc i) zero le e = absurd (omega (arith, le))
get_elem?-none_later (x ∷ xs) (suc i) (suc j) le e =
    get_elem?-none_later xs i j (omega (arith, le)) e

pub get_elem?-in_range : (xs : List ℕ) (i x : ℕ) → get_elem? xs i ≡ some x → i < length xs
unfolding get_elem?
get_elem?-in_range [] i x e = cc
get_elem?-in_range (y ∷ ys) zero x e = omega arith
get_elem?-in_range (y ∷ ys) (suc i) x e = omega (arith, get_elem?-in_range ys i x e)
