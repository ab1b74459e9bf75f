-- ===== src/Engine/Dedup/Claims.antt =====
-- internal/engine/dedup.go: what holds of the entry, the calls and the passes at any time, and the steps
-- of one call.
use mathlib.Core.Option.{some-injective}
use alertmesh_new.Prelude.{
  ℕ, ◌+◌, ◌≤◌, false, Option, none, some, List, [], ◌∷◌, ◌≡◌, ◌≢◌, refl, sym, ap, ◌∙◌, inl, inr,
  arith, All, ◌==◌, Bool-cases,
}
use alertmesh_new.Engine.Dedup.Race.{
  SeenEntry, Pc, idle, loading, swapping, returned, System, update, moved, stored, init,
}

-- Each call that passed took its entry at least `ttl` after the time that any earlier one had read.
abbrev pub Spaced : ℕ → List (ℕ × ℕ) → Type 0
Spaced ttl [] = Unit
Spaced ttl (x ∷ rest) = All (λ y. y.0 + ttl ≤ x.1) rest × Spaced ttl rest

-- The last pass still counts in the entry, or its time is over.
abbrev pub Current : ℕ → ℕ → Option SeenEntry → List (ℕ × ℕ) → Type 0
Current ttl clock none [] = Unit
Current ttl clock none (x ∷ rest) = x.0 + ttl ≤ clock
Current ttl clock (some e) [] = ⊥
Current ttl clock (some e) (x ∷ rest) = e.expires_at ≡ x.0 + ttl

abbrev pub tail_of : List (ℕ × ℕ) → List (ℕ × ℕ)
tail_of [] = []
tail_of (x ∷ rest) = rest

-- What the local variables of a call say.
abbrev pub Local : System → Pc → Type 0
Local s (loading now) = now ≤ s.clock
Local s (swapping now old) =
    (now ≤ s.clock)
    × (old.expires_at ≤ now)
    × (s.pc old.owner ≡ returned false)
    × ((e : SeenEntry) → s.seen ≡ some e → e.owner ≡ old.owner → e.expires_at ≡ old.expires_at)
Local s p = Unit

pub record Inv (ttl : ℕ) (s : System) : Type 0 where
  pub owned : (e : SeenEntry) → s.seen ≡ some e → s.pc e.owner ≡ returned false
  pub local : (i : ℕ) → Local s (s.pc i)
  pub current : s.early ≡ 0 → Current ttl s.clock s.seen s.passed
  pub past : s.early ≡ 0 → All (λ x. x.0 + ttl ≤ s.clock) (tail_of s.passed)
  pub spaced : s.early ≡ 0 → Spaced ttl s.passed

pub init-Inv : (ttl : ℕ) → Inv ttl init
init-Inv ttl = record {
  owned = λ e h. cc;
  local = λ i. tt;
  current = λ h. tt;
  past = λ h. tt;
  spaced = λ h. tt;
}

pub Current-later :
    (ttl c d : ℕ) (o : Option SeenEntry) (xs : List (ℕ × ℕ))
    → c ≤ d
    → Current ttl c o xs
    → Current ttl d o xs
Current-later ttl c d none [] le h = tt
Current-later ttl c d none (x ∷ xs) le h = omega arith
Current-later ttl c d (some e) [] le h = absurd h
Current-later ttl c d (some e) (x ∷ xs) le h = h

update_same : (f : ℕ → Pc) (i : ℕ) (p : Pc) → update f i p i ≡ p
update_same f i p = ground arith

update_other :
    (f : ℕ → Pc) (i : ℕ) (p : Pc) (j : ℕ)
    → f i ≢ returned false
    → f j ≡ returned false
    → update f i p j ≡ returned false
update_other f i p j ne h = elim (Bool-cases (i == j)) [
  | inl same ↦ absurd (ne (ground (arith, h)))
  | inr other ↦ rw other h
]

-- The claims last while time passes, calls return and entries go.
pub Local-later :
    (s t : System) (q : Pc)
    → s.clock ≤ t.clock
    → ((j : ℕ) → s.pc j ≡ returned false → t.pc j ≡ returned false)
    → ((e : SeenEntry) → t.seen ≡ some e → s.seen ≡ some e)
    → Local s q
    → Local t q
Local-later s t idle le pcs seen l = tt
Local-later s t (loading now) le pcs seen l = omega (arith, le, l)
Local-later s t (swapping now old) le pcs seen l =
    (omega (arith, le, l.0), l.1, pcs old.owner l.2, λ e h. l.3 e (seen e h))
Local-later s t (returned b) le pcs seen l = tt

-- A move of one call that takes no entry.
pub moved-Inv :
    {ttl : ℕ} {s : System} (i : ℕ) (p : Pc)
    → Inv ttl s
    → s.pc i ≢ returned false
    → Local s p
    → Inv ttl (moved s i p)
moved-Inv {ttl} {s} i p v ne l = record {
  owned = λ e h. update_other s.pc i p e.owner ne (v.owned e h);
  local = λ j. elim (Bool-cases (i == j)) [
    | inl same ↦ rw same (after p l)
    | inr other ↦ rw other (after (s.pc j) (v.local j))
  ];
  current = v.current;
  past = v.past;
  spaced = v.spaced;
}
  where
    after : (q : Pc) → Local s q → Local (moved s i p) q
    after q =
        Local-later s (moved s i p) q (omega arith) (λ j. update_other s.pc i p j ne) (λ e h. h)

Local-stored :
    (s : System) (ttl i now : ℕ) (q : Pc)
    → s.pc i ≢ returned false
    → Local s q
    → Local (stored s ttl i now) q
Local-stored s ttl i now idle ne l = tt
Local-stored s ttl i now (loading n) ne l = l
Local-stored s ttl i now (swapping n old) ne l = (
  l.0,
  l.1,
  update_other s.pc i (returned false) old.owner ne l.2,
  λ e h same. absurd (ne (rw (ap (λ x. x.owner) (some-injective _ _ h) ∙ same) l.2)),
)
Local-stored s ttl i now (returned b) ne l = tt

-- A call that takes the entry when every earlier pass is over.
pub stored-Inv :
    {ttl : ℕ} {s : System} (i now : ℕ)
    → Inv ttl s
    → s.pc i ≢ returned false
    → (s.early ≡ 0 → All (λ x. x.0 + ttl ≤ s.clock) s.passed)
    → Inv ttl (stored s ttl i now)
stored-Inv {ttl} {s} i now v ne over = record {
  owned = λ e h.
      rw (sym (ap (λ x. x.owner) (some-injective _ _ h))) (update_same s.pc i (returned false));
  local = λ j. elim (Bool-cases (i == j)) [
    | inl same ↦ rw same tt
    | inr other ↦ rw other (Local-stored s ttl i now (s.pc j) ne (v.local j))
  ];
  current = λ h. refl;
  past = over;
  spaced = λ h. (over h, v.spaced h);
}
