-- ===== src/Engine/Dedup/Window.antt =====
-- internal/engine/dedup.go against its contract: one alert of each fingerprint in every TTL.
use alertmesh_new.Prelude.{
  ℕ, ◌+◌, ◌≤◌, String, Bool, false, Option, none, some, List, [], ◌∷◌, Assoc, lookup, insert,
  lookup-insert, ◌≡◌, refl, ap, subst, ◌∙◌, inl, inr, arith, eq_iff, eq_refl, Bool-cases, Unique,
  insert-Unique, ltb, str_eq, if◌then◌else◌,
}
use alertmesh_new.Engine.Dedup.{DedupEntry, Deduplicator, is_duplicate, drop_expired, sweep}

-- What the deduplicator is asked to do, with the time of each request.
pub data Op : Type 0 where
  ask : ℕ → String → Op
  tick : ℕ → Op

abbrev pub time_of : Op → ℕ
time_of (ask now fp) = now
time_of (tick now) = now

-- The times never go back, from `t` on.
abbrev pub Monotone : ℕ → List Op → Type 0
Monotone t [] = Unit
Monotone t (o ∷ os) = (t ≤ time_of o) × Monotone (time_of o) os

-- The answers to the requests, in order.
unfoldable pub verdicts : Deduplicator → List Op → List Bool
verdicts d [] = []
verdicts d (ask now fp ∷ os) = let (d', dup) = is_duplicate d now fp in dup ∷ verdicts d' os
verdicts d (tick now ∷ os) = verdicts (sweep d now) os

-- The contract: for each fingerprint the time of the last alert that was let through; an alert is
-- let through if that is at least `ttl` ago. The clock's ticks do nothing.
abbrev pub Spec : Type 0
Spec = String → Option ℕ

unfoldable pub spec_dup : ℕ → Spec → ℕ → String → Bool
spec_dup ttl s now fp = elim (s fp) [ none ↦ false | some a ↦ ltb now (a + ttl) ]

unfoldable pub spec_verdicts : ℕ → Spec → List Op → List Bool
unfolding spec_dup
spec_verdicts ttl s [] = []
spec_verdicts ttl s (ask now fp ∷ os) =
    let dup = spec_dup ttl s now fp in
    dup ∷ spec_verdicts ttl (λ k. if str_eq fp k then (if dup then s k else some now) else s k) os
spec_verdicts ttl s (tick now ∷ os) = spec_verdicts ttl s os

lookup-drop_expired-none :
    (t : ℕ) (fp : String) (m : Assoc DedupEntry)
    → lookup fp m ≡ none
    → lookup fp (drop_expired t m) ≡ none
unfolding lookup drop_expired
lookup-drop_expired-none t fp [] h = refl
lookup-drop_expired-none t fp ((k, e) ∷ m) h = ground (arith, lookup-drop_expired-none t fp m)

abbrev live : ℕ → Option DedupEntry → Option DedupEntry
live t none = none
live t (some e) = if ltb e.expires_at t then none else some e

lookup-drop_expired :
    (t : ℕ) (fp : String) (m : Assoc DedupEntry)
    → Unique m
    → lookup fp (drop_expired t m) ≡ live t (lookup fp m)
unfolding lookup drop_expired
lookup-drop_expired t fp [] u = refl
lookup-drop_expired t fp ((k, e) ∷ m) u =
    ground (arith, eq_iff k fp, lookup-drop_expired t fp m u.1, lookup-drop_expired-none t fp m)

drop_expired-Unique : (t : ℕ) (m : Assoc DedupEntry) → Unique m → Unique (drop_expired t m)
unfolding drop_expired
drop_expired-Unique t [] u = tt
drop_expired-Unique t ((k, e) ∷ m) u =
    ground (arith, drop_expired-Unique t m u.1, lookup-drop_expired-none t k m)

-- An entry stands for the last alert let through; a missing one for none, or for one whose TTL is
-- over.
abbrev Stands : ℕ → ℕ → Option DedupEntry → Option ℕ → Type 0
Stands t ttl none none = Unit
Stands t ttl none (some a) = a + ttl ≤ t
Stands t ttl (some e) none = ⊥
Stands t ttl (some e) (some a) = e.expires_at ≡ a + ttl

record Agrees (t : ℕ) (d : Deduplicator) (s : Spec) : Type 0 where
  unique : Unique d.seen
  at : (fp : String) → Stands t d.ttl (lookup fp d.seen) (s fp)

abbrev note : Bool → ℕ → String → Spec → Spec
note dup now fp s k = if str_eq fp k then (if dup then s k else some now) else s k

is_duplicate-eq-spec_dup :
    {t : ℕ} {d : Deduplicator} {s : Spec} (now : ℕ) (fp : String)
    → Agrees t d s
    → t ≤ now
    → (is_duplicate d now fp).1 ≡ spec_dup d.ttl s now fp
unfolding is_duplicate spec_dup
is_duplicate-eq-spec_dup now fp g le = ground (arith, g.at fp)

ttl-is_duplicate :
    (d : Deduplicator) (now : ℕ) (fp : String) → (is_duplicate d now fp).0.ttl ≡ d.ttl
unfolding is_duplicate
ttl-is_duplicate d now fp = ground arith

-- Every request stores one entry.
entry_after : Deduplicator → ℕ → String → DedupEntry
entry_after d now fp =
    let fresh : DedupEntry = record { expires_at = now + d.ttl; count = 1 } in
    elim (lookup fp d.seen) [
      | none ↦ fresh
      | some entry ↦
          if ltb now entry.expires_at then record entry { count = entry.count + 1 } else fresh
    ]

seen-is_duplicate :
    (d : Deduplicator) (now : ℕ) (fp : String)
    → (is_duplicate d now fp).0.seen ≡ insert fp (entry_after d now fp) d.seen
unfolding is_duplicate entry_after
seen-is_duplicate d now fp = ground arith

entry_after-Stands :
    {t : ℕ} {d : Deduplicator} {s : Spec} (now : ℕ) (fp : String)
    → Agrees t d s
    → t ≤ now
    → Stands now d.ttl
        (some (entry_after d now fp))
        (if (is_duplicate d now fp).1 then s fp else some now)
unfolding is_duplicate entry_after
entry_after-Stands {t} {d} {s} now fp g le = ground (arith, g.at fp)

Stands-later :
    (t now ttl : ℕ) (o : Option DedupEntry) (a : Option ℕ)
    → t ≤ now
    → Stands t ttl o a
    → Stands now ttl o a
Stands-later t now ttl none none le h = tt
Stands-later t now ttl none (some a) le h = omega arith
Stands-later t now ttl (some e) (some a) le h = h
Stands-later t now ttl (some e) none le h = absurd h

is_duplicate-Stands :
    {t : ℕ} {d : Deduplicator} {s : Spec} (now : ℕ) (fp k : String)
    → Agrees t d s
    → t ≤ now
    → Stands now d.ttl
        (lookup k (is_duplicate d now fp).0.seen)
        (note (is_duplicate d now fp).1 now fp s k)
is_duplicate-Stands {t} {d} {s} now fp k g le =
    rw (seen-is_duplicate d now fp, lookup-insert fp k (entry_after d now fp) d.seen)
      (elim (Bool-cases (str_eq fp k)) [
        | inl e ↦
            let same : fp ≡ k = (eq_iff fp k).0 e in
            subst
              (λ q.
                Stands now d.ttl
                  (if str_eq fp q then some (entry_after d now fp) else lookup q d.seen)
                  (note (is_duplicate d now fp).1 now fp s q))
              same (rw eq_refl (entry_after-Stands now fp g le))
        | inr e ↦ rw e (Stands-later t now d.ttl _ _ le (g.at k))
      ])

is_duplicate-Agrees :
    {t : ℕ} {d : Deduplicator} {s : Spec} (now : ℕ) (fp : String)
    → Agrees t d s
    → t ≤ now
    → Agrees now (is_duplicate d now fp).0 (note (is_duplicate d now fp).1 now fp s)
is_duplicate-Agrees {t} {d} {s} now fp g le = record {
  unique =
      rw (seen-is_duplicate d now fp) (insert-Unique fp (entry_after d now fp) d.seen g.unique);
  at = λ k. rw (ttl-is_duplicate d now fp) (is_duplicate-Stands now fp k g le);
}

sweep-Agrees :
    {t : ℕ} {d : Deduplicator} {s : Spec} (now : ℕ)
    → Agrees t d s
    → t ≤ now
    → Agrees now (sweep d now) s
unfolding sweep
sweep-Agrees {t} {d} {s} now g le = record {
  unique = drop_expired-Unique now d.seen g.unique;
  at = λ k. rw (lookup-drop_expired now k d.seen g.unique) (ground (arith, g.at k));
}

verdicts-eq :
    (ops : List Op) {t : ℕ} {d : Deduplicator} {s : Spec}
    → Agrees t d s
    → Monotone t ops
    → verdicts d ops ≡ spec_verdicts d.ttl s ops
unfolding verdicts spec_verdicts sweep
verdicts-eq [] g m = refl
verdicts-eq (ask now fp ∷ os) {t} {d} {s} g m =
    let dup = (is_duplicate d now fp).1 in
    ap (◌∷◌ dup) (
      verdicts-eq os (is_duplicate-Agrees now fp g m.0) m.1
      ∙ ap (λ ttl. spec_verdicts ttl (note dup now fp s) os) (ttl-is_duplicate d now fp))
    ∙ ap (λ b. b ∷ spec_verdicts d.ttl (note b now fp s) os) (is_duplicate-eq-spec_dup now fp g m.0)
verdicts-eq (tick now ∷ os) g m = verdicts-eq os (sweep-Agrees now g m.0) m.1

-- Over any requests and clean-up ticks whose times never go back, a new deduplicator answers as the
-- contract does: an alert is a duplicate exactly when the last alert of its fingerprint that was let
-- through is less than `ttl` ago.
pub verdicts-eq-spec_verdicts :
    (ttl : ℕ) (ops : List Op)
    → Monotone 0 ops
    → verdicts (record { seen = []; ttl = ttl }) ops ≡ spec_verdicts ttl (λ k. none) ops
unfolding lookup
verdicts-eq-spec_verdicts ttl ops m = verdicts-eq ops (record { unique = tt; at = λ fp. tt }) m
