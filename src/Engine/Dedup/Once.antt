-- ===== src/Engine/Dedup/Once.antt =====
-- internal/engine/dedup.go: how often concurrent calls let a fingerprint through.
use mathlib.Core.Option.{some-injective}
use alertmesh_new.Prelude.{
  ℕ, ◌+◌, ◌≤◌, true, Option, none, some, List, [], ◌∷◌, ◌≡◌, sym, ap, subst, ◌∙◌, arith, All,
  All-imp,
}
use alertmesh_new.Engine.Dedup.Race.{
  SeenEntry, loading, swapping, returned, System, later, deleted, lost, Step, time_passes,
  read_clock, store, hit, stale, swap, swap_fails, visit, delete, Reach, here, next,
}
use alertmesh_new.Engine.Dedup.Claims.{
  Spaced, Current, tail_of, Local, Inv, init-Inv, Current-later, Local-later, moved-Inv, stored-Inv,
}

over_none :
    (ttl c : ℕ) (xs : List (ℕ × ℕ))
    → Current ttl c none xs
    → All (λ x. x.0 + ttl ≤ c) (tail_of xs)
    → All (λ x. x.0 + ttl ≤ c) xs
over_none ttl c [] h past = tt
over_none ttl c (x ∷ xs) h past = (h, past)

over_some :
    (ttl c : ℕ) (e : SeenEntry) (xs : List (ℕ × ℕ))
    → e.expires_at ≤ c
    → Current ttl c (some e) xs
    → All (λ x. x.0 + ttl ≤ c) (tail_of xs)
    → All (λ x. x.0 + ttl ≤ c) xs
over_some ttl c e [] le h past = tt
over_some ttl c e (x ∷ xs) le h past = (omega (arith, h), past)

swap_over :
    {ttl : ℕ} {s : System} (now : ℕ) (old e : SeenEntry)
    → Inv ttl s
    → s.seen ≡ some e
    → e.owner ≡ old.owner
    → Local s (swapping now old)
    → s.early ≡ 0
    → All (λ x. x.0 + ttl ≤ s.clock) s.passed
swap_over {ttl} {s} now old e v h same l ok =
    over_some ttl s.clock e s.passed (omega (arith, l.0, l.1, l.3 e h same))
      (subst (λ o. Current ttl s.clock o s.passed) h (v.current ok)) (v.past ok)

store_over :
    {ttl : ℕ} {s : System}
    → Inv ttl s
    → s.seen ≡ none
    → s.early ≡ 0
    → All (λ x. x.0 + ttl ≤ s.clock) s.passed
store_over {ttl} {s} v h ok =
    over_none ttl s.clock s.passed (subst (λ o. Current ttl s.clock o s.passed) h (v.current ok))
      (v.past ok)

Current-lost :
    (ttl c : ℕ) (o : Option SeenEntry) (xs : List (ℕ × ℕ))
    → lost c o ≡ 0
    → Current ttl c o xs
    → Current ttl c none xs
Current-lost ttl c none xs z h = h
Current-lost ttl c (some e) [] z h = tt
Current-lost ttl c (some e) (x ∷ xs) z h = ground (arith, h, z)

delete-Inv : {ttl : ℕ} {s : System} → Inv ttl s → Inv ttl (deleted s)
delete-Inv {ttl} {s} v = record {
  owned = λ e h. cc;
  local = λ i. Local-later s (deleted s) (s.pc i) (omega arith) (λ j h. h) (λ e h. cc) (v.local i);
  current = λ h.
      Current-lost ttl s.clock s.seen s.passed (omega (arith, h)) (v.current (omega (arith, h)));
  past = λ h. v.past (omega (arith, h));
  spaced = λ h. v.spaced (omega (arith, h));
}

time-Inv : {ttl : ℕ} {s : System} (n : ℕ) → Inv ttl s → Inv ttl (later s n)
time-Inv {ttl} {s} n v = record {
  owned = v.owned;
  local = λ i. Local-later s (later s n) (s.pc i) (omega arith) (λ j h. h) (λ e h. h) (v.local i);
  current =
      λ h. Current-later ttl s.clock (s.clock + n) s.seen s.passed (omega arith) (v.current h);
  past = λ h. All-imp _ _ (tail_of s.passed) (λ x le. omega (arith, le)) (v.past h);
  spaced = v.spaced;
}

Step-Inv : {ttl : ℕ} {s t : System} → Step ttl s t → Inv ttl s → Inv ttl t
Step-Inv (time_passes n) v = time-Inv n v
Step-Inv {ttl} {s} (read_clock i at) v = moved-Inv i (loading s.clock) v (λ h. cc) (omega arith)
Step-Inv (store i now at free) v = stored-Inv i now v (λ h. cc) (store_over v free)
Step-Inv (hit i now e at there alive) v = moved-Inv i (returned true) v (λ h. cc) tt
Step-Inv {ttl} {s} (stale i now e at there over) v =
    moved-Inv i (swapping now e) v (λ h. cc)
      (
        subst (Local s) at (v.local i),
        over,
        v.owned e there,
        λ d h same. ap (λ x. x.expires_at) (some-injective _ _ (sym h ∙ there)),
      )
Step-Inv {ttl} {s} (swap i now old e at there same) v =
    stored-Inv i now v (λ h. cc) (swap_over now old e v there same (subst (Local s) at (v.local i)))
Step-Inv {ttl} {s} (swap_fails i now old at other) v =
    moved-Inv i (loading now) v (λ h. cc) (omega (arith, (subst (Local s) at (v.local i)).0))
Step-Inv (visit e at there over) v = record {
  owned = v.owned;
  local = v.local;
  current = v.current;
  past = v.past;
  spaced = v.spaced;
}
Step-Inv (delete e at) v = delete-Inv v

Reach-Inv : {ttl : ℕ} {s : System} → Reach ttl s → Inv ttl s
Reach-Inv {ttl} here = init-Inv ttl
Reach-Inv (next r step) = Step-Inv step (Reach-Inv r)

-- However many calls race on a fingerprint, as long as the clean-up has deleted no entry that had not
-- expired, a call that returns false takes its entry at least `ttl` after the time that any earlier
-- such call had read off the clock. The times at which they take their entries may be closer.
pub passed-Spaced : (ttl : ℕ) {s : System} → Reach ttl s → s.early ≡ 0 → Spaced ttl s.passed
passed-Spaced ttl r = (Reach-Inv r).spaced
