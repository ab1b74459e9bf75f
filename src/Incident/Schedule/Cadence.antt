-- ===== src/Incident/Schedule/Cadence.antt =====
-- internal/incident/service.go: how the waits of `computeInterval` grow.
use native.Mathlib.Nat.{mul-le-mul_right}
use alertmesh_new.Prelude.{
  ℕ, ◌+◌, ◌*◌, ◌≤◌, ◌<◌, none, some, List, [], ◌∷◌, length, ◌≡◌, refl, arith, All, Option-cases, ap,
  ◌∙◌, inl, inr,
}
use alertmesh_new.Incident.Schedule.{
  RepeatSchedule, get_elem?, last, cap, overflow, linear_wait, compute_interval,
}
use alertmesh_new.Incident.Schedule.Items.{
  Ascending, get_elem?-All, last-All, get_elem?-le, get_elem?-last, get_elem?-none_later,
  get_elem?-in_range,
}

-- What the schedule must satisfy: positive intervals in ascending order, none above the maximum that
-- is set.
pub record IsProgressive (s : RepeatSchedule) : Type 0 where
  pub positive : All (λ d. 0 < d) s.interval_sequence
  pub ascending : Ascending s.interval_sequence
  pub capped : 0 < s.interval_max → All (λ d. d ≤ s.interval_max) s.interval_sequence

cap_mono : (m d e : ℕ) → d ≤ e → e < 9223372036854775808 → (d ≡ 0 → e ≡ 0) → cap m d ≤ cap m e
unfolding cap
cap_mono m d e le fits zeros = ground arith

le-cap : (m x d : ℕ) → x ≤ d → d < 9223372036854775808 → 0 < x → (0 < m → x ≤ m) → x ≤ cap m d
unfolding cap
le-cap m x d le fits lt below = ground arith

cap-bound : (m d : ℕ) → 0 < m → cap m d ≤ m
unfolding cap
cap-bound m d lt = ground arith

-- The wait past the tail without bounds.
abbrev linear : RepeatSchedule → ℕ → ℕ
linear s i = last s.interval_sequence + overflow s i * s.interval_step

linear_wait_exact :
    (s : RepeatSchedule) (i : ℕ) → linear s i < 9223372036854775808 → linear_wait s i ≡ linear s i
unfolding linear_wait
linear_wait_exact s i fits = omega (arith, fits)

in_head :
    (s : RepeatSchedule) (i x : ℕ)
    → get_elem? s.interval_sequence i ≡ some x
    → compute_interval s i ≡ x
unfolding compute_interval
in_head s i x e = rw (compute_interval, e) refl

in_tail :
    (s : RepeatSchedule) (i : ℕ)
    → get_elem? s.interval_sequence i ≡ none
    → compute_interval s i ≡ cap s.interval_max (linear_wait s i)
unfolding compute_interval
in_tail s i e = rw (compute_interval, e) refl

overflow_mono : (s : RepeatSchedule) (i j : ℕ) → i ≤ j → overflow s i ≤ overflow s j
unfolding overflow
overflow_mono s i j le = ground arith

overflow-pos : (s : RepeatSchedule) (i : ℕ) → 1 ≤ overflow s i
unfolding overflow
overflow-pos s i = ground arith

linear_mono : (s : RepeatSchedule) (i j : ℕ) → i ≤ j → linear s i ≤ linear s j
linear_mono s i j le = omega (arith, mul-le-mul_right s.interval_step (overflow_mono s i j le))

mul_none : (k step : ℕ) → step ≡ 0 → k * step ≡ 0
mul_none k step e = ap (λ n. k * n) e ∙ omega arith

linear_zeros : (s : RepeatSchedule) (i j : ℕ) → linear s i ≡ 0 → linear s j ≡ 0
linear_zeros s i j z = omega (
  arith,
  z,
  mul_none (overflow s j) s.interval_step
      (omega (arith, z, mul-le-mul_right s.interval_step (overflow-pos s i))),
)

-- The last interval is that of some index, so it shares what holds of all.
last_or :
    (P : ℕ → Type 0) (xs : List ℕ) (i x : ℕ) → get_elem? xs i ≡ some x → All P xs → P (last xs)
unfolding get_elem?
last_or P [] i x e h = cc
last_or P (y ∷ ys) i x e h = last-All P y ys h

in_tail_exact :
    (s : RepeatSchedule) (i : ℕ)
    → get_elem? s.interval_sequence i ≡ none
    → linear s i < 9223372036854775808
    → compute_interval s i ≡ cap s.interval_max (linear s i)
in_tail_exact s i e fits = in_tail s i e ∙ ap (cap s.interval_max) (linear_wait_exact s i fits)

head-tail :
    (s : RepeatSchedule) (i j x : ℕ)
    → IsProgressive s
    → linear s j < 9223372036854775808
    → get_elem? s.interval_sequence i ≡ some x
    → x ≤ cap s.interval_max (linear s j)
head-tail s i j x p fits e =
    le-cap s.interval_max x (linear s j)
      (omega (arith, get_elem?-last s.interval_sequence i x p.ascending e)) fits
      (get_elem?-All _ s.interval_sequence i x p.positive e)
      (λ lt. get_elem?-All _ s.interval_sequence i x (p.capped lt) e)

compute_interval_mono :
    (s : RepeatSchedule) (i j : ℕ)
    → IsProgressive s
    → linear s j < 9223372036854775808
    → i ≤ j
    → compute_interval s i ≤ compute_interval s j
compute_interval_mono s i j p fits le = elim (Option-cases (get_elem? s.interval_sequence i)) [
  | inl ei ↦
      rw
        (
          in_tail_exact s i ei (omega (arith, fits, linear_mono s i j le)),
          in_tail_exact s j (get_elem?-none_later s.interval_sequence i j le ei) fits,
        )
        (cap_mono s.interval_max (linear s i) (linear s j) (linear_mono s i j le) fits
          (linear_zeros s i j))
  | inr (x, ei) ↦ elim (Option-cases (get_elem? s.interval_sequence j)) [
    | inl ej ↦ rw (in_head s i x ei, in_tail_exact s j ej fits) (head-tail s i j x p fits ei)
    | inr (y, ej) ↦
        rw (in_head s i x ei, in_head s j y ej)
          (get_elem?-le s.interval_sequence i j x y p.ascending le ei ej)
  ]
]

cap-pos : (m d : ℕ) → 0 < cap m d
unfolding cap
cap-pos m d = ground arith

compute_interval-pos : (s : RepeatSchedule) (i : ℕ) → IsProgressive s → 0 < compute_interval s i
compute_interval-pos s i p = elim (Option-cases (get_elem? s.interval_sequence i)) [
  | inl e ↦ rw (in_tail s i e) (cap-pos s.interval_max (linear_wait s i))
  | inr (x, e) ↦ rw (in_head s i x e) (get_elem?-All _ s.interval_sequence i x p.positive e)
]

compute_interval-bound :
    (s : RepeatSchedule) (i : ℕ)
    → IsProgressive s
    → 0 < s.interval_max
    → compute_interval s i ≤ s.interval_max
compute_interval-bound s i p lt = elim (Option-cases (get_elem? s.interval_sequence i)) [
  | inl e ↦ rw (in_tail s i e) (cap-bound s.interval_max (linear_wait s i) lt)
  | inr (x, e) ↦ rw (in_head s i x e) (get_elem?-All _ s.interval_sequence i x (p.capped lt) e)
]

-- The steps that the first `n` indices after the tail's first one take.
overflow-bound :
    (s : RepeatSchedule) (j n : ℕ) → j ≤ length s.interval_sequence + n → overflow s j ≤ n + 1
unfolding overflow
overflow-bound s j n le = ground arith

overflow-at : (s : RepeatSchedule) (n : ℕ) → overflow s (length s.interval_sequence + n) ≡ n + 1
unfolding overflow
overflow-at s n = ground arith

linear-bound :
    (s : RepeatSchedule) (j n : ℕ)
    → last s.interval_sequence + (n + 1) * s.interval_step < 9223372036854775808
    → j ≤ length s.interval_sequence + n
    → linear s j < 9223372036854775808
linear-bound s j n fits le =
    omega (arith, fits, mul-le-mul_right s.interval_step (overflow-bound s j n le))

compute_interval_saturates :
    (s : RepeatSchedule) (n : ℕ)
    → 0 < s.interval_max
    → s.interval_max ≤ (n + 1) * s.interval_step
    → last s.interval_sequence + (n + 1) * s.interval_step < 9223372036854775808
    → compute_interval s (length s.interval_sequence + n) ≡ s.interval_max
unfolding cap
compute_interval_saturates s n max reached fits =
    elim (Option-cases (get_elem? s.interval_sequence at)) [
      | inl e ↦ in_tail_exact s at e inside ∙ past_cap s.interval_max (linear s at) far inside max
      | inr (x, e) ↦ absurd (omega (arith, get_elem?-in_range s.interval_sequence at x e))
    ]
  where
    at : ℕ
    at = length s.interval_sequence + n

    past_cap : (m d : ℕ) → m ≤ d → d < 9223372036854775808 → 0 < m → cap m d ≡ m
    past_cap m d le in_range lt = ground arith

    inside : linear s at < 9223372036854775808
    inside = linear-bound s at n fits (omega arith)

    far : s.interval_max ≤ linear s at
    far = omega (arith, reached, ap (λ k. k * s.interval_step) (overflow-at s n))

-- Under a progressive schedule with a maximum, every wait is positive and within the maximum, at
-- whatever index, also if the product wraps around. If `n + 1` steps reach the maximum, and added to
-- the last interval they fit in an int64, then up to the `n`-th index past the sequence the waits
-- never get shorter, and at that index the wait is the maximum.
pub compute_interval-IsCadence :
    (s : RepeatSchedule) (i j k n : ℕ)
    → IsProgressive s
    → 0 < s.interval_max
    → s.interval_max ≤ (n + 1) * s.interval_step
    → last s.interval_sequence + (n + 1) * s.interval_step < 9223372036854775808
    → i ≤ j
    → j ≤ length s.interval_sequence + n
    → (0 < compute_interval s k)
      × (compute_interval s k ≤ s.interval_max)
      × (compute_interval s i ≤ compute_interval s j)
      × (compute_interval s (length s.interval_sequence + n) ≡ s.interval_max)
compute_interval-IsCadence s i j k n p max reached fits le short = (
  compute_interval-pos s k p,
  compute_interval-bound s k p max,
  compute_interval_mono s i j p (linear-bound s j n fits short) le,
  compute_interval_saturates s n max reached fits,
)
