-- ===== src/Incident/Schedule.antt =====
-- internal/incident/service.go: the repeat schedule, `computeInterval`, `tierFor` and `nextTier`.
--
-- Durations are numbers of nanoseconds. A schedule comes from `repeatSchedule`, which keeps positive
-- intervals only, and the index is a column that starts at 0 and is only incremented or reset, so
-- neither is ever negative. The wait past the tail is computed in an int64, given as its 64 bits; 2^63
-- and more are negative.
pub mod Items
pub mod Cadence
use alertmesh_new.Prelude.{
  ℕ, ◌+◌, ◌-◌, ◌*◌, ◌%◌, zero, suc, String, Bool, ◌&&◌, Option, none, some, List, [], ◌∷◌, length,
  ltb, str_eq, if◌then◌else◌, trim_space, to_upper,
}
use alertmesh_new.Engine.Dedup.{second}

pub record ScheduleTier : Type 0 where
  pub severity : String
  pub dwell : ℕ  -- 0: terminal
  pub tag : String

pub record RepeatSchedule : Type 0 where
  pub interval_sequence : List ℕ
  pub interval_step : ℕ
  pub interval_max : ℕ
  pub severity_chain : List ScheduleTier

-- s[i] within the bounds.
unfoldable pub get_elem? : List ℕ → ℕ → Option ℕ
get_elem? [] i = none
get_elem? (x ∷ xs) zero = some x
get_elem? (x ∷ xs) (suc i) = get_elem? xs i

-- The last item, or 0.
unfoldable pub last : List ℕ → ℕ
last [] = 0
last (x ∷ []) = x
last (x ∷ y ∷ ys) = last (y ∷ ys)

-- The bits of an int64 that is greater than a bound.
abbrev pub above : ℕ → ℕ → Bool
above bound d = ltb bound d && ltb d 9223372036854775808

-- The `switch` of `computeInterval`, on the bits of `d`.
unfoldable pub cap : ℕ → ℕ → ℕ
cap interval_max d =
    if ltb 0 interval_max
    then (if above interval_max d then interval_max else if above 0 d then d else interval_max)
    else if above 0 d
    then d
    else 30 * (60 * second)

-- The steps past the tail.
unfoldable pub overflow : RepeatSchedule → ℕ → ℕ
overflow s seq_index =
    let steps = seq_index + 1 - length s.interval_sequence in if ltb steps 1 then 1 else steps

-- base + time.Duration(overflow)*s.IntervalStep
unfoldable pub linear_wait : RepeatSchedule → ℕ → ℕ
unfolding last overflow
linear_wait s seq_index =
    (last s.interval_sequence + overflow s seq_index * s.interval_step) % 18446744073709551616

unfoldable pub compute_interval : RepeatSchedule → ℕ → ℕ
unfolding get_elem? cap linear_wait
compute_interval s seq_index = elim (get_elem? s.interval_sequence seq_index) [
  | some interval ↦ interval
  | none ↦ cap s.interval_max (linear_wait s seq_index)
]

unfoldable pub tier_in : List ScheduleTier → String → Option ScheduleTier
tier_in [] sev = none
tier_in (tier ∷ tiers) sev =
    if str_eq (to_upper tier.severity) sev then some tier else tier_in tiers sev

unfoldable pub tier_for : List ScheduleTier → String → Option ScheduleTier
unfolding tier_in trim_space to_upper
tier_for chain severity = tier_in chain (to_upper (trim_space severity))

unfoldable pub next_in : List ScheduleTier → String → Option ScheduleTier
next_in [] sev = none
next_in (tier ∷ []) sev = none
next_in (tier ∷ next ∷ tiers) sev =
    if str_eq (to_upper tier.severity) sev then some next else next_in (next ∷ tiers) sev

unfoldable pub next_tier : List ScheduleTier → String → Option ScheduleTier
unfolding next_in trim_space to_upper
next_tier chain severity = next_in chain (to_upper (trim_space severity))
