-- ===== src/Engine/Severity/Rank.antt =====
-- internal/engine/aggregation.go: the severity of a group is the worst of its alerts.
use Prim.Native.Nat.{max}
use alertmesh_new.Prelude.{
  String, ◌≡◌, ◌⊎◌, inl, inr, arith, eq_iff, Bool-cases, ltb→lt, not_ltb→le, ltb,
}
use alertmesh_new.Engine.Severity.{rank_of, map_severity, max_severity}

-- One of the four levels that the incident layer knows.
abbrev pub IsLevel : String → Type 0
IsLevel s = (s ≡ "P0") ⊎ (s ≡ "P1") ⊎ (s ≡ "P2") ⊎ (s ≡ "P3")

-- `mapSeverity` always answers with a level, and leaves a level as it is.
pub map_severity-IsLevel : (s : String) → IsLevel (map_severity s)
unfolding map_severity
map_severity-IsLevel s = ground (
  arith,
  eq_iff s "critical",
  eq_iff s "warning",
  eq_iff s "info",
  eq_iff s "P0",
  eq_iff s "P1",
  eq_iff s "P2",
  eq_iff s "P3",
)

-- `maxSeverity` answers with one of the two, whichever ranks higher.
pub rank_of-max_severity :
    (a b : String) → rank_of (max_severity a b) ≡ max (rank_of a) (rank_of (map_severity b))
unfolding max_severity
rank_of-max_severity a b = elim (Bool-cases (ltb (rank_of a) (rank_of (map_severity b)))) [
  | inl h ↦ rw h (omega (arith, ltb→lt _ _ h))
  | inr h ↦ rw h (omega (arith, not_ltb→le _ _ h))
]

pub max_severity-IsLevel : (a b : String) → IsLevel a → IsLevel (max_severity a b)
unfolding max_severity
max_severity-IsLevel a b h = elim (Bool-cases (ltb (rank_of a) (rank_of (map_severity b)))) [
  | inl e ↦ rw e (map_severity-IsLevel b)
  | inr e ↦ rw e h
]
