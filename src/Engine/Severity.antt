-- ===== src/Engine/Severity.antt =====
-- internal/engine/aggregation.go: `severityRank`, `mapSeverity` and `maxSeverity`.
pub mod Rank
use alertmesh_new.Prelude.{ℕ, String, Option, none, some, str_eq, ltb, if◌then◌else◌}

-- `severityRank`; a missing key reads as 0.
unfoldable pub severity_rank : String → Option ℕ
severity_rank s =
    if str_eq s "P0"
    then some 4
    else if str_eq s "critical"
    then some 4
    else if str_eq s "P1"
    then some 3
    else if str_eq s "P2"
    then some 2
    else if str_eq s "warning"
    then some 2
    else if str_eq s "P3"
    then some 1
    else if str_eq s "info"
    then some 1
    else none

unfoldable pub rank_of : String → ℕ
unfolding severity_rank
rank_of s = elim (severity_rank s) [ none ↦ 0 | some r ↦ r ]

unfoldable pub map_severity : String → String
unfolding severity_rank
map_severity s =
    if str_eq s "critical"
    then "P1"
    else if str_eq s "warning"
    then "P2"
    else if str_eq s "info"
    then "P3"
    else elim (severity_rank s) [ none ↦ "P3" | some r ↦ s ]

unfoldable pub max_severity : String → String → String
unfolding map_severity rank_of
max_severity a b = if ltb (rank_of a) (rank_of (map_severity b)) then map_severity b else a
