-- ===== src/Engine/Silence.antt =====
-- internal/engine/silence.go, and `loadSilences` of internal/engine/pipeline.go.
pub mod Windows
use alertmesh_new.Prelude.{
  ℕ, String, Bool, true, false, ◌||◌, ◌&&◌, Option, none, some, List, [], ◌∷◌, map, ltb, leb,
  if◌then◌else◌,
}
use alertmesh_new.Engine.Alert.{RawAlert}
use alertmesh_new.Engine.Matcher.{Regexp, MatcherJson, LabelMatcher, unmarshal, matches_all}

pub record SilenceRule : Type 0 where
  pub name : String
  pub matchers : List LabelMatcher
  pub starts_at : ℕ
  pub ends_at : ℕ

-- A row of `silence_policies`; the matchers are `none` where they do not decode.
pub record SilenceRow : Type 0 where
  pub name : String
  pub is_active : Bool
  pub matchers : Option (List MatcherJson)
  pub starts_at : ℕ
  pub ends_at : ℕ

-- `IsSilenced`; `now.Before(t)` is `ltb now t`, `now.After(t)` is `ltb t now`.
unfoldable pub is_silenced : Regexp → List SilenceRule → ℕ → RawAlert → Bool
is_silenced rx [] now alert = false
is_silenced rx (r ∷ rs) now alert =
    let rest = is_silenced rx rs now alert in
    if ltb now r.starts_at || ltb r.ends_at now
    then rest
    else if matches_all rx r.matchers alert.labels
    then true
    else rest

-- WHERE is_active AND starts_at <= now AND ends_at >= now
unfoldable pub select_silences : ℕ → List SilenceRow → List SilenceRow
select_silences now [] = []
select_silences now (r ∷ rs) =
    let rest = select_silences now rs in
    if r.is_active && leb r.starts_at now && leb now r.ends_at then r ∷ rest else rest

unfoldable pub silence_rules : List SilenceRow → List SilenceRule
silence_rules [] = []
silence_rules (r ∷ rs) =
    let rest = silence_rules rs in
    elim r.matchers [
      | none ↦ rest
      | some ms ↦
          record {
            name = r.name;
            matchers = map unmarshal ms;
            starts_at = r.starts_at;
            ends_at = r.ends_at;
          }
          ∷ rest
    ]

-- `loadSilences` at time `now` over the whole table; a failed query (`none`) keeps the old rules.
unfoldable pub load_silences : ℕ → Option (List SilenceRow) → List SilenceRule → List SilenceRule
unfolding select_silences silence_rules
load_silences now none rules = rules
load_silences now (some table) rules = silence_rules (select_silences now table)
