-- ===== src/Engine/Inhibit.antt =====
-- internal/engine/inhibition.go, and `loadInhibits` of internal/engine/pipeline.go. The mutex makes
-- each operation one step; a map of sources is walked in the order of the list.
pub mod Active
use alertmesh_new.Prelude.{
  ℕ, ◌+◌, ◌*◌, String, Bool, true, false, Option, none, some, List, [], ◌∷◌, map, Assoc, get,
  insert, str_eq, ltb, if◌then◌else◌,
}
use alertmesh_new.Engine.Alert.{RawAlert}
use alertmesh_new.Engine.Matcher.{Regexp, MatcherJson, LabelMatcher, unmarshal, matches_all}
use alertmesh_new.Engine.Dedup.{second}
use alertmesh_new.Engine.Router.{or_nil}

pub record InhibitRule : Type 0 where
  pub name : String
  pub source_matchers : List LabelMatcher
  pub target_matchers : List LabelMatcher
  pub equal : List String

pub record SourceEntry : Type 0 where
  pub labels : Assoc String
  pub expires_at : ℕ

pub record Inhibitor : Type 0 where
  pub rules : List InhibitRule
  pub sources : Assoc SourceEntry
  pub ttl : ℕ

-- `NewInhibitor`, with `defaultInhibitSourceTTL` of ten minutes.
unfoldable pub new_inhibitor : Inhibitor
new_inhibitor = record { rules = []; sources = []; ttl = 10 * 60 * second }

-- `SetRules`; the copy is the list itself.
unfoldable pub set_inhibit_rules : Inhibitor → List InhibitRule → Inhibitor
set_inhibit_rules i rules = record i { rules = rules }

-- `equalLabels`
unfoldable pub equal_labels : List String → Assoc String → Assoc String → Bool
equal_labels [] a b = true
equal_labels (k ∷ ks) a b =
    let rest = equal_labels ks a b in if str_eq (get a k) (get b k) then rest else false

module _ (rx : Regexp) where
  -- The loop of `Track`: whether some rule has the labels as a source.
  is_source : List InhibitRule → Assoc String → Bool
  is_source [] labels = false
  is_source (r ∷ rs) labels =
      let rest = is_source rs labels in
      if matches_all rx r.source_matchers labels then true else rest

  unfoldable pub track : Inhibitor → ℕ → RawAlert → Inhibitor
  unfolding is_source
  track i now alert =
      if is_source i.rules alert.labels
      then (record i {
        sources =
            insert alert.fingerprint (record { labels = alert.labels; expires_at = now + i.ttl })
              i.sources;
      })
      else i

  -- The inner loop of `IsInhibited`, over the sources.
  any_source : InhibitRule → Assoc SourceEntry → ℕ → Assoc String → Bool
  any_source rule [] now labels = false
  any_source rule ((fp, src) ∷ m) now labels =
      let rest = any_source rule m now labels in
      if ltb src.expires_at now
      then rest
      else if matches_all rx rule.source_matchers src.labels
      then (if equal_labels rule.equal src.labels labels then true else rest)
      else rest

  any_rule : List InhibitRule → Assoc SourceEntry → ℕ → Assoc String → Bool
  unfolding any_source
  any_rule [] m now labels = false
  any_rule (rule ∷ rules) m now labels =
      let rest = any_rule rules m now labels in
      if matches_all rx rule.target_matchers labels
      then (if any_source rule m now labels then true else rest)
      else rest

  -- `IsInhibited`, of a group by its labels.
  unfoldable pub is_inhibited : Inhibitor → ℕ → Assoc String → Bool
  unfolding any_rule
  is_inhibited i now labels = any_rule i.rules i.sources now labels

drop_expired_sources : ℕ → Assoc SourceEntry → Assoc SourceEntry
drop_expired_sources now [] = []
drop_expired_sources now ((k, e) ∷ m) =
    let rest = drop_expired_sources now m in if ltb e.expires_at now then rest else (k, e) ∷ rest

-- One tick of `cleanup`.
unfoldable pub expire_sources : Inhibitor → ℕ → Inhibitor
unfolding drop_expired_sources
expire_sources i now = record i { sources = drop_expired_sources now i.sources }

-- A row of `inhibit_rules`. A JSON column is `none` where it does not decode; `equal` is also `none`
-- where it is empty.
pub record InhibitRow : Type 0 where
  pub name : String
  pub is_enabled : Bool
  pub source_matchers : Option (List MatcherJson)
  pub target_matchers : Option (List MatcherJson)
  pub equal : Option (List String)

unfoldable pub inhibit_rules : List InhibitRow → List InhibitRule
unfolding or_nil
inhibit_rules [] = []
inhibit_rules (r ∷ rs) =
    let rest = inhibit_rules rs in
    if r.is_enabled
    then (elim r.source_matchers [
      | none ↦ rest
      | some src ↦ elim r.target_matchers [
        | none ↦ rest
        | some tgt ↦
            record {
              name = r.name;
              source_matchers = map unmarshal src;
              target_matchers = map unmarshal tgt;
              equal = or_nil r.equal;
            }
            ∷ rest
      ]
    ])
    else rest

-- `loadInhibits`; a failed query (`none`) keeps the old rules.
unfoldable pub load_inhibits : Option (List InhibitRow) → Inhibitor → Inhibitor
unfolding set_inhibit_rules inhibit_rules
load_inhibits none i = i
load_inhibits (some table) i = set_inhibit_rules i (inhibit_rules table)
