-- ===== src/Engine/Matcher.antt =====
-- internal/engine/routing.go, the label matchers: their two JSON shapes, the compile pass of
-- `SetRoutes` for one matcher, and `Matches`.
--
-- A compiled `*regexp.Regexp` is modelled by its pattern, from which it is determined. The package
-- `regexp` itself is a parameter: which patterns compile, and which texts a pattern finds.
pub mod Laws
use alertmesh_new.Prelude.{
  String, Bool, true, false, not, Option, none, some, List, [], ◌∷◌, map, Assoc, lookup, str_eq,
  if◌then◌else◌,
}

pub record Regexp : Type 0 where
  pub compiles : String → Bool
  pub match_string : String → String → Bool

-- The union of the two JSON shapes, decoded; an absent member is the zero value.
pub record MatcherJson : Type 0 where
  pub name : String
  pub is_regex : Bool
  pub key : String
  pub op : String
  pub value : String

pub record LabelMatcher : Type 0 where
  pub name : String
  pub value : String
  pub is_regex : Bool
  pub negate : Bool
  pub re : Option String
  pub compile_failed : Bool

-- The `switch` on `raw.Op`, as the flags (IsRegex, Negate).
op_flags : String → Bool → Bool × Bool
op_flags op is_regex =
    if str_eq op ""
    then (is_regex, false)
    else if str_eq op "="
    then (is_regex, false)
    else if str_eq op "!="
    then (is_regex, true)
    else if str_eq op "=~"
    then (true, false)
    else if str_eq op "!~"
    then (true, true)
    else (is_regex, false)

-- `UnmarshalJSON` into a fresh matcher, after the decoder has read the two shapes.
unfoldable pub unmarshal : MatcherJson → LabelMatcher
unfolding op_flags
unmarshal raw =
    let flags = op_flags raw.op raw.is_regex in
    record {
      name = if str_eq raw.name "" then raw.key else raw.name;
      value = raw.value;
      is_regex = flags.0;
      negate = flags.1;
      re = none;
      compile_failed = false;
    }

module _ (rx : Regexp) where
  -- The body of the loop of `SetRoutes`.
  unfoldable pub compile : LabelMatcher → LabelMatcher
  compile m =
      if not m.is_regex
      then record m { re = none; compile_failed = false }
      else if rx.compiles m.value
      then record m { re = some m.value; compile_failed = false }
      else record m { re = none; compile_failed = true }

  -- Whether the value of a present label hits; a regex that is not compiled has no answer.
  hit : LabelMatcher → String → Option Bool
  hit m v =
      if m.is_regex
      then (if m.compile_failed
          then none
          else elim m.re [ none ↦ none | some re ↦ some (rx.match_string re v) ])
      else some (str_eq v m.value)

  unfoldable pub matches : LabelMatcher → Assoc String → Bool
  unfolding hit
  matches m labels = elim (lookup m.name labels) [
    | none ↦ m.negate
    | some v ↦ elim (hit m v) [ none ↦ false | some b ↦ (if m.negate then not b else b) ]
  ]

  unfoldable pub matches_all : List LabelMatcher → Assoc String → Bool
  matches_all [] labels = true
  matches_all (m ∷ ms) labels =
      let rest = matches_all ms labels in if matches m labels then rest else false
