-- ===== src/Ingestion/KafkaFilter/Helpers.antt =====
-- internal/ingestion/kafka_filter.go: the functions that expressions may call, `pathHelpersFor` and
-- `builtinFunctions`, without the comparisons of floats.
--
-- `is_id` stands for the test of a segment by `pathIDPatterns`: whether one of the patterns matches.
pub mod Paths
pub mod Answers
use Prim.Native.String.{[], ◌∷◌}
use Prim.Native.Char.{Char, code}
use mathlib.Core.List.{List, [] as nil, ◌∷◌ as cons}
use alertmesh_new.Prelude.{
  String, Bool, true, false, not, Option, none, some, ◌&&◌, ◌||◌, ◌==◌, str_eq, if◌then◌else◌,
  contains, trim_space,
}
use alertmesh_new.Engine.Matcher.{Regexp}
use alertmesh_new.Ingestion.KafkaFilter.{
  Libs, Value, bool_value, string_value, nil_value, other_value,
}

-- `stripQuery`: 63 is the question mark.
unfoldable pub strip_query : String → String
strip_query [] = []
strip_query (c ∷ s) = let rest = strip_query s in if code c == 63 then [] else c ∷ rest

abbrev pub push : Char → List String → List String
push c nil = cons (c ∷ []) nil
push c (cons p ps) = cons (c ∷ p) ps

-- strings.Split(s, "/"): 47 is the slash.
unfoldable pub split : String → List String
split [] = cons [] nil
split (c ∷ s) = let rest = split s in if code c == 47 then cons [] rest else push c rest

-- `segment` before the text `rest`.
unfoldable pub prepend : String → String → String
prepend [] rest = rest
prepend (c ∷ segment) rest = c ∷ prepend segment rest

-- strings.Join(parts, "/")
unfoldable pub join_slash : List String → String
unfolding prepend
join_slash nil = []
join_slash (cons x nil) = x
join_slash (cons x (cons y ys)) = prepend x ("/" ∷ join_slash (cons y ys))

module _ (is_id : String → Bool) where
  unfoldable pub is_changed : String → Bool
  is_changed segment = not (str_eq segment "") && is_id segment

  -- The loop over the segments, and `changed` after it.
  unfoldable pub replace_ids : List String → List String
  unfolding is_changed
  replace_ids nil = nil
  replace_ids (cons x xs) =
      let rest = replace_ids xs in if is_changed x then cons "{id}" rest else cons x rest

  unfoldable pub any_changed : List String → Bool
  unfolding is_changed
  any_changed nil = false
  any_changed (cons x xs) = is_changed x || any_changed xs

  unfoldable pub normalize_path : String → String
  unfolding split join_slash replace_ids any_changed
  normalize_path s =
      if str_eq s ""
      then s
      else if any_changed (split s)
      then join_slash (replace_ids (split s))
      else s

abbrev pub is_placeholder : String → Bool
is_placeholder s = let t = trim_space s in str_eq t "" || (str_eq t "-" || str_eq t "null")

unfoldable pub coalesce : List Value → Value
unfolding trim_space
coalesce nil = string_value ""
coalesce (cons nil_value vs) = coalesce vs
coalesce (cons (string_value s) vs) =
    let rest = coalesce vs in if is_placeholder s then rest else string_value s
coalesce (cons (bool_value b) vs) = bool_value b
coalesce (cons (other_value s) vs) = other_value s

-- `getStr` is `lib.get_path payload`.
module _ (lib : Libs) (payload : String) where
  unfoldable pub has : String → Bool
  has path = elim (lib.get_path payload path) [ none ↦ false | some s ↦ true ]

  unfoldable pub get_text : String → String
  get_text path = elim (lib.get_path payload path) [ none ↦ "" | some s ↦ s ]

  unfoldable pub eq : String → String → Bool
  eq path val = elim (lib.get_path payload path) [ none ↦ false | some s ↦ str_eq s val ]

  unfoldable pub neq : String → String → Bool
  neq path val = elim (lib.get_path payload path) [ none ↦ false | some s ↦ not (str_eq s val) ]

  unfoldable pub oneof : String → List String → Bool
  oneof path vs = elim (lib.get_path payload path) [ none ↦ false | some s ↦ contains vs s ]

  unfoldable pub regex_match : Regexp → String → String → Bool
  regex_match rx path pattern = elim (lib.get_path payload path) [
    | none ↦ false
    | some s ↦ rx.compiles pattern && rx.match_string pattern s
  ]

  unfoldable pub not_empty : String → Bool
  unfolding trim_space
  not_empty path = elim (lib.get_path payload path) [
    | none ↦ false
    | some s ↦ not (is_placeholder s)
  ]
