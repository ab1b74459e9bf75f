-- ===== src/Ingestion/KafkaFilter/Helpers/Answers.antt =====
-- internal/ingestion/kafka_filter.go: the helpers on a path that is missing, and on one that is there.
use alertmesh_new.Prelude.{
  String, Bool, true, false, not, Option, none, some, List, [], ◌∷◌, ◌++◌, ◌&&◌, ◌≡◌, refl, str_eq,
  if-no, trim_space, if◌then◌else◌, contains,
}
use alertmesh_new.Engine.Matcher.{Regexp}
use alertmesh_new.Ingestion.KafkaFilter.{
  Libs, Value, bool_value, string_value, nil_value, other_value,
}
use alertmesh_new.Ingestion.KafkaFilter.Helpers.{
  has, get_text, eq, neq, oneof, regex_match, not_empty, is_placeholder, coalesce,
}

-- On a path that is missing every test is false, `neq` included; on one that is there `eq` and `oneof`
-- compare its text, and `neq` is the negation of `eq`.
abbrev pub IsStrict : Libs → String → Regexp → String → String → List String → Type 0
IsStrict lib payload rx path val vs =
    (eq lib payload path val ≡ (has lib payload path && str_eq (get_text lib payload path) val))
    × (neq lib payload path val ≡ (has lib payload path && not (eq lib payload path val)))
    × (oneof lib payload path vs
        ≡ (has lib payload path && contains vs (get_text lib payload path)))
    × (regex_match lib payload rx path val ≡ (
        has lib payload path
        && (rx.compiles val && rx.match_string val (get_text lib payload path))))
    × (not_empty lib payload path
        ≡ (has lib payload path && not (is_placeholder (get_text lib payload path))))

strict :
    (f : String → Bool) (o : Option String)
    → elim o [ none ↦ false | some s ↦ f s ]
      ≡ (elim o [ none ↦ false | some s ↦ true ] && f (elim o [ none ↦ "" | some s ↦ s ]))
strict f none = refl
strict f (some s) = refl

strict_not :
    (f : String → Bool) (o : Option String)
    → elim o [ none ↦ false | some s ↦ not (f s) ]
      ≡ (elim o [ none ↦ false | some s ↦ true ] && not (elim o [ none ↦ false | some s ↦ f s ]))
strict_not f none = refl
strict_not f (some s) = refl

-- The tests of a path are strict: each is false on a missing path, also `neq`, and on a path that is
-- there each tests its text, and `neq` is the negation of `eq`.
pub has-IsStrict :
    (lib : Libs) (payload : String) (rx : Regexp) (path val : String) (vs : List String)
    → IsStrict lib payload rx path val vs
unfolding has get_text eq neq oneof regex_match not_empty
has-IsStrict lib payload rx path val vs =
    let o = lib.get_path payload path in
    (
      strict (λ s. str_eq s val) o,
      strict_not (λ s. str_eq s val) o,
      strict (contains vs) o,
      strict (λ s. rx.compiles val && rx.match_string val s) o,
      strict (λ s. not (is_placeholder s)) o,
    )

-- `coalesce` may be nested: the first usable value of all is found.
pub coalesce-append : (vs ws : List Value) → coalesce (coalesce vs ∷ ws) ≡ coalesce (vs ++ ws)
unfolding coalesce trim_space
coalesce-append [] ws = refl
coalesce-append (nil_value ∷ vs) ws = coalesce-append vs ws
coalesce-append (bool_value b ∷ vs) ws = refl
coalesce-append (other_value s ∷ vs) ws = refl
coalesce-append (string_value s ∷ vs) ws = by_test (is_placeholder s) refl (coalesce-append vs ws)
  where
    by_test :
        (b : Bool)
        → is_placeholder s ≡ b
        → coalesce (coalesce vs ∷ ws) ≡ coalesce (vs ++ ws)
        → coalesce ((if b then coalesce vs else string_value s) ∷ ws)
          ≡ (if b then coalesce (vs ++ ws) else string_value s)
    by_test true e h = h
    by_test false e h =
        if-no (λ v. v ≡ string_value s) (is_placeholder s) (coalesce ws) (string_value s) e refl
