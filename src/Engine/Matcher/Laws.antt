-- ===== src/Engine/Matcher/Laws.antt =====
-- What a matcher of internal/engine/routing.go means, stated without the order in which the code
-- tests.
use alertmesh_new.Prelude.{
  String, true, false, none, some, List, [], ◌∷◌, Assoc, lookup, All, ◌≡◌, ◌≢◌, ◌↔◌, refl, arith,
  eq_iff, Bool-cases, Option-cases, inl, inr, Any, map,
}
use alertmesh_new.Engine.Matcher.{
  Regexp, MatcherJson, LabelMatcher, unmarshal, compile, matches, matches_all,
}

-- The matcher, read as a rule about the labels. A regex rule says nothing unless it compiles.
pub data Means (rx : Regexp) (m : LabelMatcher) (labels : Assoc String) : Type 0 where
  absent : lookup m.name labels ≡ none → m.negate ≡ true → Means rx m labels
  same :
      lookup m.name labels ≡ some m.value
      → m.is_regex ≡ false
      → m.negate ≡ false
      → Means rx m labels
  differs :
      (v : String)
      → lookup m.name labels ≡ some v
      → v ≢ m.value
      → m.is_regex ≡ false
      → m.negate ≡ true
      → Means rx m labels
  found :
      (v : String)
      → lookup m.name labels ≡ some v
      → m.is_regex ≡ true
      → rx.compiles m.value ≡ true
      → rx.match_string m.value v ≡ true
      → m.negate ≡ false
      → Means rx m labels
  not_found :
      (v : String)
      → lookup m.name labels ≡ some v
      → m.is_regex ≡ true
      → rx.compiles m.value ≡ true
      → rx.match_string m.value v ≡ false
      → m.negate ≡ true
      → Means rx m labels

-- A regex rule whose label the alert has.
pub record IsStuck (labels : Assoc String) (raw : MatcherJson) : Type 0 where
  pub regex : (unmarshal raw).is_regex ≡ true
  pub value : String
  pub present : lookup (unmarshal raw).name labels ≡ some value

module _ (rx : Regexp) where
  Means-matches :
      (m : LabelMatcher) (labels : Assoc String)
      → Means rx m labels
      → matches rx (compile rx m) labels ≡ true
  unfolding matches compile
  Means-matches m labels (absent a n) = ground arith
  Means-matches m labels (same a r n) = ground (arith, eq_iff m.value m.value)
  Means-matches m labels (differs v a d r n) = ground (arith, eq_iff v m.value)
  Means-matches m labels (found v a r c f n) = ground arith
  Means-matches m labels (not_found v a r c f n) = ground arith

  matches-Means_present :
      (m : LabelMatcher) (labels : Assoc String) (v : String)
      → lookup m.name labels ≡ some v
      → matches rx (compile rx m) labels ≡ true
      → Means rx m labels
  unfolding matches compile
  matches-Means_present m labels v e h = elim (Bool-cases m.is_regex) [
    | inl r ↦ elim (Bool-cases m.negate) [
      | inl n ↦ not_found v e r (ground arith) (ground arith) n
      | inr n ↦ found v e r (ground arith) (ground arith) n
    ]
    | inr r ↦ elim (Bool-cases m.negate) [
      | inl n ↦ differs v e (ground (arith, eq_iff v m.value)) r n
      | inr n ↦ same (ground (arith, eq_iff v m.value)) r n
    ]
  ]

  matches-Means_absent :
      (m : LabelMatcher) (labels : Assoc String)
      → lookup m.name labels ≡ none
      → matches rx (compile rx m) labels ≡ true
      → Means rx m labels
  unfolding matches compile
  matches-Means_absent m labels e h = absent e (ground arith)

  -- After the compile pass of `SetRoutes`, a matcher matches exactly the label sets that its rule
  -- means: an absent label only under negation, equality or inequality of a present one, and for a
  -- regex the answer of the compiled pattern, negated or not; a pattern that does not compile never
  -- matches a present label, whether negated or not.
  pub matches_iff-Means :
      (m : LabelMatcher) (labels : Assoc String)
      → (matches rx (compile rx m) labels ≡ true) ↔ Means rx m labels
  matches_iff-Means m labels = (
    λ h. elim (Option-cases (lookup m.name labels)) [
      | inl e ↦ matches-Means_absent m labels e h
      | inr (v, e) ↦ matches-Means_present m labels v e h
    ],
    Means-matches m labels,
  )

  -- A list of matchers is a conjunction.
  pub matches_all_iff :
      (ms : List LabelMatcher) (labels : Assoc String)
      → (matches_all rx ms labels ≡ true) ↔ All (λ m. matches rx m labels ≡ true) ms
  unfolding matches_all
  matches_all_iff [] labels = (λ h. tt, λ h. refl)
  matches_all_iff (m ∷ ms) labels =
      let ih = matches_all_iff ms labels in
      (λ h. (ground arith, ih.0 (ground arith)), λ h. ground (arith, ih.1 h.1))

  -- Decoded and never compiled, a regex matcher misses every label set that has its label.
  pub matches-unmarshal_regex :
      (raw : MatcherJson) (labels : Assoc String) (v : String)
      → (unmarshal raw).is_regex ≡ true
      → lookup (unmarshal raw).name labels ≡ some v
      → matches rx (unmarshal raw) labels ≡ false
  unfolding matches unmarshal
  matches-unmarshal_regex raw labels v r e = ground arith

  pub matches_all-unmarshal_regex :
      (raws : List MatcherJson) (labels : Assoc String)
      → Any (IsStuck labels) raws
      → matches_all rx (map unmarshal raws) labels ≡ false
  unfolding matches_all
  matches_all-unmarshal_regex (raw ∷ raws) labels (inl s) =
      ground (arith, matches-unmarshal_regex raw labels s.value s.regex s.present)
  matches_all-unmarshal_regex (raw ∷ raws) labels (inr s) =
      ground (arith, matches_all-unmarshal_regex raws labels s)
  matches_all-unmarshal_regex [] labels s = absurd s

  -- `compile` keeps what the rule says, and settles `re` for good: compiling again changes nothing.
  pub compile_idem : (m : LabelMatcher) → compile rx (compile rx m) ≡ compile rx m
  unfolding compile
  compile_idem m = ground arith

-- The two JSON shapes of one rule decode to the same matcher: `key` with the operator "=" or "=~" is
-- `name` with `isRegex` false or true; and "!=" and "!~" negate those.
pub unmarshal_shapes :
    (k v : String)
    → (unmarshal (record { name = ""; is_regex = false; key = k; op = "="; value = v })
        ≡ unmarshal (record { name = k; is_regex = false; key = ""; op = ""; value = v }))
      × (unmarshal (record { name = ""; is_regex = false; key = k; op = "=~"; value = v })
          ≡ unmarshal (record { name = k; is_regex = true; key = ""; op = ""; value = v }))
      × (unmarshal (record { name = ""; is_regex = false; key = k; op = "!="; value = v })
          ≡ record (unmarshal
              (record { name = k; is_regex = false; key = ""; op = ""; value = v })) {
                negate = true;
              })
      × (unmarshal (record { name = ""; is_regex = false; key = k; op = "!~"; value = v })
          ≡ record (unmarshal
              (record { name = k; is_regex = true; key = ""; op = ""; value = v })) {
                negate = true;
              })
unfolding unmarshal
unmarshal_shapes k v = (
  ground (arith, eq_iff k ""),
  ground (arith, eq_iff k ""),
  ground (arith, eq_iff k ""),
  ground (arith, eq_iff k ""),
)
