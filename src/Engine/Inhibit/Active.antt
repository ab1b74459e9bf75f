-- ===== src/Engine/Inhibit/Active.antt =====
-- internal/engine/inhibition.go: when a group is inhibited, and for how long a source counts.
use alertmesh_new.Prelude.{
  ℕ, ◌+◌, ◌≤◌, String, true, List, [], ◌∷◌, Assoc, get, insert, All, Any, Any-imp, ◌≡◌, refl, ◌↔◌,
  inl, inr, arith, eq_iff, Bool-cases, str_eq,
}
use alertmesh_new.Engine.Alert.{RawAlert}
use alertmesh_new.Engine.Matcher.{Regexp, matches_all}
use alertmesh_new.Engine.Inhibit.{
  InhibitRule, SourceEntry, Inhibitor, equal_labels, is_source, track, any_source, any_rule,
  is_inhibited, drop_expired_sources, expire_sources,
}

pub equal_labels_iff :
    (ks : List String) (a b : Assoc String)
    → (equal_labels ks a b ≡ true) ↔ All (λ k. get a k ≡ get b k) ks
unfolding equal_labels
equal_labels_iff [] a b = (λ h. tt, λ h. refl)
equal_labels_iff (k ∷ ks) a b =
    let ih = equal_labels_iff ks a b in
    (
      λ h. (ground (arith, eq_iff (get a k) (get b k)), ih.0 (ground arith)),
      λ h. ground (arith, eq_iff (get a k) (get b k), ih.1 h.1),
    )

module _ (rx : Regexp) where
  -- The entry is an active source of the rule for a group with these labels.
  abbrev pub Sources : InhibitRule → ℕ → Assoc String → String × SourceEntry → Type 0
  Sources rule now labels e =
      (now ≤ e.1.expires_at)
      × (matches_all rx rule.source_matchers e.1.labels ≡ true)
      × All (λ k. get e.1.labels k ≡ get labels k) rule.equal

  -- The rule fires on a group with these labels.
  abbrev pub Fires : Inhibitor → ℕ → Assoc String → InhibitRule → Type 0
  Fires i now labels rule =
      (matches_all rx rule.target_matchers labels ≡ true) × Any (Sources rule now labels) i.sources

  any_source_iff :
      (rule : InhibitRule) (m : Assoc SourceEntry) (now : ℕ) (labels : Assoc String)
      → (any_source rx rule m now labels ≡ true) ↔ Any (Sources rule now labels) m
  unfolding any_source
  any_source_iff rule [] now labels = (λ h. cc, λ h. absurd h)
  any_source_iff rule ((fp, src) ∷ m) now labels =
      let ih = any_source_iff rule m now labels in
      let eq = equal_labels_iff rule.equal src.labels labels in
      (λ h. ground (arith, ih.0, eq.0), λ h. ground (arith, ih.1, eq.1))

  -- A group is inhibited exactly when some rule's target matchers match its labels and some source
  -- that has not expired matches the rule's source matchers and agrees with the group on every label
  -- of `Equal`, a missing label reading as "".
  pub is_inhibited_iff :
      (i : Inhibitor) (now : ℕ) (labels : Assoc String)
      → (is_inhibited rx i now labels ≡ true) ↔ Any (Fires i now labels) i.rules
  unfolding is_inhibited
  is_inhibited_iff i now labels = go i.rules
    where
      go :
          (rules : List InhibitRule)
          → (any_rule rx rules i.sources now labels ≡ true) ↔ Any (Fires i now labels) rules
      go [] = (λ h. cc, λ h. absurd h)
      go (rule ∷ rules) =
          let ih = go rules in
          let src = any_source_iff rule i.sources now labels in
          (λ h. ground (arith, ih.0, src.0), λ h. ground (arith, ih.1, src.1))

  -- The alert is a source of the rule, and the rule fires on a group with the labels because of it.
  abbrev pub Pairs : Assoc String → Assoc String → InhibitRule → Type 0
  Pairs source labels rule =
      (matches_all rx rule.source_matchers source ≡ true)
      × (matches_all rx rule.target_matchers labels ≡ true)
      × All (λ k. get source k ≡ get labels k) rule.equal

  is_source_of_Pairs :
      (rules : List InhibitRule) (source labels : Assoc String)
      → Any (Pairs source labels) rules
      → is_source rx rules source ≡ true
  unfolding is_source
  is_source_of_Pairs [] source labels h = absurd h
  is_source_of_Pairs (r ∷ rs) source labels (inl h) = ground arith
  is_source_of_Pairs (r ∷ rs) source labels (inr h) =
      ground (arith, is_source_of_Pairs rs source labels h)

  Any-insert :
      (P : String × SourceEntry → Type 0) (k : String) (v : SourceEntry) (m : Assoc SourceEntry)
      → P (k, v)
      → Any P (insert k v m)
  unfolding insert
  Any-insert P k v [] h = inl h
  Any-insert P k v ((j, w) ∷ m) h = elim (Bool-cases (str_eq j k)) [
    | inl e ↦ rw e (inl h)
    | inr e ↦ rw e (inr (Any-insert P k v m h))
  ]

  -- From the moment an alert is tracked until the end of its TTL, it inhibits every group that some
  -- rule pairs it with, whatever was tracked before.
  pub track-is_inhibited :
      (i : Inhibitor) (t now : ℕ) (alert : RawAlert) (labels : Assoc String)
      → now ≤ t + i.ttl
      → Any (Pairs alert.labels labels) i.rules
      → is_inhibited rx (track rx i t alert) now labels ≡ true
  unfolding track
  track-is_inhibited i t now alert labels live pairs =
      rw (is_source_of_Pairs i.rules alert.labels labels pairs) (
        (is_inhibited_iff _ now labels).1 (
          Any-imp (Pairs alert.labels labels) _ i.rules
            (λ rule p. (
              p.1,
              Any-insert (Sources rule now labels) alert.fingerprint _ i.sources (live, p.0, p.2),
            ))
            pairs))

  any_source-drop_expired_sources :
      (rule : InhibitRule) (m : Assoc SourceEntry) (t now : ℕ) (labels : Assoc String)
      → t ≤ now
      → any_source rx rule (drop_expired_sources t m) now labels ≡ any_source rx rule m now labels
  unfolding any_source drop_expired_sources
  any_source-drop_expired_sources rule [] t now labels le = refl
  any_source-drop_expired_sources rule ((fp, src) ∷ m) t now labels le =
      ground (arith, any_source-drop_expired_sources rule m t now labels le)

  -- A cleanup never changes the answer to a later question: it drops only sources that have expired.
  pub is_inhibited-expire_sources :
      (i : Inhibitor) (t now : ℕ) (labels : Assoc String)
      → t ≤ now
      → is_inhibited rx (expire_sources i t) now labels ≡ is_inhibited rx i now labels
  unfolding is_inhibited expire_sources
  is_inhibited-expire_sources i t now labels le = go i.rules
    where
      go :
          (rules : List InhibitRule)
          → any_rule rx rules (drop_expired_sources t i.sources) now labels
            ≡ any_rule rx rules i.sources now labels
      go [] = refl
      go (rule ∷ rules) =
          ground (arith, go rules, any_source-drop_expired_sources rule i.sources t now labels le)
