-- ===== src/Engine/Silence/Windows.antt =====
-- internal/engine: when a silence applies, from the table to the alert.
use alertmesh_new.Prelude.{
  ℕ, ◌≤◌, ◌<◌, true, false, none, some, List, [], ◌∷◌, map, All, All-imp, Any, not-Any, ◌≡◌, ◌↔◌,
  inl, inr, arith, Bool-cases, Option-cases, ◌||◌, Bool, leb, ◌&&◌,
}
use alertmesh_new.Engine.Alert.{RawAlert}
use alertmesh_new.Engine.Matcher.{Regexp, MatcherJson, unmarshal, matches_all}
use alertmesh_new.Engine.Matcher.Laws.{IsStuck, matches_all-unmarshal_regex}
use alertmesh_new.Engine.Silence.{
  SilenceRule, SilenceRow, is_silenced, select_silences, silence_rules, load_silences,
}

-- The rule covers the alert at `now`.
abbrev pub Covers : Regexp → ℕ → RawAlert → SilenceRule → Type 0
Covers rx now alert r =
    (r.starts_at ≤ now) × (now ≤ r.ends_at) × (matches_all rx r.matchers alert.labels ≡ true)

-- The row, loaded at `t`, silences the alert at `now`.
pub record Silences (rx : Regexp) (t now : ℕ) (alert : RawAlert) (r : SilenceRow) : Type 0 where
  pub active : r.is_active ≡ true
  pub started_at_load : r.starts_at ≤ t
  pub open_at_load : t ≤ r.ends_at
  pub started : r.starts_at ≤ now
  pub not_over : now ≤ r.ends_at
  pub raws : List MatcherJson
  pub decodes : r.matchers ≡ some raws
  pub hits : matches_all rx (map unmarshal raws) alert.labels ≡ true

module _ (rx : Regexp) where
  -- An alert is silenced exactly when some rule is in force, its two ends included, and all the
  -- rule's matchers match the alert's labels.
  pub is_silenced_iff :
      (rules : List SilenceRule) (now : ℕ) (alert : RawAlert)
      → (is_silenced rx rules now alert ≡ true) ↔ Any (Covers rx now alert) rules
  unfolding is_silenced
  is_silenced_iff [] now alert = (λ h. cc, λ h. absurd h)
  is_silenced_iff (r ∷ rs) now alert =
      let ih = is_silenced_iff rs now alert in
      (λ h. ground (arith, ih.0), λ h. ground (arith, ih.1))

  -- The same as a test.
  hits_row : ℕ → ℕ → RawAlert → SilenceRow → Bool
  hits_row t now alert r = elim r.matchers [
    | none ↦ false
    | some raws ↦
        r.is_active
        && leb r.starts_at t
        && leb t r.ends_at
        && leb r.starts_at now
        && leb now r.ends_at
        && matches_all rx (map unmarshal raws) alert.labels
  ]

  hits_row-Silences :
      (t now : ℕ) (alert : RawAlert) (r : SilenceRow)
      → hits_row t now alert r ≡ true
      → Silences rx t now alert r
  unfolding hits_row
  hits_row-Silences t now alert r h = elim (Option-cases r.matchers) [
    | inl bad ↦ absurd (ground arith)
    | inr (raws, good) ↦ record {
      active = ground arith;
      started_at_load = ground arith;
      open_at_load = ground arith;
      started = ground arith;
      not_over = ground arith;
      raws = raws;
      decodes = good;
      hits = ground arith;
    }
  ]

  Silences-hits_row :
      (t now : ℕ) (alert : RawAlert) (r : SilenceRow)
      → Silences rx t now alert r
      → hits_row t now alert r ≡ true
  unfolding hits_row
  Silences-hits_row t now alert r s = ground arith

  -- One row at the head of the table: it silences, or the rest decides.
  is_silenced-cons :
      (t now : ℕ) (alert : RawAlert) (r : SilenceRow) (rs : List SilenceRow)
      → is_silenced rx (silence_rules (select_silences t (r ∷ rs))) now alert ≡ (
          hits_row t now alert r || is_silenced rx (silence_rules (select_silences t rs)) now alert)
  unfolding is_silenced silence_rules select_silences hits_row
  is_silenced-cons t now alert r rs = ground arith

  -- Loaded at `t`, an alert is silenced at `now` exactly when some row of the table is active, has a
  -- window that holds both moments, decodes, and has only matchers that match.
  pub is_silenced-load_silences :
      (t now : ℕ) (alert : RawAlert) (table : List SilenceRow) (old : List SilenceRule)
      → (is_silenced rx (load_silences t (some table) old) now alert ≡ true)
        ↔ Any (Silences rx t now alert) table
  unfolding load_silences is_silenced
  is_silenced-load_silences t now alert [] old = (λ h. cc, λ h. absurd h)
  is_silenced-load_silences t now alert (r ∷ rs) old =
      let ih = is_silenced-load_silences t now alert rs old in
      let step = is_silenced-cons t now alert r rs in
      (
        λ h. elim (Bool-cases (hits_row t now alert r)) [
          | inl yes_row ↦ inl (hits_row-Silences t now alert r yes_row)
          | inr no_row ↦ inr (ih.0 (ground arith))
        ],
        elim [
          | inl here ↦ ground (arith, Silences-hits_row t now alert r here)
          | inr there ↦ ground (arith, ih.1 there)
        ],
      )

  -- A policy is lost until the next load if the load came before its window: with a table of such
  -- policies, nothing is silenced, whatever the time of the alert.
  pub load_silences_early :
      (t now : ℕ) (alert : RawAlert) (table : List SilenceRow) (old : List SilenceRule)
      → All (λ r. t < r.starts_at) table
      → is_silenced rx (load_silences t (some table) old) now alert ≡ false
  load_silences_early t now alert table old early =
      elim (Bool-cases (is_silenced rx (load_silences t (some table) old) now alert)) [
        | inl h ↦ absurd (
            not-Any (Silences rx t now alert) table
              (All-imp _ _ table (λ r lt s. omega (arith, s.started_at_load)) early)
              ((is_silenced-load_silences t now alert table old).0 h))
        | inr h ↦ h
      ]

  -- A policy never silences an alert if it has a regex matcher on a label that the alert has, since
  -- no step on the way from the table compiles the regex; a table of such policies silences nothing.
  pub load_silences_regex :
      (t now : ℕ) (alert : RawAlert) (table : List SilenceRow) (old : List SilenceRule)
      → All
          (λ r.
            (raws : List MatcherJson) → r.matchers ≡ some raws → Any (IsStuck alert.labels) raws)
          table
      → is_silenced rx (load_silences t (some table) old) now alert ≡ false
  load_silences_regex t now alert table old stuck =
      elim (Bool-cases (is_silenced rx (load_silences t (some table) old) now alert)) [
        | inl h ↦ absurd (
            not-Any (Silences rx t now alert) table
              (All-imp _ _ table
                (λ r f s. ground (
                  arith,
                  s.hits,
                  matches_all-unmarshal_regex rx s.raws alert.labels (f s.raws s.decodes),
                ))
                stuck)
              ((is_silenced-load_silences t now alert table old).0 h))
        | inr h ↦ h
      ]
