-- ===== src/Engine/Aggregate/Growth.antt =====
-- internal/engine/aggregation.go: what a group is after several alerts of its key.
use Prim.Native.Nat.{max}
use alertmesh_new.Prelude.{
  ℕ, ◌≤◌, String, ◌≡◌, ◌⊎◌, inl, inr, refl, arith, List, [], ◌∷◌, ◌++◌, All, Any, get, sym, ◌∙◌,
}
use mathlib.Core.List.{append_assoc, append-nil}
use alertmesh_new.Engine.Alert.{RawAlert}
use alertmesh_new.Engine.Severity.{rank_of, map_severity}
use alertmesh_new.Engine.Severity.Rank.{
  IsLevel, map_severity-IsLevel, rank_of-max_severity, max_severity-IsLevel,
}
use alertmesh_new.Engine.Aggregate.{AlertGroup, open_group, append_alert}

-- The group after more alerts, in order.
unfoldable pub grow : AlertGroup → List RawAlert → AlertGroup
grow g [] = g
grow g (a ∷ rest) = grow (append_alert g a) rest

-- The rank of an alert's own severity label.
abbrev pub alert_rank : RawAlert → ℕ
alert_rank a = rank_of (map_severity (get a.labels "severity"))

alerts-grow : (g : AlertGroup) (rest : List RawAlert) → (grow g rest).alerts ≡ g.alerts ++ rest
unfolding grow append_alert
alerts-grow g [] = sym (append-nil g.alerts)
alerts-grow g (a ∷ rest) = alerts-grow (append_alert g a) rest ∙ append_assoc g.alerts (a ∷ []) rest

grow-IsLevel :
    (g : AlertGroup) (rest : List RawAlert) → IsLevel g.severity → IsLevel (grow g rest).severity
unfolding grow append_alert
grow-IsLevel g [] h = h
grow-IsLevel g (a ∷ rest) h =
    grow-IsLevel (append_alert g a) rest
      (max_severity-IsLevel g.severity (get a.labels "severity") h)

rank-grow-le :
    (g : AlertGroup) (rest : List RawAlert) → rank_of g.severity ≤ rank_of (grow g rest).severity
unfolding grow append_alert
rank-grow-le g [] = omega arith
rank-grow-le g (a ∷ rest) = omega (
  arith,
  rank-grow-le (append_alert g a) rest,
  rank_of-max_severity g.severity (get a.labels "severity"),
)

rank-grow-All :
    (g : AlertGroup) (rest : List RawAlert)
    → All (λ b. alert_rank b ≤ rank_of (grow g rest).severity) rest
unfolding grow append_alert
rank-grow-All g [] = tt
rank-grow-All g (a ∷ rest) = (
  omega (
    arith,
    rank-grow-le (append_alert g a) rest,
    rank_of-max_severity g.severity (get a.labels "severity"),
  ),
  rank-grow-All (append_alert g a) rest,
)

rank-grow-Any :
    (g : AlertGroup) (rest : List RawAlert)
    → (rank_of (grow g rest).severity ≡ rank_of g.severity)
      ⊎ Any (λ b. rank_of (grow g rest).severity ≡ alert_rank b) rest
unfolding grow append_alert
rank-grow-Any g [] = inl refl
rank-grow-Any g (a ∷ rest) =
    let top = rank_of-max_severity g.severity (get a.labels "severity") in
    elim (rank-grow-Any (append_alert g a) rest) [
      | inr later ↦ inr (inr later)
      | inl first ↦ elim (max_cases (rank_of g.severity) (alert_rank a)) [
        | inl old ↦ inl (first ∙ top ∙ old)
        | inr new ↦ inr (inl (first ∙ top ∙ new))
      ]
    ]
  where
    max_cases : (m n : ℕ) → (max m n ≡ m) ⊎ (max m n ≡ n)
    max_cases m n = omega arith

-- A group that alert `a` opens and the alerts `rest` join holds exactly these, in the order of their
-- arrival, keeps the key, the labels and the data source of `a`, and has as severity one of P0 to P3
-- that ranks as high as the worst of their own severities.
pub record IsGroupOf (key : String) (a : RawAlert) (rest : List RawAlert) (g : AlertGroup)
    : Type 0 where
  pub alerts : g.alerts ≡ a ∷ rest
  pub group_key : g.group_key ≡ key
  pub labels : g.labels ≡ a.labels
  pub data_source_id : g.data_source_id ≡ a.data_source_id
  pub level : IsLevel g.severity
  pub above : All (λ b. alert_rank b ≤ rank_of g.severity) (a ∷ rest)
  pub worst : Any (λ b. rank_of g.severity ≡ alert_rank b) (a ∷ rest)

pub grow-IsGroupOf :
    (key : String) (a : RawAlert) (rest : List RawAlert)
    → IsGroupOf key a rest (grow (open_group key a) rest)
unfolding open_group grow append_alert
grow-IsGroupOf key a rest = record {
  alerts = alerts-grow (open_group key a) rest;
  group_key = same.0;
  labels = same.1;
  data_source_id = same.2;
  level = grow-IsLevel (open_group key a) rest (map_severity-IsLevel (get a.labels "severity"));
  above = (rank-grow-le (open_group key a) rest, rank-grow-All (open_group key a) rest);
  worst = rank-grow-Any (open_group key a) rest;
}
  where
    kept :
        (g : AlertGroup) (bs : List RawAlert)
        → ((grow g bs).group_key ≡ g.group_key)
          × ((grow g bs).labels ≡ g.labels)
          × ((grow g bs).data_source_id ≡ g.data_source_id)
    kept g [] = (refl, refl, refl)
    kept g (b ∷ bs) = kept (append_alert g b) bs

    same :
        ((grow (open_group key a) rest).group_key ≡ key)
        × ((grow (open_group key a) rest).labels ≡ a.labels)
        × ((grow (open_group key a) rest).data_source_id ≡ a.data_source_id)
    same = kept (open_group key a) rest
