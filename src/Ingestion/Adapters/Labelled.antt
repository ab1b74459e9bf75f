-- ===== src/Ingestion/Adapters/Labelled.antt =====
-- internal/ingestion/alertmanager_v2.go: the alerts that the adapter makes of the items of Prometheus.
use mathlib.Core.List.{List, [] as nil, ◌∷◌ as cons}
use alertmesh_new.Prelude.{
  ℕ, suc, String, Bool, true, false, not, Option, none, some, ◌≡◌, ◌≢◌, refl, sym, subst, arith,
  ◌==◌, ltb, str_eq, if◌then◌else◌, Assoc, insert, lookup, get, lookup-insert, lookup-insert_both,
  All,
}
use alertmesh_new.Engine.Alert.{RawAlert}
use alertmesh_new.Ingestion.KafkaFilter.{Libs}
use alertmesh_new.Ingestion.KafkaFilter.Apply.Kept.{IsLabelled, NotBlank}
use alertmesh_new.Ingestion.Adapters.{
  Adapted, rejected, adapted, missing_name, more, AlertItem, fill_source, fill_severity, alert_v2,
  adapt_v2_items, adapt_v2,
}

abbrev IsSourced : Assoc String → Type 0
IsSourced labels = NotBlank (lookup "alertname" labels) × (lookup "source" labels ≢ none)

fill_source-IsSourced :
    (labels : Assoc String) → NotBlank (lookup "alertname" labels) → IsSourced (fill_source labels)
fill_source-IsSourced labels h = by_source (lookup "source" labels) refl
  where
    by_source :
        (o : Option String)
        → lookup "source" labels ≡ o
        → IsSourced (elim o [ none ↦ insert "source" "prometheus" labels | some s ↦ labels ])
    by_source none e = (
      lookup-insert_both NotBlank "source" "alertname" "prometheus" labels refl h,
      subst (λ o. o ≢ none) (sym (lookup-insert "source" "source" "prometheus" labels))
          (λ q. ground (arith, q)),
    )
    by_source (some s) e = (h, λ q. ground (arith, q))

fill_severity-IsLabelled :
    (labels : Assoc String) → IsSourced labels → IsLabelled (fill_severity labels)
unfolding IsLabelled get
fill_severity-IsLabelled labels h = by_text (str_eq (get labels "severity") "") refl
  where
    by_text :
        (b : Bool)
        → str_eq (get labels "severity") "" ≡ b
        → IsLabelled (if b then insert "severity" "warning" labels else labels)
    by_text true e = (
      lookup-insert_both NotBlank "severity" "alertname" "warning" labels refl h.0,
      subst NotBlank (sym (lookup-insert "severity" "severity" "warning" labels)) refl,
      lookup-insert_both (λ o. o ≢ none) "severity" "source" "warning" labels
          (λ q. ground (arith, q)) h.1,
    )
    by_text false e = (h.0, e, h.1)

-- Whether an end has come.
abbrev pub is_past : ℕ → Option ℕ → Bool
is_past now none = false
is_past now (some t) = not (ltb now t)

abbrev pub status_text : Bool → String
status_text over = if over then "resolved" else "firing"

-- An alert with the labels that it needs, resolved exactly if its end has come.
abbrev pub IsTimely : ℕ → RawAlert → Type 0
IsTimely now a = IsLabelled a.labels × (a.status ≡ status_text (is_past now a.ends_at))

alert_v2-IsTimely :
    (lib : Libs) (now : ℕ) (payload : String) (it : AlertItem)
    → str_eq (get it.labels "alertname") "" ≡ false
    → IsTimely now (alert_v2 lib now payload it)
unfolding alert_v2 get
alert_v2-IsTimely lib now payload it h = (
  fill_severity-IsLabelled (fill_source it.labels) (fill_source-IsSourced it.labels h),
  by_end (it.ends_at == 0) (ltb now it.ends_at) refl,
)
  where
    by_end :
        (zero_time later : Bool)
        → ltb now it.ends_at ≡ later
        → (if zero_time
            then status_text false
            else if later
            then status_text false
            else status_text true)
          ≡ status_text (is_past now (if zero_time then none else some it.ends_at))
    by_end true later e = refl
    by_end false true e = rw e refl
    by_end false false e = rw e refl

abbrev OnAdapted : (RawAlert → Type 0) → Adapted → Type 0
OnAdapted P (rejected e) = Unit
OnAdapted P (adapted alerts) = All P alerts

more-OnAdapted :
    (P : RawAlert → Type 0) (a : RawAlert) (x : Adapted)
    → P a
    → OnAdapted P x
    → OnAdapted P (more a x)
unfolding more
more-OnAdapted P a (rejected e) h i = tt
more-OnAdapted P a (adapted alerts) h i = (h, i)

adapt_v2_items-IsTimely :
    (lib : Libs) (now : ℕ) (payload : String) (i : ℕ) (items : List AlertItem)
    → OnAdapted (IsTimely now) (adapt_v2_items lib now payload i items)
unfolding adapt_v2_items
adapt_v2_items-IsTimely lib now payload i nil = tt
adapt_v2_items-IsTimely lib now payload i (cons it items) =
    by_name (str_eq (get it.labels "alertname") "") refl
      (adapt_v2_items-IsTimely lib now payload (suc i) items)
  where
    by_name :
        (b : Bool)
        → str_eq (get it.labels "alertname") "" ≡ b
        → OnAdapted (IsTimely now) (adapt_v2_items lib now payload (suc i) items)
        → OnAdapted (IsTimely now) (
            if b
            then rejected (missing_name i)
            else more (alert_v2 lib now payload it) (adapt_v2_items lib now payload (suc i) items))
    by_name true e h = tt
    by_name false e h =
        more-OnAdapted (IsTimely now) (alert_v2 lib now payload it)
          (adapt_v2_items lib now payload (suc i) items) (alert_v2-IsTimely lib now payload it e) h

-- Every alert that the adapter of Prometheus makes has a non-empty `alertname` and `severity` and a
-- `source`, and is resolved exactly if it has an end that is not after the time of the call.
pub adapt_v2-IsTimely :
    (lib : Libs) (now : ℕ) (payload : String) (decoded : Option (List AlertItem))
    (alerts : List RawAlert)
    → adapt_v2 lib now payload decoded ≡ adapted alerts
    → All (IsTimely now) alerts
unfolding adapt_v2
adapt_v2-IsTimely lib now payload decoded alerts e =
    subst (OnAdapted (IsTimely now)) e (by_decoded decoded)
  where
    by_decoded :
        (o : Option (List AlertItem)) → OnAdapted (IsTimely now) (adapt_v2 lib now payload o)
    by_decoded none = tt
    by_decoded (some items) = adapt_v2_items-IsTimely lib now payload 0 items
