-- ===== src/Ingestion/KafkaFilter/Apply/Kept.antt =====
-- internal/ingestion/kafka_filter.go: the alerts of the messages that are kept.
use Prim.Native.String
use alertmesh_new.Prelude.{
  ℕ, String, Bool, true, false, not, Option, none, some, List, [], ◌∷◌, ◌≡◌, ◌≢◌, refl, ap, ◌∙◌,
  Assoc, str_eq, if◌then◌else◌, arith, lookup, insert, get, lookup-insert_both,
}
use alertmesh_new.Engine.Alert.{RawAlert}
use alertmesh_new.Ingestion.KafkaFilter.{Libs, Value, CompiledField, LabelField, KafkaProgram}
use alertmesh_new.Ingestion.KafkaFilter.Cells.{
  Hits, Stop, mapping_error, missing_alertname, missing_severity, Outcome, stopped, value,
  Evaluation, pass, and_then, give, stop, eval_field, put_cell, put_cells, put_text,
}
use alertmesh_new.Ingestion.KafkaFilter.Apply.{
  Answer, Mapped, KafkaApplyResult, identify, collect_labels, collect_annotations, map_fields,
  refusal, answer_of, filtered, run_filter, start, apply_with, apply, says_yes, refused, alert_of,
  is_resolved_by, first_some, read_time,
}

-- What is said of a value, if there is one.
abbrev Holds {ℓ} : {A : Type 0} → (A → Type ℓ) → Outcome A → Type ℓ
Holds P (stopped s) = Unit
Holds P (value a) = P a

record Gives {A : Type 0} (P : A → Type 0) (m : Evaluation A) : Type 0 where
  holds : (hits : Hits) → Holds P (m hits).1

pass-Holds :
    {A B : Type 0} (P : A → Type 0) (Q : B → Type 0) (x : Hits × Outcome A) (f : A → Evaluation B)
    → Holds P x.1
    → ((a : A) → P a → Gives Q (f a))
    → Holds Q (pass x f).1
unfolding pass
pass-Holds P Q (hits, stopped s) f h i = tt
pass-Holds P Q (hits, value a) f h i = (i a h).holds hits

and_then-Gives :
    {A B : Type 0} {P : A → Type 0} {Q : B → Type 0} {m : Evaluation A} {f : A → Evaluation B}
    → Gives P m
    → ((a : A) → P a → Gives Q (f a))
    → Gives Q (and_then m f)
unfolding and_then
and_then-Gives {P = P} {Q = Q} {m = m} {f = f} h i = record {
  holds = λ hits. pass-Holds P Q (m hits) f (h.holds hits) i;
}

abbrev AnyValue : {A : Type 0} → A → Type 0
AnyValue a = Unit

Gives-any : {A : Type 0} (m : Evaluation A) → Gives AnyValue m
Gives-any {A = A} m = record { holds = λ hits. any (m hits).1 }
  where
    any : (o : Outcome A) → Holds AnyValue o
    any (stopped s) = tt
    any (value a) = tt

gives : {A : Type 0} {P : A → Type 0} (a : A) → P a → Gives P (give a)
gives a h = record { holds = λ hits. h }

-- The labels that an alert must have: `alertname` and `severity` not empty, and `source`.
unfoldable pub IsLabelled : Assoc String → Type 0
IsLabelled labels =
    (str_eq (get labels "alertname") "" ≡ false)
    × (str_eq (get labels "severity") "" ≡ false)
    × (lookup "source" labels ≢ none)

abbrev pub NotBlank : Option String → Type 0
NotBlank o = str_eq (elim o [ none ↦ "" | some v ↦ v ]) "" ≡ false

pub insert-IsLabelled :
    (key v : String) (table : Assoc String)
    → str_eq v "" ≡ false
    → IsLabelled table
    → IsLabelled (insert key v table)
unfolding IsLabelled get
insert-IsLabelled key v table e h = (
  lookup-insert_both NotBlank key "alertname" v table e h.0,
  lookup-insert_both NotBlank key "severity" v table e h.1,
  lookup-insert_both (λ o. o ≢ none) key "source" v table (λ q. ground (arith, q)) h.2,
)

put_text-IsLabelled :
    (key v : String) (table : Assoc String) → IsLabelled table → IsLabelled (put_text key v table)
put_text-IsLabelled key v table h = by_text (str_eq v "") refl
  where
    by_text : (b : Bool) → str_eq v "" ≡ b → IsLabelled (if b then table else insert key v table)
    by_text true e = h
    by_text false e = insert-IsLabelled key v table e h

put_cell-IsLabelled :
    (lib : Libs) (payload name key : String) (f : CompiledField) (table : Assoc String)
    → IsLabelled table
    → Gives IsLabelled (put_cell lib payload name key f table)
unfolding put_cell
put_cell-IsLabelled lib payload name key f table h =
    and_then-Gives (Gives-any (eval_field lib payload name f))
      (λ v u. gives (put_text key v table) (put_text-IsLabelled key v table h))

put_cells-IsLabelled :
    (lib : Libs) (payload prefix : String) (fields : List LabelField) (table : Assoc String)
    → IsLabelled table
    → Gives IsLabelled (put_cells lib payload prefix fields table)
unfolding put_cells
put_cells-IsLabelled lib payload prefix [] table h = gives table h
put_cells-IsLabelled lib payload prefix (lf ∷ rest) table h =
    and_then-Gives
      (put_cell-IsLabelled lib payload (String.◌++◌ prefix lf.key) lf.key lf.field table h)
      (put_cells-IsLabelled lib payload prefix rest)

abbrev Named : String × String → Type 0
Named who = (str_eq who.0 "" ≡ false) × (str_eq who.1 "" ≡ false)

identify-Named :
    (lib : Libs) (p : KafkaProgram) (payload : String) → Gives Named (identify lib p payload)
unfolding identify
identify-Named lib p payload =
    and_then-Gives (Gives-any (eval_field lib payload "mapping.alertname" p.alertname)) (λ a u.
      and_then-Gives (Gives-any (eval_field lib payload "mapping.severity" p.severity))
        (λ s v. checked a s (str_eq a "") (str_eq s "") refl refl))
  where
    checked :
        (a s : String) (x y : Bool)
        → str_eq a "" ≡ x
        → str_eq s "" ≡ y
        → Gives {A = String × String} Named
            (if x then stop missing_alertname else if y then stop missing_severity else give (a, s))
    checked a s true y e f = record { holds = λ hits. tt }
    checked a s false true e f = record { holds = λ hits. tt }
    checked a s false false e f = gives (a, s) (e, f)

map_fields-IsLabelled :
    (lib : Libs) (p : KafkaProgram) (payload source : String)
    → Gives (λ (m : Mapped). IsLabelled m.labels) (map_fields lib p payload source)
unfolding map_fields collect_labels IsLabelled get lookup
map_fields-IsLabelled lib p payload source =
    let cell = λ (name : String) (f : CompiledField). Gives-any (eval_field lib payload name f) in
    and_then-Gives (identify-Named lib p payload) (λ who n.
      and_then-Gives
        (put_cells-IsLabelled lib payload "mapping.labels." p.labels
          (("alertname", who.0) ∷ ("severity", who.1) ∷ ("source", source) ∷ [])
          (n.0, n.1, λ q. ground (arith, q)))
        (λ labels h.
          and_then-Gives (Gives-any (collect_annotations lib p payload)) (λ annotations u.
            and_then-Gives (cell "mapping.starts_at" p.starts_at) (λ starts_at v.
              and_then-Gives (cell "mapping.ends_at" p.ends_at) (λ ends_at w.
                and_then-Gives (cell "mapping.status_path" p.status_path) (λ status x.
                  and_then-Gives (cell "mapping.fingerprint" p.fingerprint)
                    (λ fingerprint y. gives _ h)))))))

-- Whether the filter lets a payload through: there is none, or it gives true.
abbrev pub admits : Libs → Option String → String → Bool
admits lib none payload = true
admits lib (some src) payload = says_yes (lib.run src payload)

-- An alert of a message that may be kept: the message is JSON and passes the filter, and the alert has
-- its labels, a status, and an end if it is resolved.
abbrev pub IsKept : Libs → KafkaProgram → String → Bool → RawAlert → Type 0
IsKept lib p payload resolved alert =
    (lib.valid payload ≡ true)
    × (admits lib p.filter payload ≡ true)
    × IsLabelled alert.labels
    × (alert.status ≡ (if resolved then "resolved" else "firing"))
    × (resolved ≡ true → alert.ends_at ≢ none)

-- An alert comes with `Keep` and no reason, and no alert with a reason.
abbrev pub IsAnswer : Libs → KafkaProgram → String → KafkaApplyResult → Option RawAlert → Type 0
IsAnswer lib p payload res none = (res.keep ≡ false) × (str_eq res.reason "" ≡ false)
IsAnswer lib p payload res (some alert) =
    (res.keep ≡ true) × (res.reason ≡ "") × IsKept lib p payload res.resolved alert

abbrev Answers : Libs → KafkaProgram → String → Answer → Type 0
Answers lib p payload a = IsAnswer lib p payload a.0 a.0.alert

refusal-IsAnswer :
    (lib : Libs) (p : KafkaProgram) (payload : String) (s : Stop) (fe : Option Bool) (hits : Hits)
    → Answers lib p payload (refusal s fe hits)
unfolding refusal
refusal-IsAnswer lib p payload (mapping_error name) fe hits = (refl, refl)
refusal-IsAnswer lib p payload missing_alertname fe hits = (refl, refl)
refusal-IsAnswer lib p payload missing_severity fe hits = (refl, refl)

ends_when_resolved :
    (resolved : Bool) (ends : Option ℕ) (later : ℕ)
    → resolved ≡ true
    → (if resolved then first_some ends (some later) else ends) ≢ none
ends_when_resolved true none later e = λ q. ground (arith, q)
ends_when_resolved true (some t) later e = λ q. ground (arith, q)
ends_when_resolved false ends later e = λ q. ground (arith, e)

answer_of-IsAnswer :
    (lib : Libs) (p : KafkaProgram) (payload source id : String) (now later : ℕ) (fe : Option Bool)
    (x : Hits × Outcome Mapped)
    → lib.valid payload ≡ true
    → admits lib p.filter payload ≡ true
    → Holds (λ m. IsLabelled m.labels) x.1
    → Answers lib p payload (answer_of lib p payload source id now later fe x)
unfolding answer_of alert_of
answer_of-IsAnswer lib p payload source id now later fe (hits, stopped s) v a h =
    refusal-IsAnswer lib p payload s fe hits
answer_of-IsAnswer lib p payload source id now later fe (hits, value m) v a h = (
  refl,
  refl,
  (
    v,
    a,
    h,
    refl,
    ends_when_resolved (is_resolved_by lib p payload m.status) (read_time lib m.ends_at) later,
  ),
)

start-IsAnswer :
    (lib : Libs) (p : KafkaProgram) (payload source id : String) (now later : ℕ)
    (filter : Option String) (hits : Hits)
    → p.filter ≡ filter
    → lib.valid payload ≡ true
    → Answers lib p payload (start lib p payload source id now later filter hits)
unfolding start run_filter filtered
start-IsAnswer lib p payload source id now later none hits e v =
    answer_of-IsAnswer lib p payload source id now later none (map_fields lib p payload source hits)
      v (ap (λ f. admits lib f payload) e) ((map_fields-IsLabelled lib p payload source).holds hits)
start-IsAnswer lib p payload source id now later (some src) hits e v =
    by_run (lib.run src payload) refl
  where
    by_yes :
        (ok : Bool)
        → says_yes (lib.run src payload) ≡ ok
        → Answers lib p payload (filtered lib p payload source id now later ok hits)
    by_yes false q = (refl, refl)
    by_yes true q =
        answer_of-IsAnswer lib p payload source id now later (some true)
          (map_fields lib p payload source hits) v (ap (λ f. admits lib f payload) e ∙ q)
          ((map_fields-IsLabelled lib p payload source).holds hits)

    by_run :
        (o : Option Value)
        → lib.run src payload ≡ o
        → Answers lib p payload (run_filter lib p payload source id now later o hits)
    by_run none q = (refl, refl)
    by_run (some x) q = by_yes (says_yes (some x)) (ap says_yes q)

-- `Apply` keeps a message or gives a reason. What it keeps is JSON that passes the filter, and its alert
-- has a non-empty `alertname` and `severity`, a `source`, the status that `Resolved` says, and an end if
-- it is resolved.
pub apply-IsAnswer :
    (lib : Libs) (p : KafkaProgram) (payload source id : String) (now later : ℕ)
    → IsAnswer lib p payload
        (apply lib p payload source id now later).0
        (apply lib p payload source id now later).0.alert
unfolding apply apply_with
apply-IsAnswer lib p payload source id now later = by_valid (lib.valid payload) refl
  where
    by_valid :
        (ok : Bool)
        → lib.valid payload ≡ ok
        → Answers lib p payload (
            if not ok
            then (refused "bad_json" none none, none)
            else start lib p payload source id now later p.filter (some []))
    by_valid false e = (refl, refl)
    by_valid true e = start-IsAnswer lib p payload source id now later p.filter (some []) refl e
