-- ===== src/Ingestion/KafkaFilter/Apply.antt =====
-- internal/ingestion/kafka_filter.go: `apply`, `Apply` and `ApplyForConsumer`, and ComputeFingerprint of
-- normalizer.go.
--
-- The two readings of the clock are arguments. A result without an alert has the zero value there.
pub mod Blind
pub mod Kept
use Prim.Native.String
use alertmesh_new.Prelude.{
  ℕ, String, Bool, true, false, not, Option, none, some, List, [], ◌∷◌, map, ◌&&◌, ◌||◌, str_eq,
  if◌then◌else◌, Assoc, insert, lookup, get, trim_space, to_lower, contains,
}
use alertmesh_new.Engine.Alert.{RawAlert}
use alertmesh_new.Engine.GroupKey.{sort_strings}
use alertmesh_new.Ingestion.KafkaFilter.{
  Libs, Value, bool_value, string_value, nil_value, other_value, CompiledField, LabelField,
  KafkaProgram, has_value,
}
use alertmesh_new.Ingestion.KafkaFilter.Times.{parse_flexible_time}
use alertmesh_new.Ingestion.KafkaFilter.Cells.{
  Hits, Stop, mapping_error, missing_alertname, missing_severity, Outcome, stopped, value,
  Evaluation, and_then, give, stop, eval_field, put_cell, put_cells,
}

-- `isResolvedKeyword`
unfoldable pub is_resolved_keyword : String → Bool
unfolding to_lower trim_space
is_resolved_keyword v =
    contains ("resolved" ∷ "ok" ∷ "recovered" ∷ "recover" ∷ "cleared" ∷ "info" ∷ [])
      (to_lower (trim_space v))

-- The answer of a Boolean program; an error is no answer.
unfoldable pub says_yes : Option Value → Bool
says_yes none = false
says_yes (some (bool_value b)) = b
says_yes (some (string_value s)) = false
says_yes (some nil_value) = false
says_yes (some (other_value s)) = false

-- The text that `ComputeFingerprint` hashes.
unfoldable pub fingerprint_text : Assoc String → List String → String
unfolding get
fingerprint_text labels [] = ""
fingerprint_text labels (k ∷ ks) =
    String.◌++◌ k
      (String.◌++◌ "=" (String.◌++◌ (get labels k) (String.◌++◌ "\n" (fingerprint_text labels ks))))

unfoldable pub compute_fingerprint : Libs → Assoc String → String
unfolding sort_strings fingerprint_text
compute_fingerprint lib labels =
    lib.sha256_hex (fingerprint_text labels (sort_strings (map (λ entry. entry.0) labels)))

-- The annotation with the filter that let the message through, unless the mapping has set it.
unfoldable pub with_filter : String → Assoc String → Assoc String
unfolding trim_space lookup insert
with_filter filter annotations =
    let src = trim_space filter in
    if str_eq src "" then annotations else elim (lookup "kafka_filter_expr" annotations) [
      | none ↦ insert "kafka_filter_expr" src annotations
      | some v ↦ annotations
    ]

abbrev pub read_time : Libs → String → Option ℕ
read_time lib v = if str_eq v "" then none else parse_flexible_time lib v

abbrev pub or_else : {A : Type 0} → A → Option A → A
or_else a none = a
or_else a (some b) = b

abbrev pub first_some : {A : Type 0} → Option A → Option A → Option A
first_some none b = b
first_some (some a) b = some a

abbrev pub said_yes : Libs → String → Option String → Bool
said_yes lib payload none = false
said_yes lib payload (some src) = says_yes (lib.run src payload)

-- Whether the status or the expression says that the alert is over.
unfoldable pub is_resolved_by : Libs → KafkaProgram → String → String → Bool
unfolding is_resolved_keyword says_yes
is_resolved_by lib p payload status =
    (not (str_eq status "") && is_resolved_keyword status) || said_yes lib payload p.resolved_when

-- The cells that an alert needs.
unfoldable pub identify : Libs → KafkaProgram → String → Evaluation (String × String)
unfolding and_then eval_field
identify lib p payload =
    and_then (eval_field lib payload "mapping.alertname" p.alertname) (λ alertname.
      and_then (eval_field lib payload "mapping.severity" p.severity) (λ severity.
        if str_eq alertname ""
        then stop missing_alertname
        else if str_eq severity ""
        then stop missing_severity
        else give (alertname, severity)))

-- What the cells have given.
pub record Mapped : Type 0 where
  pub labels : Assoc String
  pub annotations : Assoc String
  pub starts_at : String
  pub ends_at : String
  pub status : String
  pub fingerprint : String

unfoldable pub collect_labels :
    Libs → KafkaProgram → String → String → String × String → Evaluation (Assoc String)
unfolding put_cells
collect_labels lib p payload source who =
    put_cells lib payload "mapping.labels." p.labels
      (("alertname", who.0) ∷ ("severity", who.1) ∷ ("source", source) ∷ [])

unfoldable pub collect_annotations : Libs → KafkaProgram → String → Evaluation (Assoc String)
unfolding and_then put_cell put_cells with_filter
collect_annotations lib p payload =
    and_then (put_cell lib payload "mapping.summary" "summary" p.summary []) (λ summary.
      and_then (put_cell lib payload "mapping.description" "description" p.description summary)
        (λ both.
          and_then (put_cells lib payload "mapping.annotations." p.annotations both)
            (λ annotations. give (with_filter p.cfg.filter annotations))))

unfoldable pub map_fields : Libs → KafkaProgram → String → String → Evaluation Mapped
unfolding and_then eval_field identify collect_labels collect_annotations
map_fields lib p payload source = and_then (identify lib p payload) (λ who.
    and_then (collect_labels lib p payload source who) (λ labels.
      and_then (collect_annotations lib p payload) (λ annotations.
        and_then (eval_field lib payload "mapping.starts_at" p.starts_at) (λ starts_at.
          and_then (eval_field lib payload "mapping.ends_at" p.ends_at) (λ ends_at.
            and_then (eval_field lib payload "mapping.status_path" p.status_path) (λ status.
              and_then (eval_field lib payload "mapping.fingerprint" p.fingerprint) (λ fingerprint.
                give (record {
                  labels = labels;
                  annotations = annotations;
                  starts_at = starts_at;
                  ends_at = ends_at;
                  status = status;
                  fingerprint = fingerprint;
                }))))))))

-- The alert of a message, from its cells; `now` is read before `later`.
unfoldable pub alert_of : Libs → KafkaProgram → String → String → String → ℕ → ℕ → Mapped → RawAlert
unfolding is_resolved_by parse_flexible_time compute_fingerprint
alert_of lib p payload source data_source_id now later m =
    let resolved = is_resolved_by lib p payload m.status in
    record {
      source = source;
      fingerprint =
          if str_eq m.fingerprint "" then compute_fingerprint lib m.labels else m.fingerprint;
      labels = m.labels;
      annotations = m.annotations;
      starts_at = or_else now (read_time lib m.starts_at);
      ends_at =
          if resolved
          then first_some (read_time lib m.ends_at) (some later)
          else read_time lib m.ends_at;
      status = if resolved then "resolved" else "firing";
      raw_payload = payload;
      data_source_id = data_source_id;
    }

pub record KafkaApplyResult : Type 0 where
  pub keep : Bool
  pub reason : String
  pub alert : Option RawAlert
  pub filter_eval : Option Bool
  pub resolved : Bool
  pub mapping_hits : Hits

-- The result of a message that is not kept.
abbrev pub refused : String → Option Bool → Hits → KafkaApplyResult
refused reason filter_eval hits = record {
  keep = false;
  reason = reason;
  alert = none;
  filter_eval = filter_eval;
  resolved = false;
  mapping_hits = hits;
}

-- The answer, with the name of the part whose error it returns.
abbrev pub Answer : Type 0
Answer = KafkaApplyResult × Option String

unfoldable pub refusal : Stop → Option Bool → Hits → Answer
refusal (mapping_error name) filter_eval hits =
    (refused "mapping_error" filter_eval hits, some name)
refusal missing_alertname filter_eval hits = (refused "missing_alertname" filter_eval hits, none)
refusal missing_severity filter_eval hits = (refused "missing_severity" filter_eval hits, none)

module _ (lib : Libs) (p : KafkaProgram) (payload source data_source_id : String)
    (now later : ℕ) where
  unfoldable pub answer_of : Option Bool → Hits × Outcome Mapped → Answer
  unfolding refusal alert_of is_resolved_by
  answer_of filter_eval (hits, stopped s) = refusal s filter_eval hits
  answer_of filter_eval (hits, value m) = (
    record {
      keep = true;
      reason = "";
      alert = some (alert_of lib p payload source data_source_id now later m);
      filter_eval = filter_eval;
      resolved = is_resolved_by lib p payload m.status;
      mapping_hits = hits;
    },
    none,
  )

  -- What follows the filter, from its answer.
  unfoldable pub filtered : Bool → Hits → Answer
  unfolding answer_of map_fields
  filtered false hits = (refused "filter_false" (some false) hits, none)
  filtered true hits = answer_of (some true) (map_fields lib p payload source hits)

  unfoldable pub run_filter : Option Value → Hits → Answer
  unfolding filtered says_yes
  run_filter none hits = (refused "filter_error" none none, some "filter")
  run_filter (some v) hits = filtered (says_yes (some v)) hits

  unfoldable pub start : Option String → Hits → Answer
  unfolding run_filter answer_of map_fields
  start none hits = answer_of none (map_fields lib p payload source hits)
  start (some src) hits = run_filter (lib.run src payload) hits

  unfoldable pub apply_with : Hits → Answer
  unfolding start
  apply_with hits =
      if not (lib.valid payload) then (refused "bad_json" none none, none) else start p.filter hits

  -- `Apply` and `ApplyForConsumer`
  unfoldable pub apply : Answer
  unfolding apply_with
  apply = apply_with (some [])

  unfoldable pub apply_for_consumer : Answer
  unfolding apply_with
  apply_for_consumer = apply_with none
