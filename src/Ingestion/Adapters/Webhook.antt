-- ===== src/Ingestion/Adapters/Webhook.antt =====
-- internal/ingestion/webhook.go: `WebhookAdapter.Adapt`.
--
-- `Scalars` stands for gjson and strconv. The text of an object is cut by characters.
pub mod Firing
use Prim.Native.String
use alertmesh_new.Prelude.{
  ℕ, suc, ◌+◌, ◌*◌, String, Bool, true, false, not, Option, none, some, List, [], ◌∷◌, ◌++◌, ◌&&◌,
  ◌||◌, ltb, leb, str_eq, if◌then◌else◌, Assoc, insert, ℤ, pos, negsuc, ◌≡◌, refl, sym, ap, ◌∙◌,
  if-both, trim_space, to_lower,
}
use alertmesh_new.Engine.Alert.{RawAlert}
use alertmesh_new.Ingestion.KafkaFilter.{Libs}
use alertmesh_new.Ingestion.KafkaFilter.Times.{size}
use alertmesh_new.Ingestion.KafkaFilter.Cells.{put_text}
use alertmesh_new.Ingestion.KafkaFilter.Apply.{compute_fingerprint}
use alertmesh_new.Ingestion.Adapters.{
  Adapted, rejected, adapted, invalid_payload, missing_fields, take_chars,
}

-- A value that a path gives.
pub data JsonValue : Type 0 where
  absent_value : JsonValue
  null_value : JsonValue
  text_value : String → JsonValue
  -- Int, whether Float is that integer, and Raw
  number_value : ℤ → Bool → String → JsonValue
  truth_value : Bool → JsonValue
  -- an object or an array, with Raw
  tree_value : String → JsonValue

pub record Scalars : Type 0 where
  -- gjson.ValidBytes
  pub is_valid : String → Bool
  -- gjson.GetBytes
  pub get_bytes : String → String → JsonValue
  -- strconv.FormatInt(n, 10)
  pub format_int : ℤ → String

pub record WebhookMapping : Type 0 where
  pub alertname_path : String
  pub severity_path : String
  pub service_path : String
  pub description_path : String
  pub summary_path : String
  pub starts_at_path : String
  pub fingerprint_path : String
  pub label_paths : Assoc String
  pub status_path : String
  pub status_firing_value : String
  pub status_resolved_value : String
  pub default_severity : String

unfoldable pub scalar_text : Scalars → JsonValue → String
unfolding take_chars
scalar_text js absent_value = ""
scalar_text js null_value = ""
scalar_text js (text_value s) = s
scalar_text js (number_value n whole raw) = if whole then js.format_int n else raw
scalar_text js (truth_value true) = "true"
scalar_text js (truth_value false) = "false"
scalar_text js (tree_value raw) =
    if ltb 4096 (size raw) then String.◌++◌ (take_chars 4096 raw) "…" else raw

-- `jsonScalarString`, trimmed as `Adapt` does each time.
unfoldable pub json_scalar_string : Scalars → String → String → String
unfolding scalar_text trim_space
json_scalar_string js payload path =
    if str_eq path "" then "" else trim_space (scalar_text js (js.get_bytes payload path))

abbrev pub event_layouts : List String
event_layouts =
    "2006-01-02T15:04:05.999999999Z07:00" ∷ "2006-01-02T15:04:05Z07:00" ∷ "2006-01-02 15:04:05"
    ∷ "2006-01-02T15:04:05" ∷ []

unfoldable pub parse_layouts : Libs → String → ℕ → List String → ℕ
parse_layouts lib s fallback [] = fallback
parse_layouts lib s fallback (layout ∷ rest) =
    let later = parse_layouts lib s fallback rest in
    elim (lib.parse_layout layout s) [ none ↦ later | some t ↦ t ]

-- `parseEventTime`
unfoldable pub parse_event_time : Libs → JsonValue → ℕ → ℕ
unfolding trim_space parse_layouts
parse_event_time lib absent_value fallback = fallback
parse_event_time lib null_value fallback = fallback
parse_event_time lib (number_value (negsuc n) whole raw) fallback = fallback
parse_event_time lib (number_value (pos n) whole raw) fallback =
    if ltb 9999999999 n
    then lib.unix_epoch + n * 1000000
    else if ltb 0 n
    then lib.unix_epoch + n * 1000000000
    else fallback
parse_event_time lib (text_value raw) fallback =
    if str_eq (trim_space raw) ""
    then fallback
    else parse_layouts lib (trim_space raw) fallback event_layouts
parse_event_time lib (truth_value b) fallback = fallback
parse_event_time lib (tree_value raw) fallback = fallback

unfoldable pub any_lower : String → List String → Bool
unfolding to_lower
any_lower v [] = false
any_lower v (x ∷ xs) = str_eq v (to_lower x) || any_lower v xs

abbrev pub with_value : List String → String → List String
with_value vals v = if str_eq v "" then vals else vals ++ v ∷ []

-- A loop over the values that mean a status.
unfoldable pub mark_status : List String → String → String → String → String
unfolding any_lower
mark_status vals v meant status = if any_lower v vals then meant else status

-- The status of a value: the loop over the firing values, and then the one over the resolved.
unfoldable pub status_of : WebhookMapping → String → String
unfolding mark_status to_lower
status_of m val =
    mark_status (with_value ("resolved" ∷ "0" ∷ []) m.status_resolved_value) (to_lower val)
      "resolved"
      (mark_status (with_value ("firing" ∷ "1" ∷ []) m.status_firing_value) (to_lower val) "firing"
        "firing")

module _ (lib : Libs) (js : Scalars) where
  unfoldable pub put_labels : String → Assoc String → Assoc String → Assoc String
  unfolding json_scalar_string
  put_labels payload [] labels = labels
  put_labels payload (entry ∷ paths) labels =
      let skipped = str_eq entry.0 "" || str_eq entry.1 "" in
      put_labels payload paths (
        if skipped then labels else put_text entry.0 (json_scalar_string js payload entry.1) labels)

  unfoldable pub webhook_severity : WebhookMapping → String → String
  unfolding json_scalar_string
  webhook_severity m payload =
      let severity = json_scalar_string js payload m.severity_path in
      if str_eq severity "" && not (str_eq m.default_severity "")
      then m.default_severity
      else severity

  unfoldable pub webhook_labels : String → WebhookMapping → String → Assoc String
  unfolding json_scalar_string webhook_severity put_labels
  webhook_labels source m payload = put_labels payload m.label_paths (
      put_text "service" (json_scalar_string js payload m.service_path) (
        ("alertname", json_scalar_string js payload m.alertname_path)
        ∷ ("severity", webhook_severity m payload)
        ∷ ("source", source)
        ∷ []))

  unfoldable pub webhook_status : WebhookMapping → String → String
  unfolding json_scalar_string status_of trim_space
  webhook_status m payload =
      if str_eq (trim_space m.status_path) ""
      then "firing"
      else status_of m (json_scalar_string js payload (trim_space m.status_path))

  unfoldable pub webhook_alert : String → WebhookMapping → ℕ → String → String → RawAlert
  unfolding webhook_labels json_scalar_string parse_event_time compute_fingerprint trim_space
  webhook_alert source m now payload status =
      let given = json_scalar_string js payload m.fingerprint_path in
      let labels = webhook_labels source m payload in
      record {
        source = source;
        fingerprint = if str_eq given "" then compute_fingerprint lib labels else given;
        labels = labels;
        annotations =
            put_text "summary" (json_scalar_string js payload m.summary_path)
              (put_text "description" (json_scalar_string js payload m.description_path) []);
        starts_at =
            if str_eq (trim_space m.starts_at_path) ""
            then now
            else parse_event_time lib (js.get_bytes payload (trim_space m.starts_at_path)) now;
        ends_at = none;
        status = status;
        raw_payload = payload;
        data_source_id = "";
      }

  -- `WebhookAdapter.Adapt`
  unfoldable pub adapt_webhook : String → WebhookMapping → ℕ → String → Adapted
  unfolding json_scalar_string webhook_severity webhook_alert webhook_status
  adapt_webhook source m now payload =
      if not (js.is_valid payload)
      then rejected invalid_payload
      else if str_eq (json_scalar_string js payload m.alertname_path) ""
          || str_eq (webhook_severity m payload) ""
      then rejected missing_fields
      else adapted (webhook_alert source m now payload (webhook_status m payload) ∷ [])
