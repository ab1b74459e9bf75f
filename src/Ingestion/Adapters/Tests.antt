-- ===== src/Ingestion/Adapters/Tests.antt =====
-- internal/ingestion: runs of the adapters.
use mathlib.Core.List.{[], ◌∷◌}
use alertmesh_new.Prelude.{ℕ, true, none, some, ◌≡◌, refl, All}
use alertmesh_new.Ingestion.KafkaFilter.{Libs}
use alertmesh_new.Ingestion.Adapters.{AlertItem, alert_v2, adapt_v2}
use alertmesh_new.Ingestion.Adapters.Labelled.{IsTimely, adapt_v2-IsTimely}
use alertmesh_new.Ingestion.Adapters.Webhook.{
  Scalars, text_value, WebhookMapping, status_of, adapt_webhook,
}
use alertmesh_new.Ingestion.Adapters.Webhook.Firing.{adapt_webhook_firing_value}

abbrev lib : Libs
lib = record {
  valid = λ payload. true;
  get_path = λ payload path. none;
  compiles_bool = λ src. true;
  compiles_string = λ src. true;
  run = λ src payload. none;
  parse_layout = λ layout text. none;
  unix_epoch = 62135596800000000000;
  sha256_hex = λ text. text;
}

-- Every path gives the text "0".
abbrev scalars : Scalars
scalars = record {
  is_valid = λ payload. true;
  get_bytes = λ payload path. text_value "0";
  format_int = λ n. "0";
}

abbrev item : ℕ → AlertItem
item ends_at = record {
  status = "";
  labels = ("alertname", "Down") ∷ [];
  annotations = [];
  starts_at = 5;
  ends_at = ends_at;
  generator_url = "";
  fingerprint = "";
}

adapt_v2-IsTimely_example :
    All (IsTimely 20) (alert_v2 lib 20 "[]" (item 9) ∷ alert_v2 lib 20 "[]" (item 0) ∷ [])
unfolding adapt_v2
adapt_v2-IsTimely_example =
    adapt_v2-IsTimely lib 20 "[]" (some (item 9 ∷ item 0 ∷ []))
      (alert_v2 lib 20 "[]" (item 9) ∷ alert_v2 lib 20 "[]" (item 0) ∷ []) refl

abbrev mapping : WebhookMapping
mapping = record {
  alertname_path = "name";
  severity_path = "level";
  service_path = "";
  description_path = "";
  summary_path = "";
  starts_at_path = "";
  fingerprint_path = "";
  label_paths = [];
  status_path = "status";
  status_firing_value = "";
  status_resolved_value = "";
  default_severity = "";
}

adapt_webhook_firing_value_example :
    (adapt_webhook lib scalars "cloud" (record mapping { status_firing_value = "0" }) 3 "{}"
      ≡ adapt_webhook lib scalars "cloud" mapping 3 "{}")
    × (status_of (record mapping { status_firing_value = "0" }) "0" ≡ "resolved")
adapt_webhook_firing_value_example =
    adapt_webhook_firing_value lib scalars "cloud" mapping 3 "{}" "0"
