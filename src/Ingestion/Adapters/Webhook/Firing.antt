-- ===== src/Ingestion/Adapters/Webhook/Firing.antt =====
-- internal/ingestion/webhook.go: the value that means firing.
use alertmesh_new.Prelude.{
  ℕ, String, not, List, [], ◌∷◌, ◌||◌, str_eq, if◌then◌else◌, ◌≡◌, refl, sym, ap, ◌∙◌, if-both,
  trim_space, to_lower,
}
use alertmesh_new.Ingestion.KafkaFilter.{Libs}
use alertmesh_new.Ingestion.Adapters.{rejected, adapted, invalid_payload, missing_fields}
use alertmesh_new.Ingestion.Adapters.Webhook.{
  Scalars, WebhookMapping, any_lower, with_value, mark_status, status_of, json_scalar_string,
  webhook_severity, webhook_labels, webhook_status, webhook_alert, adapt_webhook,
}

mark_status_same :
    (vals : List String) (v status : String) → mark_status vals v status status ≡ status
unfolding mark_status
mark_status_same vals v status = if-both (λ s. s ≡ status) (any_lower v vals) refl refl

status_of_firing_value :
    (m : WebhookMapping) (value val : String)
    → status_of (record m { status_firing_value = value }) val ≡ status_of m val
unfolding status_of
status_of_firing_value m value val =
    let resolved = with_value ("resolved" ∷ "0" ∷ []) m.status_resolved_value in
    ap (mark_status resolved (to_lower val) "resolved") (
      mark_status_same (with_value ("firing" ∷ "1" ∷ []) value) (to_lower val) "firing"
      ∙ sym (
          mark_status_same (with_value ("firing" ∷ "1" ∷ []) m.status_firing_value) (to_lower val)
            "firing"))

webhook_status_firing_value :
    (lib : Libs) (js : Scalars) (m : WebhookMapping) (value payload : String)
    → webhook_status lib js (record m { status_firing_value = value }) payload
      ≡ webhook_status lib js m payload
unfolding webhook_status
webhook_status_firing_value lib js m value payload =
    ap (λ s. if str_eq (trim_space m.status_path) "" then "firing" else s)
      (status_of_firing_value m value (json_scalar_string js payload (trim_space m.status_path)))

-- The value "0" means resolved, whatever the mapping configures.
status_of_zero : (m : WebhookMapping) → status_of m "0" ≡ "resolved"
unfolding status_of mark_status any_lower to_lower
status_of_zero m =
    if-both
      (λ vals.
        mark_status vals "0" "resolved" (
          mark_status (with_value ("firing" ∷ "1" ∷ []) m.status_firing_value) "0" "firing"
            "firing")
        ≡ "resolved")
      (str_eq m.status_resolved_value "") refl refl

-- The value that the mapping configures for firing alerts has no effect on what the adapter makes of a
-- payload, and a status "0" is resolved whatever that value is, also if it is "0".
pub adapt_webhook_firing_value :
    (lib : Libs) (js : Scalars) (source : String) (m : WebhookMapping) (now : ℕ)
    (payload value : String)
    → (adapt_webhook lib js source (record m { status_firing_value = value }) now payload
        ≡ adapt_webhook lib js source m now payload)
      × (status_of (record m { status_firing_value = value }) "0" ≡ "resolved")
unfolding adapt_webhook webhook_alert webhook_labels webhook_severity
adapt_webhook_firing_value lib js source m now payload value = (
  ap
      (λ status.
        if not (js.is_valid payload)
        then rejected invalid_payload
        else if str_eq (json_scalar_string js payload m.alertname_path) ""
            || str_eq (webhook_severity lib js m payload) ""
        then rejected missing_fields
        else adapted (webhook_alert lib js source m now payload status ∷ []))
      (webhook_status_firing_value lib js m value payload),
  status_of_zero (record m { status_firing_value = value }),
)
