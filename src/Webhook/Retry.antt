-- ===== src/Webhook/Retry.antt =====
-- internal/webhook/retry.go: the worker that takes up failed deliveries again. `Start` and `Stop`,
-- which repeat `processDueRetries` every 15 seconds until the context ends, are not modelled.
use fmxevolution_go.Base.{ℕ, suc, String, Bool, none, some, List, [], ◌∷◌, if◌then◌else◌, Time}
use fmxevolution_go.Base.Effect.{ok, err}
use fmxevolution_go.Webhook.Values.{empty}
use fmxevolution_go.Webhook.Model.{
  WebhookEndpoint, WebhookDelivery, WebhookDeliveryFilter, EventEnvelope,
}
use fmxevolution_go.Webhook.Repo.{
  status_delivered, find_endpoint, save_delivery, list_deliveries, list_due_retries,
}
use fmxevolution_go.Webhook.Env.{Env, World, Answer, Req, query}
use fmxevolution_go.Webhook.Service.{send_once, is_success, answered, attempt_failed}

-- The endpoint as it is stored now, or what the delivery knows of it.
unfoldable pub current_endpoint : Env → WebhookDelivery → World → WebhookEndpoint × World
unfolding query find_endpoint
current_endpoint env d w =
    let (found, w') = query env (λ v. find_endpoint d.tenant_id d.endpoint_id v.endpoints) w in
    let known : WebhookEndpoint = record {
      id = d.endpoint_id;
      tenant_id = d.tenant_id;
      name = "";
      url = d.endpoint_url;
      inbound_enabled = Bool.false;
      outbound_enabled = Bool.false;
      signing_secret = "";
      created_at = 0;
    } in
    elim found [ ok (some e) ↦ (e, w') | ok none ↦ (known, w') | err e ↦ (known, w') ]

unfoldable pub envelope_of : WebhookDelivery → EventEnvelope
envelope_of d = record {
  event_id = d.event_id;
  tenant_id = d.tenant_id;
  direction = d.direction;
  event_type = d.event_type;
  raw_event_type = "";
  instance_id = "";
  message_id = d.message_id;
  timestamp = 0;
  values = empty;
}

-- What one more attempt makes of a delivery.
unfoldable pub next_attempt : Answer → Time → WebhookDelivery → WebhookDelivery
unfolding is_success answered attempt_failed
next_attempt sent now d =
    let n = suc d.attempts in
    if is_success sent
    then record (answered sent n d) {
      status = status_delivered;
      delivered_at = some now;
      next_attempt_at = none;
      error_message = "";
    }
    else attempt_failed sent now n d

-- `UpdateDelivery`, whose error is only logged
unfoldable pub update_delivery : Env → WebhookDelivery → World → World
unfolding save_delivery
update_delivery env d w = elim (env.db_fault w.tick) [
  | none ↦ record w { tick = suc w.tick; deliveries = save_delivery d w.deliveries }
  | some fault ↦ record w { tick = suc w.tick }
]

unfoldable pub retry_delivery : Env → WebhookDelivery → World → World
unfolding current_endpoint envelope_of send_once next_attempt update_delivery
retry_delivery env d w =
    let (e, w₁) = current_endpoint env d w in
    let (sent, w₂) = send_once env e (envelope_of d) d.request_body w₁ in
    update_delivery env (next_attempt sent (env.clock w₂.tick) d) (record w₂ { tick = suc w₂.tick })

-- The run ends where the context has ended.
unfoldable pub retry_all : Env → List WebhookDelivery → World → World
unfolding retry_delivery
retry_all env [] w = w
retry_all env (d ∷ ds) w =
    let asked = record w { tick = suc w.tick } in
    let rest = retry_all env ds (retry_delivery env d asked) in
    if env.cancelled w.tick then asked else rest

abbrev pub due_limit : ℕ
due_limit = 50

unfoldable pub process_due_retries : Env → World → World
unfolding query list_due_retries retry_all
process_due_retries env w =
    let now = env.clock w.tick in
    let (due, w') =
      query env (λ v. list_due_retries now due_limit v.deliveries)
        (record w { tick = suc w.tick }) in
    elim due [ ok ds ↦ retry_all env ds w' | err e ↦ w' ]

unfoldable pub list_deliveries_of :
    Env → String → WebhookDeliveryFilter → Req (List WebhookDelivery)
unfolding query list_deliveries
list_deliveries_of env tenant f = query env λ w. list_deliveries tenant f w.deliveries
