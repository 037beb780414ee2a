-- ===== src/Webhook/Service.antt =====
-- `Service` of internal/webhook/service.go: endpoints, and events on their way to them. Logging is
-- left out.
pub mod Dispatch
pub mod Calls
pub mod Errors
pub mod Rule
pub mod Told
pub mod Duplicate
pub mod Sent
pub mod Recorded
pub mod Again
pub mod Created
use fmxevolution_go.Base.{
  ℕ, suc, ◌*◌, ◌-◌, ◌^◌, String, Bool, true, false, ◌&&◌, ◌||◌, not, Option, none, some, List, [],
  ◌∷◌, ◌++◌, str_eq, leb, ltb, if◌then◌else◌, ℤ, pos, nonneg_part, to_int64, Time, add_duration,
  second, minute, trim_space, is_blank,
}
use fmxevolution_go.Base.Effect.{Out, ok, err, pure, raise, fail_if, from_out, ◌>>=◌, ◌>>◌}
use fmxevolution_go.Domain.{Kind, GoError, domain_error, plain_error}
use fmxevolution_go.Webhook.Model.{
  WebhookEndpoint, WebhookDelivery, CreateInput, DeliveryResult, EventEnvelope, Settings,
}
use fmxevolution_go.Webhook.Repo.{
  status_pending, status_delivered, status_retrying, status_failed, find_endpoint, insert_endpoint,
  list_by_tenant,
}
use fmxevolution_go.Webhook.Env.{Env, World, Post, Answer, Req, ask, query}

abbrev pub invalid : String → GoError
invalid = domain_error Kind.validation

unfoldable pub validate_webhook_url : Env → String → Out GoError (Unit {0})
validate_webhook_url env raw = elim (env.parse_request_uri (trim_space raw)) [
  | none ↦ err (invalid "invalid webhook url")
  | some scheme ↦
      if str_eq scheme "http" || str_eq scheme "https"
      then ok tt
      else err (invalid "webhook url must use http or https")
]

-- The endpoint that `Create` hands to the repository.
unfoldable pub new_endpoint : String → CreateInput → WebhookEndpoint
new_endpoint tenant input =
    let neither = not input.inbound_enabled && not input.outbound_enabled in
    record {
      id = "";
      tenant_id = tenant;
      name = trim_space input.name;
      url = trim_space input.url;
      inbound_enabled = if neither then true else input.inbound_enabled;
      outbound_enabled = if neither then true else input.outbound_enabled;
      signing_secret = trim_space input.signing_secret;
      created_at = 0;
    }

-- `repo.Create`
unfoldable pub create_endpoint : Env → WebhookEndpoint → Req WebhookEndpoint
unfolding insert_endpoint
create_endpoint env e w = elim (env.db_fault w.tick) [
  | none ↦
      let (made, rows) = insert_endpoint (env.new_id w.tick) (env.clock w.tick) e w.endpoints in
      (ok made, record w { tick = suc w.tick; endpoints = rows })
  | some e ↦ (err (plain_error e), record w { tick = suc w.tick })
]

unfoldable pub create : Env → String → CreateInput → Req WebhookEndpoint
unfolding fail_if from_out ◌>>=◌ create_endpoint
create env tenant input = do
  fail_if (is_blank input.name || is_blank input.url) (invalid "name and url are required")
  from_out (validate_webhook_url env input.url)
  create_endpoint env (new_endpoint tenant input)

unfoldable pub list : Env → String → Req (List WebhookEndpoint)
unfolding query
list env tenant = query env λ w. list_by_tenant tenant w.endpoints

-- Every error of the repository is answered as a missing endpoint.
unfoldable pub get : Env → String → String → Req WebhookEndpoint
unfolding query find_endpoint
get env tenant i w =
    let missing = domain_error Kind.not_found "webhook endpoint not found" in
    let (found, w') = query env (λ v. find_endpoint tenant i v.endpoints) w in
    elim found [
      | ok (some e) ↦ (ok e, w')
      | ok none ↦ (err missing, w')
      | err e ↦ (err missing, w')
    ]

unfoldable pub should_deliver : WebhookEndpoint → String → Bool
should_deliver e direction =
    if str_eq direction "inbound" then e.inbound_enabled else e.outbound_enabled

-- The request to an endpoint.
unfoldable pub post_to : Env → EventEnvelope → String → WebhookEndpoint → Post
post_to env envelope body e = record {
  url = e.url;
  tenant_id = e.tenant_id;
  event_type = envelope.event_type;
  direction = envelope.direction;
  event_id = envelope.event_id;
  signature =
      if str_eq e.signing_secret "" then none else some (env.sign_payload e.signing_secret body);
  body = body;
}

unfoldable pub send_once : Env → WebhookEndpoint → EventEnvelope → String → World → Answer × World
unfolding post_to
send_once env e envelope body w = elim (env.request_fault e.url) [
  | some fault ↦ (err fault, w)
  | none ↦
      let post = post_to env envelope body e in
      (env.answer w.tick post, record w { tick = suc w.tick; outbox = w.outbox ++ post ∷ [] })
]

-- `sendErr == nil && statusCode >= 200 && statusCode < 300`
unfoldable pub is_success : Answer → Bool
is_success (err e) = false
is_success (ok (status, body)) = leb 200 status && ltb status 300

-- The status and the body that `sendOnce` returns, beside an error too.
unfoldable pub status_of : Answer → ℕ
status_of (err e) = 0
status_of (ok (status, body)) = status

unfoldable pub body_of : Answer → String
body_of (err e) = ""
body_of (ok (status, body)) = body

unfoldable pub delivery_error : Answer → String
delivery_error (err e) = e
delivery_error (ok (status, body)) = if str_eq body "" then "non-2xx response" else body

-- For an attempt behind the first. The shift is one of `int64`.
unfoldable pub backoff_for : ℕ → ℤ
backoff_for n =
    let d = to_int64 (30 * second * 2 ^ (n - 1)) in
    if ltb (30 * minute) (nonneg_part d) then pos (30 * minute) else d

unfoldable pub schedule_retry_fields : Time → ℕ → WebhookDelivery → WebhookDelivery
unfolding backoff_for
schedule_retry_fields now n d =
    if leb d.max_attempts n
    then record d { status = status_failed; next_attempt_at = none; delivered_at = none }
    else record d {
      status = status_retrying;
      next_attempt_at = some (add_duration now (backoff_for n));
    }

-- The delivery that `deliver` starts with.
unfoldable pub new_delivery : Settings → WebhookEndpoint → EventEnvelope → String → WebhookDelivery
new_delivery s e envelope body = record {
  id = "";
  tenant_id = e.tenant_id;
  endpoint_id = e.id;
  endpoint_url = e.url;
  direction = envelope.direction;
  event_type = envelope.event_type;
  event_id = envelope.event_id;
  message_id = envelope.message_id;
  status = status_pending;
  attempts = 0;
  max_attempts = s.max_attempts;
  response_status = 0;
  request_body = body;
  response_body = "";
  error_message = "";
  next_attempt_at = none;
  delivered_at = none;
  created_at = 0;
}

-- A delivery with the answer to its attempt, which is its n-th.
unfoldable pub answered : Answer → ℕ → WebhookDelivery → WebhookDelivery
unfolding status_of body_of
answered sent n d = record d {
  attempts = n;
  response_status = status_of sent;
  response_body = body_of sent;
}

-- The n-th attempt has failed.
unfoldable pub attempt_failed : Answer → Time → ℕ → WebhookDelivery → WebhookDelivery
unfolding delivery_error schedule_retry_fields answered
attempt_failed sent now n d =
    schedule_retry_fields now n (record (answered sent n d) { error_message = delivery_error sent })

-- What the first attempt makes of it.
unfoldable pub first_attempt : Answer → Time → WebhookDelivery → WebhookDelivery
unfolding is_success answered attempt_failed
first_attempt sent now d =
    if is_success sent
    then record (answered sent 1 d) { status = status_delivered; delivered_at = some now }
    else attempt_failed sent now 1 d

-- `CreateDelivery`, whose error is only logged: gorm sets the identifier and the time of creation.
unfoldable pub create_delivery : Env → WebhookDelivery → World → WebhookDelivery × World
create_delivery env d w = elim (env.db_fault w.tick) [
  | none ↦
      let made = record d { id = env.new_id w.tick; created_at = env.clock w.tick } in
      (made, record w { tick = suc w.tick; deliveries = w.deliveries ++ made ∷ [] })
  | some fault ↦ (record d { id = env.refused_id w.tick }, record w { tick = suc w.tick })
]

unfoldable pub result_of : WebhookEndpoint → Answer → String → DeliveryResult
unfolding is_success status_of delivery_error
result_of e sent id = record {
  endpoint_id = e.id;
  endpoint_name = e.name;
  url = e.url;
  delivered = is_success sent;
  status_code = status_of sent;
  delivery_id = id;
  error = if is_success sent then "" else delivery_error sent;
}

unfoldable pub deliver :
    Env → Settings → WebhookEndpoint → EventEnvelope → String → World → DeliveryResult × World
unfolding send_once new_delivery first_attempt create_delivery result_of
deliver env s e envelope body w =
    let (sent, w₁) = send_once env e envelope body w in
    let tried = first_attempt sent (env.clock w₁.tick) (new_delivery s e envelope body) in
    let (kept, w₂) = create_delivery env tried (record w₁ { tick = suc w₁.tick }) in
    (result_of e sent kept.id, w₂)
