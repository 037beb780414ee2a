-- ===== src/Webhook/Examples.antt =====
-- The theorems on webhooks at concrete inputs.
use fmxevolution_go.Base.{
  trim_space, to_lower, replace_char, inl, inr, suc, ◌+◌, ◌*◌, true, false, ◌≡◌, refl, none, some,
  List, [], ◌∷◌, String, pos, second, All, Pointwise, arith,
}
use fmxevolution_go.Base.Effect.{ok}
use fmxevolution_go.Webhook.Values.{get, among, text, empty, field}
use fmxevolution_go.Webhook.Model.{
  WebhookEndpoint, WebhookDelivery, DispatchInput, CreateInput, DeliveryResult, Settings,
  new_service,
}
use fmxevolution_go.Webhook.Events.{normalize_event_type, names, event_key, name_of, is_from_me}
use fmxevolution_go.Webhook.Payload.{is_inbound_conversation_event}
use fmxevolution_go.Webhook.Env.{Env, World}
use fmxevolution_go.Webhook.Service.{
  invalid, validate_webhook_url, new_endpoint, should_deliver, backoff_for, create,
}
use fmxevolution_go.Webhook.Service.Dispatch.{dispatch}
use fmxevolution_go.Webhook.Service.Errors.{dispatch_event, Untouched, dispatch_event-error}
use fmxevolution_go.Webhook.Service.Sent.{Answered, dispatch-Answered}
use fmxevolution_go.Webhook.Service.Again.{dispatch_again}
use fmxevolution_go.Webhook.Service.Created.{Added, create-Added}
use fmxevolution_go.Webhook.Retry.{process_due_retries}
use fmxevolution_go.Webhook.Backoff.{backoff_for_lem}
use fmxevolution_go.Webhook.Lifecycle.{RowStep, IsDelivery}
use fmxevolution_go.Webhook.Lifecycle.Runs.{process_due_retries-RowStep}
use fmxevolution_go.Webhook.Operations.{Operation, inbound, retries, run, run-IsDelivery}

abbrev endpoint : String → WebhookEndpoint
endpoint id = record {
  id = id;
  tenant_id = "t1";
  name = "flow";
  url = "https://example.com";
  inbound_enabled = true;
  outbound_enabled = true;
  signing_secret = "s";
  created_at = 3;
}

abbrev delivery : WebhookDelivery
delivery = record {
  id = "d1";
  tenant_id = "t1";
  endpoint_id = "e1";
  endpoint_url = "https://example.com";
  direction = "inbound";
  event_type = "message.received";
  event_id = "v1";
  message_id = "m0";
  status = "retrying";
  attempts = 2;
  max_attempts = 5;
  response_status = 500;
  request_body = "{}";
  response_body = "";
  error_message = "non-2xx response";
  next_attempt_at = some 90;
  delivered_at = none;
  created_at = 5;
}

abbrev env : Env
env = record {
  clock = λ n. 100 + n;
  cancelled = λ _. false;
  db_fault = λ _. none;
  new_id = λ _. "d2";
  refused_id = λ _. "";
  new_event_id = λ _. "v2";
  parse_request_uri = λ _. some "https";
  parse_time = λ _. none;
  marshal = λ _. ok "{}";
  sign_payload = λ _ _. "0a";
  request_fault = λ _. none;
  answer = λ _ _. ok (200, "");
  has_ai = false;
}

abbrev world : World
world = record {
  endpoints = endpoint "e1" ∷ [];
  deliveries = delivery ∷ [];
  tick = 0;
  outbox = [];
  notified = [];
  triggered = [];
}

abbrev input : String → DispatchInput
input event = record {
  event_type = event;
  instance_id = "i1";
  message_id = "m1";
  values = field "from" (text "551") empty;
}

abbrev result : DeliveryResult
result = record {
  endpoint_id = "e1";
  endpoint_name = "flow";
  url = "https://example.com";
  delivered = true;
  status_code = 200;
  delivery_id = "d2";
  error = "";
}

-- The clock of `env` moves by less than the window.
abbrev still : Env
still = record env { clock = λ _. 100 }

backoff_for_example : backoff_for 3 ≡ pos (120 * second)
backoff_for_example = backoff_for_lem 3 (omega arith) (omega arith)

process_due_retries-RowStep_example :
    Pointwise RowStep (delivery ∷ []) (process_due_retries env world).deliveries
process_due_retries-RowStep_example = process_due_retries-RowStep env world (tt, tt)

abbrev steps : List (Settings × Operation)
steps = (new_service, inbound "t1" (input "message")) ∷ (new_service, retries) ∷ []

run-IsDelivery_example : All IsDelivery (run env steps world).deliveries
run-IsDelivery_example =
    run-IsDelivery env steps world (omega arith, (omega arith, tt))
      ((omega arith, omega arith, inr (inl (refl, omega arith, refl))), tt)

dispatch_event-error_example :
    Untouched world (dispatch_event true env new_service "t1" (input " ") world).1
unfolding dispatch_event is_inbound_conversation_event to_lower trim_space
dispatch_event-error_example =
    dispatch_event-error true env new_service "t1" (input " ") world
      (invalid "event_type is required") refl

dispatch-Answered_example :
    Answered env new_service "t1" "inbound"
      (input "message")
      world
      (result ∷ [])
      (dispatch env new_service "t1" "inbound" (input "message") world).1
unfolding dispatch trim_space normalize_event_type among names event_key replace_char to_lower
    name_of is_from_me get should_deliver
dispatch-Answered_example =
    dispatch-Answered env new_service "t1" "inbound" (input "message") world (result ∷ [])
      (dispatch env new_service "t1" "inbound" (input "message") world).1 refl

abbrev sent_once : World
sent_once = (dispatch still new_service "t1" "inbound" (input "message") world).1

-- The second name of an event is one of those that mean the first.
dispatch_again_example :
    dispatch still new_service "t1" "inbound" (input "messages.upsert") sent_once
    ≡ (ok [], record sent_once { tick = suc (suc sent_once.tick) })
unfolding dispatch trim_space normalize_event_type among names event_key replace_char to_lower
    name_of is_from_me get should_deliver
dispatch_again_example =
    dispatch_again still new_service "t1" (input "message") (input "messages.upsert") world
      sent_once (result ∷ []) (λ n. refl) (λ m n. omega arith) refl refl refl refl refl refl

abbrev request : CreateInput
request = record {
  name = " flow ";
  url = "https://example.com";
  inbound_enabled = true;
  outbound_enabled = false;
  signing_secret = "";
}

abbrev made : WebhookEndpoint
made = record {
  id = "d2";
  tenant_id = "t1";
  name = "flow";
  url = "https://example.com";
  inbound_enabled = true;
  outbound_enabled = true;
  signing_secret = "";
  created_at = 100;
}

abbrev stored : World
stored = record world { endpoints = endpoint "e1" ∷ made ∷ []; tick = 1 }

create-Added_example : Added env "t1" request world made stored
unfolding create trim_space validate_webhook_url new_endpoint
create-Added_example = create-Added env "t1" request world made stored refl
