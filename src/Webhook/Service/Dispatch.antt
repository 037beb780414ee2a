-- ===== src/Webhook/Service/Dispatch.antt =====
-- `dispatch`, `DispatchInbound` and `DispatchOutbound` of internal/webhook/service.go.
use fmxevolution_go.Base.{
  suc, ◌-◌, String, Bool, false, ◌&&◌, not, none, some, List, [], ◌∷◌, ◌++◌, str_eq, if◌then◌else◌,
  trim_space, filter, Time,
}
use fmxevolution_go.Base.Effect.{ok, pure, fail_if, from_out, map_err, or_value, ◌>>=◌, ◌>>◌}
use fmxevolution_go.Domain.{plain_error}
use fmxevolution_go.Webhook.Events.{normalize_event_type}
use fmxevolution_go.Webhook.Values.{message_text_from_data}
use fmxevolution_go.Webhook.Payload.{
  conversation_key_from_data, normalize_payload, fallback_message,
}
use fmxevolution_go.Webhook.Model.{
  WebhookEndpoint, DispatchInput, DeliveryResult, EventEnvelope, Settings,
}
use fmxevolution_go.Webhook.Repo.{list_by_tenant, has_recent_delivery}
use fmxevolution_go.Webhook.Env.{Env, World, Req, ask, query}
use fmxevolution_go.Webhook.Service.{invalid, should_deliver, deliver}

-- Whether an inbound event was dispatched within the window; an error of the database counts as no.
unfoldable pub is_duplicate : Env → Settings → String → String → String → String → Req Bool
unfolding has_recent_delivery query ask ◌>>=◌ or_value pure
is_duplicate env s tenant direction event msg =
    if str_eq direction "inbound" && not (str_eq msg "")
    then (do
      now ← ask env.clock
      or_value false (
          query env λ w.
            let since = now - s.dedupe_window in
            has_recent_delivery tenant direction event msg since w.deliveries))
    else pure false

unfoldable pub deliver_all :
    Env
    → Settings
    → EventEnvelope
    → String
    → List WebhookEndpoint
    → World
    → List DeliveryResult × World
unfolding deliver
deliver_all env s envelope body [] w = ([], w)
deliver_all env s envelope body (e ∷ es) w =
    let (result, w₁) = deliver env s e envelope body w in
    let (results, w₂) = deliver_all env s envelope body es w₁ in (result ∷ results, w₂)

-- The envelope, for its identifier, its time, and the time that the payload is read at.
unfoldable pub envelope_at :
    Env → String → String → DispatchInput → String → Time → Time → EventEnvelope
envelope_at env tenant direction input id now read_at = record {
  event_id = id;
  tenant_id = tenant;
  direction = direction;
  event_type = normalize_event_type (trim_space input.event_type) direction input.values;
  raw_event_type = trim_space input.event_type;
  instance_id = trim_space input.instance_id;
  message_id = trim_space input.message_id;
  timestamp = now;
  values = normalize_payload env.parse_time read_at input direction;
}

unfoldable pub new_envelope : Env → String → String → DispatchInput → Req EventEnvelope
unfolding ask ◌>>=◌ pure envelope_at
new_envelope env tenant direction input = do
  id ← ask env.new_event_id
  now ← ask env.clock
  read_at ← ask env.clock
  pure (envelope_at env tenant direction input id now read_at)

unfoldable pub marshal : Env → EventEnvelope → Req String
unfolding map_err from_out
marshal env envelope = map_err plain_error (from_out (env.marshal envelope))

-- The loop over the endpoints, those for the direction only.
unfoldable pub send_all :
    Env
    → Settings
    → String
    → List WebhookEndpoint
    → EventEnvelope
    → String
    → Req (List DeliveryResult)
unfolding deliver_all
send_all env s direction endpoints envelope body w =
    let told = filter (λ e. should_deliver e direction) endpoints in
    let (results, w') = deliver_all env s envelope body told w in (ok results, w')

-- Behind the test for a duplicate.
unfoldable pub fan_out :
    Env → Settings → String → String → DispatchInput → Req (List DeliveryResult)
unfolding query list_by_tenant new_envelope marshal send_all ◌>>=◌
fan_out env s tenant direction input = do
  endpoints ← query env (λ w. list_by_tenant tenant w.endpoints)
  envelope ← new_envelope env tenant direction input
  body ← marshal env envelope
  send_all env s direction endpoints envelope body

unfoldable pub dispatch :
    Env → Settings → String → String → DispatchInput → Req (List DeliveryResult)
unfolding fail_if is_duplicate fan_out ◌>>=◌ pure
dispatch env s tenant direction input = do
  fail_if (str_eq (trim_space input.event_type) "") (invalid "event_type is required")
  seen ←
      is_duplicate env s tenant direction
        (normalize_event_type (trim_space input.event_type) direction input.values)
        (trim_space input.message_id)
  if seen then pure [] else fan_out env s tenant direction input

unfoldable pub notify_inbound_conversation_fallback : Env → DispatchInput → Req (Unit {0})
unfolding fallback_message pure
notify_inbound_conversation_fallback env input w =
    elim (fallback_message env.parse_time (env.clock w.tick) input) [
      | none ↦ pure tt w
      | some m ↦ (ok tt, record w { tick = suc w.tick; notified = w.notified ++ m ∷ [] })
    ]

-- `ai.HandleInboundAsync`, whose error is dropped
unfoldable pub trigger_ai : Env → DispatchInput → Req (Unit {0})
unfolding conversation_key_from_data message_text_from_data pure
trigger_ai env input w =
    if env.has_ai
    then (
      ok tt,
      record w {
        triggered =
            w.triggered
            ++ record {
              event_type = trim_space input.event_type;
              instance_id = trim_space input.instance_id;
              conversation_key = conversation_key_from_data input;
              message_id = trim_space input.message_id;
              message_text = message_text_from_data input.values;
              metadata = input.values;
            }
              ∷ [];
      },
    )
    else pure tt w

unfoldable pub dispatch_inbound :
    Env → Settings → String → DispatchInput → Req (List DeliveryResult)
unfolding notify_inbound_conversation_fallback dispatch trigger_ai ◌>>=◌ pure
dispatch_inbound env s tenant input = do
  notify_inbound_conversation_fallback env input
  results ← dispatch env s tenant "inbound" input
  trigger_ai env input
  pure results

unfoldable pub dispatch_outbound :
    Env → Settings → String → DispatchInput → Req (List DeliveryResult)
unfolding dispatch
dispatch_outbound env s tenant input = dispatch env s tenant "outbound" input
