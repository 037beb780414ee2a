-- ===== src/Webhook/Operations.antt =====
-- The operations of the webhook service that write deliveries, in any order.
use fmxevolution_go.Base.{
  true, String, List, [], ◌∷◌, ◌≡◌, ◌≤◌, inl, inr, none, suc, refl, subst, sym, if-cases,
  Option-cases, All, All-imp, All-append, filter-All, All-filter, All-both, any, arith,
}
use fmxevolution_go.Base.Effect.{Out, pure}
use fmxevolution_go.Base.Frame.{Keeps, Keeps-bind, Keeps-pure}
use fmxevolution_go.Webhook.Model.{
  WebhookEndpoint, WebhookDelivery, DispatchInput, EventEnvelope, Settings,
}
use fmxevolution_go.Domain.{GoError}
use fmxevolution_go.Webhook.Payload.{fallback_message}
use fmxevolution_go.Webhook.Repo.{
  has_delivery, status_retrying, replace_delivery, save_delivery, is_due, list_due_retries,
}
use fmxevolution_go.Webhook.Env.{Env, World, query}
use fmxevolution_go.Webhook.Service.{
  send_once, new_delivery, first_attempt, create_delivery, deliver,
}
use fmxevolution_go.Webhook.Service.Dispatch.{
  deliver_all, dispatch, notify_inbound_conversation_fallback, trigger_ai, dispatch_inbound,
  dispatch_outbound,
}
use fmxevolution_go.Webhook.Service.Calls.{dispatch-Keeps}
use fmxevolution_go.Webhook.Retry.{
  next_attempt, retry_delivery, retry_all, due_limit, process_due_retries,
}
use fmxevolution_go.Webhook.Lifecycle.Rows.{due-kept, is_due-waits}
use fmxevolution_go.Webhook.Lifecycle.Runs.{send_once-kept, Saves, retry_delivery-Saves}
use fmxevolution_go.Webhook.Lifecycle.{
  IsDelivery, first_attempt-IsDelivery, next_attempt-Attempt, Attempt-IsDelivery,
}

pub data Operation : Type 0 where
  inbound outbound : String → DispatchInput → Operation
  retries : Operation

-- An operation, with a limit of attempts that may have been changed before it.
unfoldable pub operate : Env → Settings → Operation → World → World
unfolding dispatch_inbound dispatch_outbound process_due_retries
operate env s (inbound tenant input) w = (dispatch_inbound env s tenant input w).1
operate env s (outbound tenant input) w = (dispatch_outbound env s tenant input w).1
operate env s retries w = process_due_retries env w

unfoldable pub run : Env → List (Settings × Operation) → World → World
unfolding operate
run env [] w = w
run env ((s, o) ∷ os) w = run env os (operate env s o w)

abbrev IsStored : World → Type 0
IsStored w = All IsDelivery w.deliveries

create_delivery-IsStored :
    (env : Env) (d : WebhookDelivery) (w : World)
    → IsDelivery d
    → IsStored w
    → IsStored (create_delivery env d w).1
unfolding create_delivery
create_delivery-IsStored env d w one h = elim (Option-cases (env.db_fault w.tick)) [
  | inl fine ↦ rw (fine, create_delivery) (All-append IsDelivery w.deliveries _ h (one, tt))
  | inr (e, refused) ↦ rw (refused, create_delivery) h
]

notify-IsStored :
    (env : Env) (input : DispatchInput)
    → Keeps IsStored (notify_inbound_conversation_fallback env input)
unfolding notify_inbound_conversation_fallback pure
notify-IsStored env input = record {
  kept = λ w h. elim (Option-cases (fallback_message env.parse_time (env.clock w.tick) input)) [
    | inl quiet ↦ rw (quiet, notify_inbound_conversation_fallback) h
    | inr (m, told) ↦ rw (told, notify_inbound_conversation_fallback) h
  ];
}

trigger_ai-IsStored : (env : Env) (input : DispatchInput) → Keeps IsStored (trigger_ai env input)
unfolding trigger_ai pure
trigger_ai-IsStored env input = record {
  kept = λ w h.
      if-cases {A = Out GoError (Unit {0}) × World} (λ r. IsStored r.1) env.has_ai (λ _. h)
        (λ _. h);
}

new_delivery-fresh :
    (s : Settings) (e : WebhookEndpoint) (v : EventEnvelope) (body : String)
    → ((new_delivery s e v body).next_attempt_at ≡ none)
      × ((new_delivery s e v body).max_attempts ≡ s.max_attempts)
unfolding new_delivery
new_delivery-fresh s e v body = (refl, refl)

module _ (env : Env) (s : Settings) (allowed : 1 ≤ s.max_attempts) where
  deliver-IsStored :
      (e : WebhookEndpoint) (v : EventEnvelope) (body : String) (w : World)
      → IsStored w
      → IsStored (deliver env s e v body w).1
  unfolding deliver
  deliver-IsStored e v body w h =
      let (sent, w₁) = send_once env e v body w in
      let (fresh, most) = new_delivery-fresh s e v body in
      create_delivery-IsStored env
        (first_attempt sent (env.clock w₁.tick) (new_delivery s e v body))
        (record w₁ { tick = suc w₁.tick })
        (first_attempt-IsDelivery sent (env.clock w₁.tick) (new_delivery s e v body) fresh
          (omega (arith, most)))
        (subst (All IsDelivery) (sym (send_once-kept env e v body w)) h)

  deliver_all-IsStored :
      (v : EventEnvelope) (body : String) (es : List WebhookEndpoint) (w : World)
      → IsStored w
      → IsStored (deliver_all env s v body es w).1
  unfolding deliver_all
  deliver_all-IsStored v body [] w h = h
  deliver_all-IsStored v body (e ∷ es) w h =
      deliver_all-IsStored v body es _ (deliver-IsStored e v body w h)

  dispatch-IsStored :
      (tenant direction : String) (input : DispatchInput)
      → Keeps IsStored (dispatch env s tenant direction input)
  dispatch-IsStored = dispatch-Keeps env IsStored (λ w n h. h) s deliver_all-IsStored

  dispatch_inbound-IsStored :
      (tenant : String) (input : DispatchInput)
      → Keeps IsStored (dispatch_inbound env s tenant input)
  unfolding dispatch_inbound
  dispatch_inbound-IsStored tenant input = Keeps-bind (notify-IsStored env input) λ _.
      Keeps-bind (dispatch-IsStored tenant "inbound" input)
        λ results. Keeps-bind (trigger_ai-IsStored env input) λ _. Keeps-pure results

module _ (new : WebhookDelivery) (one : IsDelivery new) where
  replace_delivery-IsDelivery :
      (rows : List WebhookDelivery)
      → All IsDelivery rows
      → All IsDelivery (replace_delivery new rows)
  unfolding replace_delivery
  replace_delivery-IsDelivery [] h = tt
  replace_delivery-IsDelivery (r ∷ rs) h =
      let rest = replace_delivery-IsDelivery rs h.1 in
      if-cases (All IsDelivery) (has_delivery new.id r) (λ _. (one, rest)) (λ _. (h.0, rest))

  save_delivery-IsDelivery :
      (rows : List WebhookDelivery) → All IsDelivery rows → All IsDelivery (save_delivery new rows)
  unfolding save_delivery
  save_delivery-IsDelivery rows h =
      if-cases (All IsDelivery) (any (has_delivery new.id) rows)
        (λ _. replace_delivery-IsDelivery rows h) (λ _. All-append IsDelivery rows _ h (one, tt))

abbrev Waits : WebhookDelivery → Type 0
Waits d = (d.status ≡ status_retrying) × IsDelivery d

retry_all-IsStored :
    (env : Env) (ds : List WebhookDelivery) (w : World)
    → All Waits ds
    → IsStored w
    → IsStored (retry_all env ds w)
unfolding retry_all
retry_all-IsStored env [] w k h = h
retry_all-IsStored env (d ∷ ds) w k h =
    let asked = record w { tick = suc w.tick } in
    if-cases IsStored (env.cancelled w.tick) (λ _. h)
      (λ _.
        retry_all-IsStored env ds (retry_delivery env d asked) k.1
          (kept (retry_delivery env d asked).deliveries (retry_delivery-Saves env d asked)))
  where
    kept : (rows : List WebhookDelivery) → Saves d w.deliveries rows → All IsDelivery rows
    kept rows (inl same) = subst (All IsDelivery) (sym same) h
    kept rows (inr (sent, now, wrote)) = subst (All IsDelivery) (sym wrote) (
        save_delivery-IsDelivery (next_attempt sent now d)
          (Attempt-IsDelivery d _ (next_attempt-Attempt sent now d k.0.0) k.0.1) w.deliveries h)

process_due_retries-IsStored :
    (env : Env) (w : World) → IsStored w → IsStored (process_due_retries env w)
unfolding process_due_retries query
process_due_retries-IsStored env w h = elim (Option-cases (env.db_fault (suc w.tick))) [
  | inl fine ↦
      let now = env.clock w.tick in
      rw (fine, process_due_retries, query, fine)
        (retry_all-IsStored env (list_due_retries now due_limit w.deliveries)
          (record w { tick = suc (suc w.tick) })
          (due-kept now due_limit w.deliveries Waits (
            All-imp (λ d. (is_due now d ≡ true) × IsDelivery d) Waits
              (λ d x. (is_due-waits now d x.0, x.1)) _
              (All-both _ IsDelivery _ (All-filter (is_due now) w.deliveries)
                (filter-All IsDelivery (is_due now) w.deliveries h))))
          h)
  | inr (e, refused) ↦ rw (refused, process_due_retries, query, refused) h
]

operate-IsStored :
    (env : Env) (s : Settings) (o : Operation) (w : World)
    → 1 ≤ s.max_attempts
    → IsStored w
    → IsStored (operate env s o w)
unfolding operate dispatch_outbound
operate-IsStored env s (inbound tenant input) w a h =
    (dispatch_inbound-IsStored env s a tenant input).kept w h
operate-IsStored env s (outbound tenant input) w a h =
    (dispatch-IsStored env s a tenant "outbound" input).kept w h
operate-IsStored env s retries w a h = process_due_retries-IsStored env w h

-- Through any sequence of dispatches and runs of the retry worker, each with a limit of at least one
-- attempt, whatever the endpoints, the clock and the database answer, every stored delivery stays one
-- that has had an attempt and no more than its limit allows, and is delivered, waiting with attempts
-- left, or given up with none left.
pub run-IsDelivery :
    (env : Env) (os : List (Settings × Operation)) (w : World)
    → All (λ o. 1 ≤ o.0.max_attempts) os
    → All IsDelivery w.deliveries
    → All IsDelivery (run env os w).deliveries
unfolding run
run-IsDelivery env [] w a h = h
run-IsDelivery env ((s, o) ∷ os) w a h =
    run-IsDelivery env os (operate env s o w) a.1 (operate-IsStored env s o w a.0 h)
