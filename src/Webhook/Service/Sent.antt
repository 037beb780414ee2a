-- ===== src/Webhook/Service/Sent.antt =====
-- Which requests a dispatch makes, and what it answers.
use mathlib.Core.List.{append-nil, append_assoc}
use fmxevolution_go.Base.{
  none, some, str_eq, if◌then◌else◌, String, Bool, not, ◌≡◌, refl, sym, ap, ◌∙◌, ◌⊎◌, inl, inr,
  Option-cases, is_some, List, [], ◌∷◌, ◌++◌, map, filter, suc, arith,
}
use fmxevolution_go.Base.Effect.{ok}
use fmxevolution_go.Webhook.Model.{
  WebhookEndpoint, WebhookDelivery, DispatchInput, DeliveryResult, EventEnvelope, Settings,
}
use fmxevolution_go.Webhook.Env.{Post, Env, World}
use fmxevolution_go.Webhook.Service.{
  new_delivery, first_attempt, post_to, send_once, create_delivery, deliver, result_of,
}
use fmxevolution_go.Webhook.Service.Dispatch.{deliver_all, dispatch}
use fmxevolution_go.Webhook.Service.Rule.{IsEnvelope, dispatch-Triple}
use fmxevolution_go.Webhook.Service.Told.{IsTold, told_endpoints, told_endpoints-IsTold}
use fmxevolution_go.Webhook.Service.Duplicate.{SeenBefore, is_duplicate-SeenBefore}

-- A request can be made of its URL.
abbrev pub can_request : Env → WebhookEndpoint → Bool
can_request env e = not (is_some (env.request_fault e.url))

send_once-outbox :
    (env : Env) (e : WebhookEndpoint) (v : EventEnvelope) (body : String) (w : World)
    → (send_once env e v body w).1.outbox
      ≡ w.outbox ++ map (post_to env v body) (filter (can_request env) (e ∷ []))
unfolding send_once
send_once-outbox env e v body w = elim (Option-cases (env.request_fault e.url)) [
  | inl fine ↦ rw (fine, send_once)
  | inr (fault, bad) ↦ rw (bad, send_once) (sym (append-nil w.outbox))
]

create_delivery-outbox :
    (env : Env) (d : WebhookDelivery) (w : World) → (create_delivery env d w).1.outbox ≡ w.outbox
unfolding create_delivery
create_delivery-outbox env d w = elim (Option-cases (env.db_fault w.tick)) [
  | inl fine ↦ rw (fine, create_delivery)
  | inr (fault, bad) ↦ rw (bad, create_delivery)
]

module _ (env : Env) (s : Settings) (v : EventEnvelope) (body : String) where
  -- The requests to the endpoints that one can be made to.
  abbrev posts : List WebhookEndpoint → List Post
  posts es = map (post_to env v body) (filter (can_request env) es)

  posts-cons :
      (e : WebhookEndpoint) (es : List WebhookEndpoint)
      → posts (e ∷ []) ++ posts es ≡ posts (e ∷ es)
  posts-cons e es = ground arith

  deliver-outbox :
      (e : WebhookEndpoint) (w : World)
      → (deliver env s e v body w).1.outbox ≡ w.outbox ++ posts (e ∷ [])
  unfolding deliver
  deliver-outbox e w =
      let (sent, w₁) = send_once env e v body w in
      create_delivery-outbox env (first_attempt sent (env.clock w₁.tick) (new_delivery s e v body))
        (record w₁ { tick = suc w₁.tick })
      ∙ send_once-outbox env e v body w

  deliver_all-outbox :
      (es : List WebhookEndpoint) (w : World)
      → (deliver_all env s v body es w).1.outbox ≡ w.outbox ++ posts es
  unfolding deliver_all
  deliver_all-outbox [] w = sym (append-nil w.outbox)
  deliver_all-outbox (e ∷ es) w =
      let w₁ = (deliver env s e v body w).1 in
      deliver_all-outbox es w₁
      ∙ ap (λ o. o ++ posts es) (deliver-outbox e w)
      ∙ append_assoc w.outbox (posts (e ∷ [])) (posts es)
      ∙ ap (λ l. w.outbox ++ l) (posts-cons e es)

  deliver_all-results :
      (es : List WebhookEndpoint) (w : World)
      → map (λ r. r.endpoint_id) (deliver_all env s v body es w).0 ≡ map (λ e. e.id) es
  unfolding deliver_all deliver result_of
  deliver_all-results [] w = refl
  deliver_all-results (e ∷ es) w = ap (λ l. e.id ∷ l) (deliver_all-results es _)

-- The request to an endpoint.
abbrev pub request_to : Env → EventEnvelope → String → WebhookEndpoint → Post
request_to env v body e = record {
  url = e.url;
  tenant_id = e.tenant_id;
  event_type = v.event_type;
  direction = v.direction;
  event_id = v.event_id;
  signature =
      if str_eq e.signing_secret "" then none else some (env.sign_payload e.signing_secret body);
  body = body;
}

-- Nothing was sent of a message that was seen before, or one request to each endpoint that is told,
-- in an envelope of the event.
abbrev pub Answered :
    Env → Settings → String → String → DispatchInput → World → List DeliveryResult → World → Type 0
Answered env s tenant direction input w results t =
    (SeenBefore env s tenant direction input w × (results ≡ []) × (t.outbox ≡ w.outbox))
    ⊎ ((es : List WebhookEndpoint) × (v : EventEnvelope) × (body : String) × IsTold tenant direction
          w.endpoints es
        × IsEnvelope env tenant direction input v body
        × (map (λ r. r.endpoint_id) results ≡ map (λ e. e.id) es)
        × (t.outbox ≡ w.outbox ++ map (request_to env v body) (filter (can_request env) es)))

-- A dispatch that ends without an error has told nobody and answers nothing, and then a delivery of
-- the same inbound message and event is stored that was within the window; or it has made one
-- request to each endpoint of the tenant that is enabled for the direction, the newest first,
-- leaving out those whose URL no request can be made of, in an envelope of the event that is signed
-- where the endpoint has a secret, with one result for each endpoint in that order, whatever the
-- endpoints and the database answer.
pub dispatch-Answered :
    (env : Env) (s : Settings) (tenant direction : String) (input : DispatchInput) (w : World)
    (results : List DeliveryResult) (t : World)
    → dispatch env s tenant direction input w ≡ (ok results, t)
    → Answered env s tenant direction input w results t
unfolding post_to
dispatch-Answered env s tenant direction input w results t h =
    (dispatch-Triple env s tenant direction input
        (λ u. (u.endpoints ≡ w.endpoints) × (u.outbox ≡ w.outbox) × (u.deliveries ≡ w.deliveries))
        (λ u n k. k) w.endpoints (λ u k. k.0) (Answered env s tenant direction input w)
        (SeenBefore env s tenant direction input w)
        (λ u t k e. is_duplicate-SeenBefore env s tenant direction input w u t k.2 e)
        (λ u k seen. inl (seen, refl, k.1))
        (λ v body u e k. inr (
          told_endpoints tenant direction w,
          v,
          body,
          told_endpoints-IsTold tenant direction w,
          e,
          deliver_all-results env s v body _ u,
          deliver_all-outbox env s v body _ u
              ∙ ap (λ o. o ++ posts env s v body (told_endpoints tenant direction w)) k.1,
        ))).at
      w (refl, refl, refl) results t h
