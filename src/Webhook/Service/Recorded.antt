-- ===== src/Webhook/Service/Recorded.antt =====
-- That the deliveries of a dispatch are found by the test for a duplicate.
use fmxevolution_go.Base.{
  ℕ, suc, ◌≤◌, String, true, false, ◌≡◌, refl, sym, ap, subst, ◌∙◌, if-cases, none, List, [], ◌∷◌,
  ◌++◌, any, any-append, any_last, eq_iff, leb, Time, All, is_nil, arith,
}
use fmxevolution_go.Webhook.Model.{WebhookEndpoint, WebhookDelivery, EventEnvelope, Settings}
use fmxevolution_go.Webhook.Repo.{is_recent}
use fmxevolution_go.Webhook.Env.{Env, World, Answer}
use fmxevolution_go.Webhook.Service.{
  is_success, new_delivery, first_attempt, answered, attempt_failed, schedule_retry_fields,
  send_once, create_delivery, deliver,
}
use fmxevolution_go.Webhook.Service.Dispatch.{deliver_all}
use fmxevolution_go.Webhook.Lifecycle.Runs.{send_once-kept}

module _ (tenant event msg : String) (since : Time) where
  -- A delivery of the event is stored that is no older than a time.
  abbrev pub IsSeen : List WebhookDelivery → Type 0
  IsSeen rows = any (is_recent tenant "inbound" event msg since) rows ≡ true

  is_recent-fields :
      (d : WebhookDelivery)
      → d.tenant_id ≡ tenant
      → d.direction ≡ "inbound"
      → d.event_type ≡ event
      → d.message_id ≡ msg
      → since ≤ d.created_at
      → is_recent tenant "inbound" event msg since d ≡ true
  unfolding is_recent
  is_recent-fields d t i e m k = ground (
    arith,
    (eq_iff d.tenant_id tenant).1 t,
    (eq_iff d.direction "inbound").1 i,
    (eq_iff d.event_type event).1 e,
    (eq_iff d.message_id msg).1 m,
  )

  -- The first attempt keeps what a delivery is for.
  first_attempt-is_recent :
      (sent : Answer) (now : Time) (d : WebhookDelivery) (id : String) (at : Time)
      → d.tenant_id ≡ tenant
      → d.direction ≡ "inbound"
      → d.event_type ≡ event
      → d.message_id ≡ msg
      → since ≤ at
      → is_recent tenant "inbound" event msg since
          (record (first_attempt sent now d) { id = id; created_at = at })
        ≡ true
  unfolding first_attempt answered attempt_failed schedule_retry_fields
  first_attempt-is_recent sent now d id at t i e m k =
      if-cases {A = WebhookDelivery} Recent (is_success sent) (λ _. is_recent-fields _ t i e m k)
        (λ _.
          if-cases {A = WebhookDelivery} Recent (leb d.max_attempts 1)
            (λ _. is_recent-fields _ t i e m k) (λ _. is_recent-fields _ t i e m k))
    where
      Recent : WebhookDelivery → Type 0
      Recent x =
          is_recent tenant "inbound" event msg since (record x { id = id; created_at = at }) ≡ true

module _ (env : Env) (s : Settings) (tenant event msg : String) (since : Time)
    (accepted : (n : ℕ) → env.db_fault n ≡ none) where
  create_delivery-adds :
      (d : WebhookDelivery) (w : World)
      → (create_delivery env d w).1.deliveries
        ≡ w.deliveries ++ record d { id = env.new_id w.tick; created_at = env.clock w.tick } ∷ []
  unfolding create_delivery
  create_delivery-adds d w = rw (accepted w.tick, create_delivery)

  deliver-adds :
      (e : WebhookEndpoint) (v : EventEnvelope) (body : String) (w : World)
      → (sent : Answer) × (now : Time) × (n : ℕ) × ((deliver env s e v body w).1.deliveries
          ≡ w.deliveries
            ++ record (first_attempt sent now (new_delivery s e v body)) {
              id = env.new_id n;
              created_at = env.clock n;
            }
              ∷ [])
  unfolding deliver
  deliver-adds e v body w =
      let (sent, w₁) = send_once env e v body w in
      let w₂ = record w₁ { tick = suc w₁.tick } in
      let d = first_attempt sent (env.clock w₁.tick) (new_delivery s e v body) in
      (
        sent,
        env.clock w₁.tick,
        w₂.tick,
        create_delivery-adds d w₂
            ∙ ap
                (λ l.
                  l ++ record d { id = env.new_id w₂.tick; created_at = env.clock w₂.tick } ∷ [])
                (send_once-kept env e v body w),
      )

  abbrev Seen : World → Type 0
  Seen w = IsSeen tenant event msg since w.deliveries

  deliver-keeps :
      (e : WebhookEndpoint) (v : EventEnvelope) (body : String) (w : World)
      → Seen w
      → Seen (deliver env s e v body w).1
  deliver-keeps e v body w h =
      let (sent, now, n, adds) = deliver-adds e v body w in
      subst (IsSeen tenant event msg since) (sym adds) (rw (any-append, h) refl)

  deliver_all-keeps :
      (es : List WebhookEndpoint) (v : EventEnvelope) (body : String) (w : World)
      → Seen w
      → Seen (deliver_all env s v body es w).1
  unfolding deliver_all
  deliver_all-keeps [] v body w h = h
  deliver_all-keeps (e ∷ es) v body w h = deliver_all-keeps es v body _ (deliver-keeps e v body w h)

  module _ (recent : (n : ℕ) → since ≤ env.clock n) (v : EventEnvelope) (body : String)
      (direction : v.direction ≡ "inbound") (named : v.event_type ≡ event)
      (message : v.message_id ≡ msg) where
    deliver-sees :
        (e : WebhookEndpoint) (w : World) → e.tenant_id ≡ tenant → Seen (deliver env s e v body w).1
    unfolding new_delivery
    deliver-sees e w own =
        let (sent, now, n, adds) = deliver-adds e v body w in
        let made =
          first_attempt-is_recent tenant event msg since sent now (new_delivery s e v body)
            (env.new_id n) (env.clock n) own direction named message (recent n) in
        subst (IsSeen tenant event msg since) (sym adds)
          (any_last (is_recent tenant "inbound" event msg since) w.deliveries _ made)

    pub deliver_all-sees :
        (es : List WebhookEndpoint) (w : World)
        → All (λ e. e.tenant_id ≡ tenant) es
        → is_nil es ≡ false
        → Seen (deliver_all env s v body es w).1
    unfolding deliver_all
    deliver_all-sees [] w own some_told = absurd cc
    deliver_all-sees (e ∷ es) w own some_told =
        deliver_all-keeps es v body (deliver env s e v body w).1 (deliver-sees e w own.0)
