-- ===== src/Webhook/Service/Rule.antt =====
-- A rule for what a dispatch that ends without an error has done, from what its calls of the endpoints
-- do.
use fmxevolution_go.Base.{
  ℕ, suc, String, Bool, true, ◌≡◌, refl, sym, ap, subst, subst₂, ◌∙◌, inl, inr, if-cases,
  Option-cases, none, some, List, [], filter, trim_space,
}
use fmxevolution_go.Base.Effect.{
  ok, err, Triple, Triple-bind, Triple-pure, from_out, map_err-ok, ok-injective, ok-err,
}
use fmxevolution_go.Base.Frame.{Keeps, Keeps-fail_if, Triple-kept}
use fmxevolution_go.Domain.{GoError, plain_error}
use fmxevolution_go.Webhook.Events.{normalize_event_type}
use fmxevolution_go.Webhook.Model.{
  WebhookEndpoint, DispatchInput, DeliveryResult, EventEnvelope, Settings,
}
use fmxevolution_go.Webhook.Repo.{list_by_tenant}
use fmxevolution_go.Webhook.Env.{Env, World, Req, query, ask}
use fmxevolution_go.Webhook.Service.{should_deliver}
use fmxevolution_go.Webhook.Service.Dispatch.{
  deliver_all, envelope_at, new_envelope, marshal, send_all, fan_out, is_duplicate, dispatch,
}
use fmxevolution_go.Webhook.Service.Calls.{ask-Keeps, is_duplicate-Keeps}

module _ {A : Type 0} (env : Env) (f : World → A) (w : World) where
  pub query-fine :
      env.db_fault w.tick ≡ none → query env f w ≡ (ok (f w), record w { tick = suc w.tick })
  unfolding query
  query-fine h = rw (h, query)

  query-refused :
      (e : String)
      → env.db_fault w.tick ≡ some e
      → query env f w ≡ (err (plain_error e), record w { tick = suc w.tick })
  unfolding query
  query-refused e h = rw (h, query)

  query-at :
      (a : A) (t : World)
      → query env f w ≡ (ok a, t)
      → (a ≡ f w) × (t ≡ record w { tick = suc w.tick })
  query-at a t h = elim (Option-cases (env.db_fault w.tick)) [
    | inl fine ↦
        let e = sym h ∙ query-fine fine in (ok-injective (ap (λ r. r.0) e), ap (λ r. r.1) e)
    | inr (e, refused) ↦ absurd (ok-err (ap (λ r. r.0) (sym h ∙ query-refused e refused)))
  ]

-- What the envelope of a dispatch says.
pub record IsEnvelope (env : Env) (tenant direction : String) (input : DispatchInput)
    (v : EventEnvelope) (body : String) : Type 0 where
  pub of_tenant : v.tenant_id ≡ tenant
  pub of_direction : v.direction ≡ direction
  pub of_event :
      v.event_type ≡ normalize_event_type (trim_space input.event_type) direction input.values
  pub of_raw : v.raw_event_type ≡ trim_space input.event_type
  pub of_instance : v.instance_id ≡ trim_space input.instance_id
  pub of_message : v.message_id ≡ trim_space input.message_id
  pub marshalled : env.marshal v ≡ ok body

module _ (env : Env) (s : Settings) (tenant direction : String) (input : DispatchInput)
    (P : World → Type 0) (steady : (w : World) (n : ℕ) → P w → P (record w { tick = n }))
    (endpoints : List WebhookEndpoint) (stored : (w : World) → P w → w.endpoints ≡ endpoints) where
  -- The endpoints of the tenant for the direction, the newest first.
  abbrev pub told : List WebhookEndpoint
  told = filter (λ e. should_deliver e direction) (list_by_tenant tenant endpoints)

  query-Triple :
      Triple P
        (query env (λ w. list_by_tenant tenant w.endpoints))
        (λ es t. (es ≡ list_by_tenant tenant endpoints) × P t)
  query-Triple = record {
    at = λ w h a t e.
        let (found, same) = query-at env (λ w. list_by_tenant tenant w.endpoints) w a t e in
        (
          found ∙ ap (list_by_tenant tenant) (stored w h),
          subst P (sym same) (steady w (suc w.tick) h),
        );
  }

  abbrev Enveloped : EventEnvelope → World → Type 0
  Enveloped v t =
      ((body : String) → env.marshal v ≡ ok body → IsEnvelope env tenant direction input v body)
      × P t

  new_envelope-Enveloped : Triple P (new_envelope env tenant direction input) Enveloped
  unfolding new_envelope envelope_at
  new_envelope-Enveloped =
      Triple-bind (λ _. P) (Triple-kept (asks env.new_event_id))
        λ id.
          Triple-bind (λ _. P) (Triple-kept (asks env.clock))
            λ now.
              Triple-bind (λ _. P) (Triple-kept (asks env.clock))
                λ at. Triple-pure (envelope_at env tenant direction input id now at) (λ w h. (
                  λ body m. record {
                    of_tenant = refl;
                    of_direction = refl;
                    of_event = refl;
                    of_raw = refl;
                    of_instance = refl;
                    of_message = refl;
                    marshalled = m;
                  },
                  h,
                ))
    where
      asks : {A : Type 0} (f : ℕ → A) → Keeps {E = GoError} P (ask f)
      asks = ask-Keeps env P steady

  marshal-Triple :
      (v : EventEnvelope)
      → Triple
          (Enveloped v)
          (marshal env v)
          (λ body t. IsEnvelope env tenant direction input v body × P t)
  unfolding marshal from_out
  marshal-Triple v = record {
    at = λ w h a t e.
        let plain = map_err-ok plain_error (from_out (env.marshal v)) w e in
        (h.0 a (ap (λ r. r.0) plain), subst P (ap (λ r. r.1) plain) h.1);
  }

  module _ (R : List DeliveryResult → World → Type 0) (Seen : Type 0)
      (found : (w t : World)
        → P w
        → is_duplicate env s tenant direction
            (normalize_event_type (trim_space input.event_type) direction input.values)
            (trim_space input.message_id)
            w
          ≡ (ok true, t)
        → Seen)
      (quiet : (w : World) → P w → Seen → R [] w)
      (sends : (v : EventEnvelope) (body : String) (w : World)
        → IsEnvelope env tenant direction input v body
        → P w
        → R (deliver_all env s v body told w).0 (deliver_all env s v body told w).1) where
    send_all-Triple :
        (es : List WebhookEndpoint) (v : EventEnvelope) (body : String)
        → es ≡ list_by_tenant tenant endpoints
        → Triple
            (λ t. IsEnvelope env tenant direction input v body × P t)
            (send_all env s direction es v body)
            R
    unfolding send_all
    send_all-Triple es v body listed = record {
      at = λ w h a t e.
          let to : List WebhookEndpoint → List WebhookEndpoint =
            filter (λ x. should_deliver x direction) in
          let done = sends v body w h.0 h.1 in
          let there =
            subst
              (λ l. R (deliver_all env s v body (to l) w).0 (deliver_all env s v body (to l) w).1)
              (sym listed) done in
          subst₂ R (ok-injective (ap (λ r. r.0) e)) (ap (λ r. r.1) e) there;
    }

    fan_out-Triple : Triple P (fan_out env s tenant direction input) R
    unfolding fan_out
    fan_out-Triple =
        Triple-bind (λ es t. (es ≡ list_by_tenant tenant endpoints) × P t) query-Triple
          λ es. record {
            at = λ w h a t e.
                (Triple-bind Enveloped new_envelope-Enveloped λ v.
                    Triple-bind (λ body t. IsEnvelope env tenant direction input v body × P t)
                      (marshal-Triple v) λ body. send_all-Triple es v body h.0).at
                  w h.1 a t e;
          }

    abbrev duplicate : Req Bool
    duplicate =
        is_duplicate env s tenant direction
          (normalize_event_type (trim_space input.event_type) direction input.values)
          (trim_space input.message_id)

    duplicate-Triple : Triple P duplicate (λ seen t. (seen ≡ true → Seen) × P t)
    duplicate-Triple = record {
      at = λ w h a t e. (
        λ hit. found w t h (e ∙ ap (λ b. (ok b, t)) hit),
        (Triple-kept (is_duplicate-Keeps env P steady s tenant direction _ _)).at w h a t e,
      );
    }

    -- Where `P` holds before a dispatch, `R` holds of what it answers and leaves, if `R` holds where
    -- the event was seen before and where every endpoint is called.
    pub dispatch-Triple : Triple P (dispatch env s tenant direction input) R
    unfolding dispatch
    dispatch-Triple =
        Triple-bind (λ _. P) (Triple-kept (Keeps-fail_if _ _))
          λ _.
            Triple-bind (λ seen t. (seen ≡ true → Seen) × P t) duplicate-Triple
              λ seen.
                if-cases {A = Req (List DeliveryResult)}
                  (λ m. Triple (λ t. (seen ≡ true → Seen) × P t) m R) seen
                  (λ hit. Triple-pure [] (λ w k. quiet w k.1 (k.0 hit)))
                  (λ _. record { at = λ w k a t e. fan_out-Triple.at w k.1 a t e })
