-- ===== src/Webhook/Service/Calls.antt =====
-- What the calls that write nothing keep: whatever does not speak of the number of calls.
use fmxevolution_go.Base.{
  filter, ◌-◌, List, [], false, ℕ, String, ◌&&◌, not, inl, inr, if-cases, Option-cases, str_eq,
}
use fmxevolution_go.Base.Frame.{
  Keeps, Keeps-bind, Keeps-pure, Keeps-fail_if, Keeps-map_err, Keeps-from_out, Keeps-or_value,
  KeepsOnError, KeepsOnError-bind, KeepsOnError-kept,
}
use fmxevolution_go.Domain.{plain_error}
use fmxevolution_go.Webhook.Model.{WebhookEndpoint, DispatchInput, EventEnvelope, Settings}
use fmxevolution_go.Webhook.Env.{Env, World, ask, query}
use fmxevolution_go.Webhook.Repo.{has_recent_delivery}
use fmxevolution_go.Webhook.Service.{should_deliver}
use fmxevolution_go.Webhook.Service.Dispatch.{
  send_all, envelope_at, deliver_all, is_duplicate, new_envelope, marshal, fan_out, dispatch,
}

module _ (env : Env) (P : World → Type 0)
    (steady : (w : World) (n : ℕ) → P w → P (record w { tick = n })) where
  pub query-Keeps : {A : Type 0} (f : World → A) → Keeps P (query env f)
  unfolding query
  query-Keeps f = record {
    kept = λ w h. elim (Option-cases (env.db_fault w.tick)) [
      | inl fine ↦ rw (fine, query) (steady w _ h)
      | inr (e, refused) ↦ rw (refused, query) (steady w _ h)
    ];
  }

  pub ask-Keeps : {A : Type 0} (f : ℕ → A) → Keeps P (ask f)
  unfolding ask
  ask-Keeps f = record { kept = λ w h. steady w _ h }

  pub is_duplicate-Keeps :
      (s : Settings) (tenant direction event msg : String)
      → Keeps P (is_duplicate env s tenant direction event msg)
  unfolding is_duplicate
  is_duplicate-Keeps s tenant direction event msg =
      if-cases (Keeps P) (str_eq direction "inbound" && not (str_eq msg ""))
        (λ _. Keeps-bind (ask-Keeps env.clock) λ now. Keeps-or_value false (
          query-Keeps (λ w.
            has_recent_delivery tenant direction event msg (now - s.dedupe_window) w.deliveries)))
        (λ _. Keeps-pure false)

  pub marshal-Keeps : (v : EventEnvelope) → Keeps P (marshal env v)
  unfolding marshal
  marshal-Keeps v = Keeps-map_err plain_error (Keeps-from_out (env.marshal v))

  pub new_envelope-Keeps :
      (tenant direction : String) (input : DispatchInput)
      → Keeps P (new_envelope env tenant direction input)
  unfolding new_envelope
  new_envelope-Keeps tenant direction input = Keeps-bind (ask-Keeps env.new_event_id) λ id.
      Keeps-bind (ask-Keeps env.clock) λ now.
        Keeps-bind (ask-Keeps env.clock)
          λ at. Keeps-pure (envelope_at env tenant direction input id now at)

  send_all-Keeps :
      (s : Settings) (direction : String)
      → ((v : EventEnvelope) (body : String) (es : List WebhookEndpoint) (w : World)
          → P w
          → P (deliver_all env s v body es w).1)
      → (es : List WebhookEndpoint) (v : EventEnvelope) (body : String)
      → Keeps P (send_all env s direction es v body)
  unfolding send_all
  send_all-Keeps s direction sends es v body = record {
    kept = λ w h. sends v body (filter (λ e. should_deliver e direction) es) w h;
  }

  send_all-KeepsOnError :
      (s : Settings) (direction : String) (es : List WebhookEndpoint) (v : EventEnvelope)
      (body : String)
      → KeepsOnError P (send_all env s direction es v body)
  unfolding send_all
  send_all-KeepsOnError s direction es v body = record { kept = λ w h e x. cc }

  -- What the deliveries to the endpoints keep, `dispatch` keeps.
  pub dispatch-Keeps :
      (s : Settings)
      → ((v : EventEnvelope) (body : String) (es : List WebhookEndpoint) (w : World)
          → P w
          → P (deliver_all env s v body es w).1)
      → (tenant direction : String) (input : DispatchInput)
      → Keeps P (dispatch env s tenant direction input)
  unfolding dispatch fan_out
  dispatch-Keeps s sends tenant direction input = Keeps-bind (Keeps-fail_if _ _) λ _.
      Keeps-bind (is_duplicate-Keeps s tenant direction _ _) λ seen.
        if-cases (Keeps P) seen (λ _. Keeps-pure [])
          (λ _. Keeps-bind (query-Keeps _) λ es.
            Keeps-bind (new_envelope-Keeps tenant direction input)
              λ v. Keeps-bind (marshal-Keeps v) λ body. send_all-Keeps s direction sends es v body)

  -- Where `dispatch` ends in an error, nothing was sent.
  pub dispatch-KeepsOnError :
      (s : Settings) (tenant direction : String) (input : DispatchInput)
      → KeepsOnError P (dispatch env s tenant direction input)
  unfolding dispatch fan_out
  dispatch-KeepsOnError s tenant direction input = KeepsOnError-bind (Keeps-fail_if _ _) λ _.
      KeepsOnError-bind (is_duplicate-Keeps s tenant direction _ _) λ seen.
        if-cases (KeepsOnError P) seen (λ _. KeepsOnError-kept (Keeps-pure []))
          (λ _. KeepsOnError-bind (query-Keeps _) λ es.
            KeepsOnError-bind (new_envelope-Keeps tenant direction input) λ v.
              KeepsOnError-bind (marshal-Keeps v)
                λ body. send_all-KeepsOnError s direction es v body)
