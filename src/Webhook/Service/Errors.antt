-- ===== src/Webhook/Service/Errors.antt =====
-- What a dispatch that fails has done.
use fmxevolution_go.Base.{arith, String, Bool, true, false, ◌≡◌, refl, Option-cases, inl, inr, List}
use fmxevolution_go.Base.Effect.{err, pure, ◌>>=◌}
use fmxevolution_go.Base.Frame.{Keeps, KeepsOnError-bind, KeepsOnError-last}
use fmxevolution_go.Domain.{GoError}
use fmxevolution_go.Webhook.Model.{DispatchInput, DeliveryResult, Settings}
use fmxevolution_go.Webhook.Env.{Env, World, Req}
use fmxevolution_go.Webhook.Payload.{fallback_message}
use fmxevolution_go.Webhook.Service.Dispatch.{
  notify_inbound_conversation_fallback, trigger_ai, dispatch_inbound, dispatch_outbound,
}
use fmxevolution_go.Webhook.Service.Calls.{dispatch-KeepsOnError}

-- An inbound event, or an outbound one.
unfoldable pub dispatch_event :
    Bool → Env → Settings → String → DispatchInput → Req (List DeliveryResult)
unfolding dispatch_inbound dispatch_outbound
dispatch_event true = dispatch_inbound
dispatch_event false = dispatch_outbound

-- No delivery was stored, no request was made, and the AI was not asked.
abbrev pub Untouched : World → World → Type 0
Untouched w t =
    (t.deliveries ≡ w.deliveries)
    × (t.outbox ≡ w.outbox)
    × (t.triggered ≡ w.triggered)
    × (t.endpoints ≡ w.endpoints)

notify-Untouched :
    (env : Env) (input : DispatchInput) (w : World)
    → Keeps (Untouched w) (notify_inbound_conversation_fallback env input)
unfolding notify_inbound_conversation_fallback pure
notify-Untouched env input w = record {
  kept = λ t h. elim (Option-cases (fallback_message env.parse_time (env.clock t.tick) input)) [
    | inl quiet ↦ rw (quiet, notify_inbound_conversation_fallback) h
    | inr (m, told) ↦ rw (told, notify_inbound_conversation_fallback) h
  ];
}

trigger_ai-ok :
    (env : Env) (input : DispatchInput) (results : List DeliveryResult) (t : World) (e : GoError)
    → ¬ ((◌>>=◌ (trigger_ai env input) (λ _. pure results) t).0 ≡ err e)
unfolding trigger_ai pure ◌>>=◌
trigger_ai-ok env input results t e h = ground arith

-- A dispatch that ends in an error, in either direction, has stored no delivery, made no request to
-- an endpoint, and not asked the AI.
pub dispatch_event-error :
    (inbound : Bool) (env : Env) (s : Settings) (tenant : String) (input : DispatchInput)
    (w : World) (e : GoError)
    → (dispatch_event inbound env s tenant input w).0 ≡ err e
    → Untouched w (dispatch_event inbound env s tenant input w).1
unfolding dispatch_event dispatch_inbound dispatch_outbound
dispatch_event-error true env s tenant input w e h =
    (KeepsOnError-bind (notify-Untouched env input w) λ _.
        KeepsOnError-last (λ results. ◌>>=◌ (trigger_ai env input) (λ _. pure results))
          (dispatch-KeepsOnError env (Untouched w) (λ t n k. k) s tenant "inbound" input)
          (trigger_ai-ok env input)).kept
      w (refl, refl, refl, refl) e h
dispatch_event-error false env s tenant input w e h =
    (dispatch-KeepsOnError env (Untouched w) (λ t n k. k) s tenant "outbound" input).kept w
      (refl, refl, refl, refl) e h
