-- ===== src/Webhook/Service/Told.antt =====
-- Which endpoints are told of an event.
use fmxevolution_go.Base.{
  ◌≤◌, str_eq, ◌&&◌, ◌||◌, count, AllPairs, AllPairs-filter, order_by-sorted, count-order_by,
  count-filter, count_same, String, Bool, not, ◌≡◌, ap, ◌∙◌, List, filter, arith,
}
use fmxevolution_go.Webhook.Model.{WebhookEndpoint}
use fmxevolution_go.Webhook.Repo.{list_by_tenant, newer_endpoint}
use fmxevolution_go.Webhook.Env.{World}
use fmxevolution_go.Webhook.Service.{should_deliver}

-- Whether an endpoint is enabled for a direction.
abbrev pub wants : String → WebhookEndpoint → Bool
wants direction e =
    (str_eq direction "inbound" && e.inbound_enabled)
    || (not (str_eq direction "inbound") && e.outbound_enabled)

-- The endpoints of the tenant that are enabled for the direction, each as often as it is stored, the
-- newest first.
pub record IsTold (tenant direction : String) (endpoints es : List WebhookEndpoint) : Type 0 where
  pub each :
      (p : WebhookEndpoint → Bool)
      → count p es ≡ count (λ e. (p e && wants direction e) && str_eq e.tenant_id tenant) endpoints
  pub newest_first : AllPairs (λ a b. b.created_at ≤ a.created_at) es

-- The endpoints that the loop of a dispatch goes through.
abbrev pub told_endpoints : String → String → World → List WebhookEndpoint
told_endpoints tenant direction w =
    filter (λ e. should_deliver e direction) (list_by_tenant tenant w.endpoints)

should_deliver-wants :
    (direction : String) (e : WebhookEndpoint) → should_deliver e direction ≡ wants direction e
unfolding should_deliver
should_deliver-wants direction e = ground arith

pub told_endpoints-IsTold :
    (tenant direction : String) (w : World)
    → IsTold tenant direction w.endpoints (told_endpoints tenant direction w)
unfolding list_by_tenant
told_endpoints-IsTold tenant direction w = record {
  each = λ p.
      count-filter p (λ e. should_deliver e direction) (list_by_tenant tenant w.endpoints)
      ∙ count-order_by newer_endpoint (λ e. p e && should_deliver e direction) _
      ∙ count-filter (λ e. p e && should_deliver e direction) (λ e. str_eq e.tenant_id tenant)
          w.endpoints
      ∙ count_same _ _ w.endpoints (λ e.
        ap (λ b. (p e && b) && str_eq e.tenant_id tenant) (should_deliver-wants direction e));
  newest_first =
      AllPairs-filter {A = WebhookEndpoint} (λ a b. b.created_at ≤ a.created_at)
        (λ e. should_deliver e direction) (list_by_tenant tenant w.endpoints)
        (order_by-sorted {A = WebhookEndpoint} (λ a b. b.created_at ≤ a.created_at) newer_endpoint
          (λ x y h. ground arith) (λ x y h. ground arith) (λ x y z h k. omega arith)
          (filter (λ e. str_eq e.tenant_id tenant) w.endpoints));
}
