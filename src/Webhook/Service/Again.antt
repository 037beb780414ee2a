-- ===== src/Webhook/Service/Again.antt =====
-- That an inbound event is not sent twice within the window.
use fmxevolution_go.Base.{
  ℕ, suc, ◌-◌, ◌+◌, ◌≤◌, String, Bool, true, false, ◌≡◌, refl, sym, subst₂, ◌∙◌, ◌⊎◌, inl, inr,
  if◌then◌else◌, none, List, [], ◌∷◌, filter, trim_space, str_eq, eq_iff, Time, All, All-filter,
  All-imp, All-order_by, filter-All, is_nil, arith,
}
use fmxevolution_go.Base.Effect.{ok, pure, fail_if, ◌>>=◌, or_value, >>=-run, fail_if-run}
use fmxevolution_go.Webhook.Events.{normalize_event_type}
use fmxevolution_go.Webhook.Model.{
  WebhookEndpoint, DispatchInput, DeliveryResult, EventEnvelope, Settings,
}
use fmxevolution_go.Webhook.Repo.{list_by_tenant, newer_endpoint, has_recent_delivery}
use fmxevolution_go.Webhook.Env.{Env, World, Req, ask, query}
use fmxevolution_go.Webhook.Service.{invalid, should_deliver}
use fmxevolution_go.Webhook.Service.Dispatch.{fan_out, is_duplicate, deliver_all, dispatch}
use fmxevolution_go.Webhook.Service.Rule.{IsEnvelope, dispatch-Triple}
use fmxevolution_go.Webhook.Service.Recorded.{IsSeen, deliver_all-sees}

-- The name of an event, and its message.
abbrev pub event_of : DispatchInput → String
event_of input = normalize_event_type (trim_space input.event_type) "inbound" input.values

abbrev pub message_of : DispatchInput → String
message_of input = trim_space input.message_id

told-tenant :
    (tenant : String) (endpoints : List WebhookEndpoint)
    → All
        (λ e. e.tenant_id ≡ tenant)
        (filter (λ e. should_deliver e "inbound") (list_by_tenant tenant endpoints))
unfolding list_by_tenant
told-tenant tenant endpoints = filter-All _ _ _ (
    All-order_by _ newer_endpoint _ (
      All-imp (λ e. str_eq e.tenant_id tenant ≡ true) _ (λ e h. (eq_iff e.tenant_id tenant).0 h) _
        (All-filter (λ e. str_eq e.tenant_id tenant) endpoints)))

-- Behind a dispatch that told someone, a delivery of the event is stored.
dispatch-IsSeen :
    (env : Env) (s : Settings) (tenant : String) (input : DispatchInput) (w : World)
    (results : List DeliveryResult) (t : World) (since : Time)
    → ((n : ℕ) → env.db_fault n ≡ none)
    → ((n : ℕ) → since ≤ env.clock n)
    → dispatch env s tenant "inbound" input w ≡ (ok results, t)
    → (is_nil results ≡ true) ⊎ IsSeen tenant (event_of input) (message_of input) since t.deliveries
unfolding deliver_all
dispatch-IsSeen env s tenant input w results t since accepted recent h =
    (dispatch-Triple env s tenant "inbound" input (λ u. u.endpoints ≡ w.endpoints) (λ u n k. k)
        w.endpoints (λ u k. k)
        (λ rs u.
          (is_nil rs ≡ true) ⊎ IsSeen tenant (event_of input) (message_of input) since u.deliveries)
        (Unit {0}) (λ u t k e. tt) (λ u k _. inl refl)
        (λ v body u e k. sees v body u e _ (told-tenant tenant w.endpoints))).at
      w refl results t h
  where
    sees :
        (v : EventEnvelope) (body : String) (u : World)
        → IsEnvelope env tenant "inbound" input v body
        → (es : List WebhookEndpoint) → All (λ e. e.tenant_id ≡ tenant) es
        → (is_nil (deliver_all env s v body es u).0 ≡ true)
          ⊎ IsSeen tenant
              (event_of input)
              (message_of input)
              since
              (deliver_all env s v body es u).1.deliveries
    sees v body u e [] own = inl refl
    sees v body u e (x ∷ xs) own = inr (
        deliver_all-sees env s tenant (event_of input) (message_of input) since accepted recent v
          body e.of_direction e.of_event e.of_message (x ∷ xs) u own refl)

is_duplicate-seen :
    (env : Env) (s : Settings) (tenant event msg : String) (t : World)
    → str_eq msg "" ≡ false
    → ((n : ℕ) → env.db_fault n ≡ none)
    → IsSeen tenant event msg (env.clock t.tick - s.dedupe_window) t.deliveries
    → is_duplicate env s tenant "inbound" event msg t
      ≡ (ok true, record t { tick = suc (suc t.tick) })
unfolding is_duplicate
is_duplicate-seen env s tenant event msg t named accepted seen = rw (
  named, ◌>>=◌, ask, or_value, query, accepted, has_recent_delivery, seen, named, query, accepted,
)

dispatch-duplicate :
    (env : Env) (s : Settings) (tenant : String) (input : DispatchInput) (t : World)
    → str_eq (trim_space input.event_type) "" ≡ false
    → is_duplicate env s tenant "inbound" (event_of input) (message_of input) t
      ≡ (ok true, record t { tick = suc (suc t.tick) })
    → dispatch env s tenant "inbound" input t ≡ (ok [], record t { tick = suc (suc t.tick) })
unfolding dispatch pure
dispatch-duplicate env s tenant input t typed seen =
    let test = is_duplicate env s tenant "inbound" (event_of input) (message_of input) in
    let rest : Bool → Req (List DeliveryResult) =
      λ b. if b then pure [] else fan_out env s tenant "inbound" input in
    >>=-run (fail_if (str_eq (trim_space input.event_type) "") (invalid "event_type is required"))
      (λ _. test >>= rest) t (fail_if-run _ _ t typed)
    ∙ >>=-run test rest t seen

-- The second of two inbound events of one tenant that have one name and one message, where the first
-- one was sent to some endpoint, the database accepts every call, and the clock moves no further than
-- the window: it is answered with no result, nothing is sent, and no table changes.
pub dispatch_again :
    (env : Env) (s : Settings) (tenant : String) (first second : DispatchInput) (w t : World)
    (results : List DeliveryResult)
    → ((n : ℕ) → env.db_fault n ≡ none)
    → ((m n : ℕ) → env.clock m ≤ env.clock n + s.dedupe_window)
    → str_eq (message_of second) "" ≡ false
    → str_eq (trim_space second.event_type) "" ≡ false
    → message_of second ≡ message_of first
    → event_of second ≡ event_of first
    → dispatch env s tenant "inbound" first w ≡ (ok results, t)
    → is_nil results ≡ false
    → dispatch env s tenant "inbound" second t ≡ (ok [], record t { tick = suc (suc t.tick) })
dispatch_again env s tenant first second w t results accepted near named typed message event h
      sent =
    elim (dispatch-IsSeen env s tenant first w results t (env.clock t.tick - s.dedupe_window)
      accepted (λ n. omega (arith, near t.tick n)) h) [
        | inl nobody ↦ absurd (ground arith)
        | inr seen ↦ dispatch-duplicate env s tenant second t typed (
            is_duplicate-seen env s tenant (event_of second) (message_of second) t named accepted (
              subst₂ (λ e m. IsSeen tenant e m (env.clock t.tick - s.dedupe_window) t.deliveries)
                (sym event) (sym message) seen))
      ]
