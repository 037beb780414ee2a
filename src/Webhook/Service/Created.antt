-- ===== src/Webhook/Service/Created.antt =====
-- What `Create` of internal/webhook/service.go stores.
use fmxevolution_go.Base.{
  suc, String, Bool, true, false, ◌||◌, ◌≡◌, refl, sym, ap, subst, subst₂, ◌∙◌, inl, inr,
  if◌then◌else◌, Bool-cases, Option-cases, some, [], ◌∷◌, ◌++◌, str_eq, is_blank, trim_space, arith,
}
use fmxevolution_go.Base.Effect.{
  ok, err, from_out, Triple, Triple-bind, Triple-fail_if, ok-injective, ok-err,
}
use fmxevolution_go.Domain.{GoError, plain_error}
use fmxevolution_go.Webhook.Model.{WebhookEndpoint, CreateInput}
use fmxevolution_go.Webhook.Repo.{insert_endpoint}
use fmxevolution_go.Webhook.Env.{Env, World}
use fmxevolution_go.Webhook.Service.{
  invalid, validate_webhook_url, new_endpoint, create_endpoint, create,
}

-- The URL reads as one with the scheme http or https.
abbrev pub IsWebhookUrl : Env → String → Type 0
IsWebhookUrl env url =
    (scheme : String) × (env.parse_request_uri url ≡ some scheme)
    × ((str_eq scheme "http" || str_eq scheme "https") ≡ true)

-- One row more, which is the answer: told of both directions, whatever the request says.
abbrev pub Added : Env → String → CreateInput → World → WebhookEndpoint → World → Type 0
Added env tenant input w e t =
    (t.endpoints ≡ w.endpoints ++ e ∷ [])
    × (t.deliveries ≡ w.deliveries)
    × (e.tenant_id ≡ tenant)
    × (e.name ≡ trim_space input.name)
    × (e.url ≡ trim_space input.url)
    × ((is_blank input.name || is_blank input.url) ≡ false)
    × IsWebhookUrl env (trim_space input.url)
    × (e.inbound_enabled ≡ true)
    × (e.outbound_enabled ≡ true)

validate_webhook_url-ok :
    (env : Env) (raw : String) (u : Unit {0})
    → validate_webhook_url env raw ≡ ok u
    → IsWebhookUrl env (trim_space raw)
unfolding validate_webhook_url
validate_webhook_url-ok env raw u h = elim (Option-cases (env.parse_request_uri (trim_space raw))) [
  | inl bad ↦
      let x : validate_webhook_url env raw ≡ err (invalid "invalid webhook url") =
        rw (bad, validate_webhook_url) in
      ok-err (sym h ∙ x)
  | inr (scheme, parsed) ↦ elim (Bool-cases (str_eq scheme "http" || str_eq scheme "https")) [
    | inl web ↦ (scheme, parsed, web)
    | inr other ↦
        let x : validate_webhook_url env raw ≡ err (invalid "webhook url must use http or https") =
          rw (parsed, validate_webhook_url, other) in
        ok-err (sym h ∙ x)
  ]
]

or_default : (b : Bool) → (if b then b else true) ≡ true
or_default b = ground arith

create_endpoint-at :
    (env : Env) (tenant : String) (input : CreateInput) (w : World) (e : WebhookEndpoint)
    (t : World)
    → (is_blank input.name || is_blank input.url) ≡ false
    → IsWebhookUrl env (trim_space input.url)
    → create_endpoint env (new_endpoint tenant input) w ≡ (ok e, t)
    → Added env tenant input w e t
unfolding create_endpoint new_endpoint insert_endpoint
create_endpoint-at env tenant input w e t named web h = elim (Option-cases (env.db_fault w.tick)) [
  | inl fine ↦
      let (made, rows) =
        insert_endpoint (env.new_id w.tick) (env.clock w.tick) (new_endpoint tenant input)
          w.endpoints in
      let stored : create_endpoint env (new_endpoint tenant input) w
          ≡ (ok made, record w { tick = suc w.tick; endpoints = rows }) =
        rw (fine, create_endpoint) in
      let same = sym stored ∙ h in
      subst₂ (Added env tenant input w) (ok-injective (ap (λ r. r.0) same)) (ap (λ r. r.1) same) (
        refl,
        refl,
        refl,
        refl,
        refl,
        named,
        web,
        or_default (new_endpoint tenant input).inbound_enabled,
        or_default (new_endpoint tenant input).outbound_enabled,
      )
  | inr (fault, refused) ↦
      let stored : create_endpoint env (new_endpoint tenant input) w
          ≡ (err (plain_error fault), record w { tick = suc w.tick }) =
        rw (refused, create_endpoint) in
      ok-err (ap (λ r. r.0) (sym h ∙ stored))
]

-- A call of `Create` that ends without an error has added exactly one endpoint, the one that it
-- answers with, whose name and URL are those of the request without white space around them, neither
-- empty, and whose URL is one of http or https. It is told of the events of both directions, also
-- where the request asks for one of them only.
pub create-Added :
    (env : Env) (tenant : String) (input : CreateInput) (w : World) (e : WebhookEndpoint)
    (t : World)
    → create env tenant input w ≡ (ok e, t)
    → Added env tenant input w e t
unfolding create from_out
create-Added env tenant input w e t h =
    (Triple-bind (λ _ u. Named u) (Triple-fail_if (is_blank input.name || is_blank input.url) _)
        λ _.
          Triple-bind (λ _ u. Named u × IsWebhookUrl env (trim_space input.url)) validated
            λ _. record {
              at = λ u k a v x.
                  subst (λ o. Added env tenant input o a v) k.0.1
                    (create_endpoint-at env tenant input u a v k.0.0 k.1 x);
            }).at
      w refl e t h
  where
    Named : World → Type 0
    Named u = ((is_blank input.name || is_blank input.url) ≡ false) × (u ≡ w)

    validated :
        Triple {E = GoError} Named
          (from_out (validate_webhook_url env input.url))
          (λ _ u. Named u × IsWebhookUrl env (trim_space input.url))
    validated = record {
      at = λ u k a v x. (
        subst Named (ap (λ r. r.1) x) k,
        validate_webhook_url-ok env input.url a (ap (λ r. r.0) x),
      );
    }
