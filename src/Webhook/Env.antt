-- ===== src/Webhook/Env.antt =====
-- What the webhook service is run against: the clock, the database, the HTTP client, and the
-- functions of other packages that it calls (url.ParseRequestURI, json.Marshal, HMAC-SHA256,
-- time.Parse, http.NewRequest).
--
-- The n-th call is answered by the n-th entry of the environment. Other requests do not change the
-- tables between the calls of one run.
use fmxevolution_go.Base.{ℕ, suc, String, Bool, Option, none, some, List, Time}
use fmxevolution_go.Base.Effect.{M, Out, ok, err}
use fmxevolution_go.Domain.{GoError, plain_error}
use fmxevolution_go.Webhook.Model.{
  WebhookEndpoint, WebhookDelivery, AiTriggerInput, EventEnvelope, InboundMessage,
}

-- A request that `sendOnce` makes: the body, and the headers that it sets.
pub record Post : Type 0 where
  pub url : String
  pub tenant_id : String
  pub event_type : String
  pub direction : String
  pub event_id : String
  pub signature : Option String
  pub body : String

-- A status and the part of a body that is read, at most 4096 bytes, or the error of the client.
abbrev pub Answer : Type 0
Answer = Out String (ℕ × String)

pub record Env : Type 0 where
  pub clock : ℕ → Time
  -- whether the context has ended
  pub cancelled : ℕ → Bool
  pub db_fault : ℕ → Option String
  pub new_id : ℕ → String
  -- the identifier that an insert leaves in the record when the database refuses it
  pub refused_id : ℕ → String
  pub new_event_id : ℕ → String
  -- the scheme of a URL, or none where it cannot be read
  pub parse_request_uri : String → Option String
  pub parse_time : String → Option Time
  pub marshal : EventEnvelope → Out String String
  pub sign_payload : String → String → String
  -- the error of `http.NewRequestWithContext` for a URL
  pub request_fault : String → Option String
  pub answer : ℕ → Post → Answer
  -- whether `Service.ai` is not nil
  pub has_ai : Bool

pub record World : Type 0 where
  pub endpoints : List WebhookEndpoint
  pub deliveries : List WebhookDelivery
  pub tick : ℕ
  -- the requests, the reports to chathistory and the calls of the AI trigger so far
  pub outbox : List Post
  pub notified : List InboundMessage
  pub triggered : List AiTriggerInput

abbrev pub Req : Type 0 → Type 0
Req A = M World GoError A

-- One call on the environment.
unfoldable pub ask : {A : Type 0} → (ℕ → A) → Req A
ask f w = (ok (f w.tick), record w { tick = suc w.tick })

-- A statement that only reads.
unfoldable pub query : {A : Type 0} → Env → (World → A) → Req A
query env f w = elim (env.db_fault w.tick) [
  | none ↦ (ok (f w), record w { tick = suc w.tick })
  | some e ↦ (err (plain_error e), record w { tick = suc w.tick })
]
