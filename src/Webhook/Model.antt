-- ===== src/Webhook/Model.antt =====
-- The rows of internal/repository/models.go for webhooks, and the requests and answers of
-- internal/webhook/service.go. `UpdatedAt` is read nowhere and is left out.
use fmxevolution_go.Base.{
  ℕ, ◌*◌, String, Bool, Option, ℤ, Time, minute, if◌then◌else◌, is_pos, nonneg_part,
}
use fmxevolution_go.Webhook.Values.{Fields}

pub record WebhookEndpoint : Type 0 where
  pub id : String
  pub tenant_id : String
  pub name : String
  pub url : String
  pub inbound_enabled : Bool
  pub outbound_enabled : Bool
  pub signing_secret : String
  pub created_at : Time

pub record WebhookDelivery : Type 0 where
  pub id : String
  pub tenant_id : String
  pub endpoint_id : String
  pub endpoint_url : String
  pub direction : String
  pub event_type : String
  pub event_id : String
  pub message_id : String
  pub status : String
  pub attempts : ℕ
  pub max_attempts : ℕ
  pub response_status : ℕ
  pub request_body : String
  pub response_body : String
  pub error_message : String
  pub next_attempt_at : Option Time
  pub delivered_at : Option Time
  pub created_at : Time

pub record WebhookDeliveryFilter : Type 0 where
  pub endpoint_id : String
  pub status : String
  pub event_type : String
  pub limit : ℤ
  pub offset : ℤ

pub record CreateInput : Type 0 where
  pub name : String
  pub url : String
  pub inbound_enabled : Bool
  pub outbound_enabled : Bool
  pub signing_secret : String

pub record DispatchInput : Type 0 where
  pub event_type : String
  pub instance_id : String
  pub message_id : String
  pub values : Fields

pub record AiTriggerInput : Type 0 where
  pub event_type : String
  pub instance_id : String
  pub conversation_key : String
  pub message_id : String
  pub message_text : String
  pub metadata : Fields

pub record DeliveryResult : Type 0 where
  pub endpoint_id : String
  pub endpoint_name : String
  pub url : String
  pub delivered : Bool
  pub status_code : ℕ
  pub delivery_id : String
  pub error : String

pub record EventEnvelope : Type 0 where
  pub event_id : String
  pub tenant_id : String
  pub direction : String
  pub event_type : String
  pub raw_event_type : String
  pub instance_id : String
  pub message_id : String
  pub timestamp : Time
  pub values : Fields

-- chathistory.InboundMessage
pub record InboundMessage : Type 0 where
  pub instance_id : String
  pub message_id : String
  pub remote_jid : String
  pub push_name : String
  pub message_type : String
  pub body : String
  pub source : String
  pub media_url : String
  pub mime_type : String
  pub file_name : String
  pub caption : String
  pub message : Fields
  pub timestamp : Time

-- The settings of `Service`.
pub record Settings : Type 0 where
  pub max_attempts : ℕ
  pub dedupe_window : ℕ

-- `NewService`
abbrev pub new_service : Settings
new_service = record { max_attempts = 5; dedupe_window = 10 * minute }

unfoldable pub set_max_attempts : ℤ → Settings → Settings
set_max_attempts attempts s =
    if is_pos attempts then record s { max_attempts = nonneg_part attempts } else s
