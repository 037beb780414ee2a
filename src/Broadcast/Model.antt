-- ===== src/Broadcast/Model.antt =====
-- The rows that the broadcast service keeps: internal/repository/models.go, and the status
-- constants of internal/broadcast/service.go.
--
-- `CreatedAt` is kept where rows are ordered by it; `UpdatedAt` is read nowhere and is left out.
use fmxevolution_go.Base.{ℕ, String, Option, none, List, Bool, false, ℤ, Time}

abbrev pub status_queued : String
status_queued = "queued"

abbrev pub status_processing : String
status_processing = "processing"

abbrev pub status_completed : String
status_completed = "completed"

abbrev pub status_completed_with_failures : String
status_completed_with_failures = "completed_with_failures"

abbrev pub status_failed : String
status_failed = "failed"

abbrev pub recipient_status_pending : String
recipient_status_pending = "pending"

abbrev pub recipient_status_sent : String
recipient_status_sent = "sent"

abbrev pub recipient_status_delivered : String
recipient_status_delivered = "delivered"

abbrev pub recipient_status_read : String
recipient_status_read = "read"

abbrev pub recipient_status_failed : String
recipient_status_failed = "failed"

pub record BroadcastRecipientProgress : Type 0 where
  pub id : String
  pub broadcast_id : String
  pub tenant_id : String
  pub instance_id : String
  pub contact_id : Option String
  pub phone : String
  pub delivery_status : String
  pub attempt_count : ℕ
  pub last_error : String
  pub last_attempt_at : Option Time
  pub sent_at : Option Time
  pub delivered_at : Option Time
  pub read_at : Option Time
  pub failed_at : Option Time
  pub last_status_at : Option Time
  pub status_source : String
  pub message_id : String
  pub server_id : ℕ
  pub chat_jid : String
  pub created_at : Time

pub record BroadcastRecipientAnalytics : Type 0 where
  pub tracked_broadcasts : ℕ
  pub total_recipients : ℕ
  pub attempted : ℕ
  pub sent : ℕ
  pub delivered : ℕ
  pub read : ℕ
  pub failed : ℕ
  pub pending : ℕ
  pub partial : Bool

pub record BroadcastJob : Type 0 where
  pub id : String
  pub tenant_id : String
  pub instance_id : String
  pub status : String
  pub message : String
  pub rate_per_hour : ℤ
  pub delay_sec : ℤ
  pub attempts : ℕ
  pub max_attempts : ℤ
  pub worker_id : String
  pub last_error : String
  pub scheduled_at : Option Time
  pub available_at : Time
  pub started_at : Option Time
  pub completed_at : Option Time
  pub failed_at : Option Time
  pub created_at : Time
  -- the columns marked `gorm:"-"`, which `enrichJob` fills
  pub recipient_total : ℕ
  pub recipient_attempted : ℕ
  pub recipient_sent : ℕ
  pub recipient_failed : ℕ
  pub recipient_pending : ℕ
  pub recipient_partial : Bool
  pub recipient_analytics : BroadcastRecipientAnalytics
  pub recipients : List BroadcastRecipientProgress

-- The zero value.
abbrev pub no_analytics : BroadcastRecipientAnalytics
no_analytics = record {
  tracked_broadcasts = 0;
  total_recipients = 0;
  attempted = 0;
  sent = 0;
  delivered = 0;
  read = 0;
  failed = 0;
  pending = 0;
  partial = false;
}

-- A row as `SeedRecipientProgress` is given it; the database sets the rest.
unfoldable pub new_progress :
    String → String → String → Option String → String → BroadcastRecipientProgress
new_progress job tenant inst contact phone = record {
  id = "";
  broadcast_id = job;
  tenant_id = tenant;
  instance_id = inst;
  contact_id = contact;
  phone = phone;
  delivery_status = recipient_status_pending;
  attempt_count = 0;
  last_error = "";
  last_attempt_at = none;
  sent_at = none;
  delivered_at = none;
  read_at = none;
  failed_at = none;
  last_status_at = none;
  status_source = "";
  message_id = "";
  server_id = 0;
  chat_jid = "";
  created_at = 0;
}
