-- ===== src/Webhook.antt =====
-- internal/webhook and the webhook part of internal/repository/gorm.go.
pub mod Values
pub mod Events
pub mod Model
pub mod Payload
pub mod Repo
pub mod Env
pub mod Service
pub mod Retry
pub mod Backoff
pub mod Lifecycle
pub mod Operations
pub mod Examples
