-- ===== src/Broadcast.antt =====
-- internal/broadcast and the broadcast part of internal/repository/gorm.go.
pub mod Model
pub mod Repo
pub mod Jobs
pub mod Env
pub mod Recipients
pub mod Processor
pub mod Delivery
pub mod Listing
pub mod Service
pub mod Worker
pub mod Examples
