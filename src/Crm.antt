-- ===== src/Crm.antt =====
-- internal/crm and the part of internal/repository/gorm.go for contacts, tags and notes.
pub mod Model
pub mod Repo
pub mod Env
pub mod Service
pub mod Foreign
pub mod Calls
pub mod Isolation
pub mod Unique
pub mod Stored
pub mod Examples
