-- ===== src/Broadcast/Delivery.antt =====
-- What a run of `Process` does to the recipients of a job.
pub mod Quiet
pub mod Rows
pub mod Outbox
pub mod Coverage
pub mod Complete
pub mod Progress
