-- ===== src/Cron/Laws.antt =====
-- What holds of the context of acktor/src/cron.rs.
pub mod Failure
pub mod Calm
pub mod Paused
pub mod Idle
