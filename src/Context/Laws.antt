-- ===== src/Context/Laws.antt =====
-- What holds of the default context through the whole life of an actor, whatever its hooks do.
pub mod Stable
pub mod Supervision
pub mod Stopped
pub mod Ending
pub mod Delivery
