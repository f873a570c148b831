-- ===== src/Events.antt =====
-- lib/pimc/events.
pub mod FixedEventQueue
pub mod Rounds
mod Examples
