-- ===== src/Agent.antt =====
-- hydra/agent
pub mod State
pub mod Answer
pub mod Fences
pub mod Bridge
pub mod Alarms
pub mod ReadOnly
