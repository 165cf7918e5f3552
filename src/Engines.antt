-- ===== src/Engines.antt =====
-- The live engines, which pass their results on through Redis.
pub mod Events
pub mod Indicator
pub mod Regime
pub mod Strategy
pub mod Pipeline
pub mod Safety
pub mod Messages
pub mod Live
pub mod Typed
pub mod Interleaving
pub mod Stale
pub mod StartUp
pub mod Unconnected
