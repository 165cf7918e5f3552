-- ===== src/Strategy.antt =====
-- From indicators to a sized signal: hydra/regime, hydra/strategy and hydra/engine.
pub mod Study
pub mod Indicators
pub mod Detector
pub mod Generator
pub mod Sizing
pub mod Decisions
