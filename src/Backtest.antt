-- ===== src/Backtest.antt =====
-- hydra/backtest: the simulated broker, the metrics and the runner.
pub mod Broker
pub mod Metrics
pub mod Runner
