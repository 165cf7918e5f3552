-- ===== src/Storage.antt =====
-- hydra/data/storage and hydra/data/collector.py: the candles in a database, and what fills it.
pub mod Database
pub mod Sqlite
pub mod Postgres
pub mod Contract
pub mod Latest
pub mod Collector
pub mod Backtest
pub mod Memory
pub mod Create
