-- ===== src/Examples.antt =====
-- Concrete inputs, one run for each theorem that has hypotheses or parameters.
mod Data
mod Orders
mod Money
mod Backtests
mod Signals
mod Services
mod Live
mod Stores
mod Locks
mod Http
mod Outside
mod Interleaved
mod Operator
mod Dotenv
