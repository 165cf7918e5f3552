-- ===== src/Cli.antt =====
-- hydra/cli: the commands of the operator.
pub mod Output
pub mod Market
pub mod Modules
pub mod Strategies
pub mod Trade
pub mod Status
pub mod Kill
pub mod Setup
pub mod Stored
pub mod Making
pub mod Connected
pub mod Operator
pub mod Launch
pub mod Keyed
