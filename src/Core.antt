-- ===== src/Core.antt =====
-- hydra/core: orders, risk, positions, profit and loss, the kill switch, and what they share.
pub mod Types
pub mod Keys
pub mod Orders
pub mod Validation
pub mod PnlTracker
pub mod StateManager
pub mod OrderQueue
pub mod KillSwitch
pub mod RiskEngine
pub mod PositionTracker
