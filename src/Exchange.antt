-- ===== src/Exchange.antt =====
-- The connectors that the repository defines on top of command line tools, and their factory.
pub mod Crypto
pub mod Factory
pub mod Polymarket
pub mod Kis
