-- ===== src/Config.antt =====
-- hydra/config: the markets, the keys, the profiles, the limits of a strategy and the settings.
pub mod Markets
pub mod KeyManager
pub mod Profiles
pub mod Settings
