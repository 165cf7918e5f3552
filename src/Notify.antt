-- ===== src/Notify.antt =====
-- hydra/notify
pub mod Telegram
