-- ===== src/Supplemental.antt =====
-- The pollers and the score of the news.
pub mod Sentiment
pub mod News
pub mod OrderBook
