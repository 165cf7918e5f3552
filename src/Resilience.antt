-- ===== src/Resilience.antt =====
-- hydra/resilience: the rate limiter and the graceful shutdown.
pub mod RateLimiter
pub mod Graceful
