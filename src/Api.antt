-- ===== src/Api.antt =====
-- hydra/api and the guard of hydra/main.py: a request goes through the guard, then through the key check
-- of its route, then to the handler of the route, which calls the core.
pub mod Types
pub mod Cached
pub mod Health
pub mod Control
pub mod Stored
pub mod Guard
pub mod Reading
pub mod Halting
pub mod Serving
pub mod Answering
pub mod Paths
pub mod Remote
pub mod Lifespan
pub mod Feeds
