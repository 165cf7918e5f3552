-- ===== src/Redis.antt =====
-- The Redis server that the components share: the interface of its client, and a server in memory.
pub mod Client
pub mod Memory
unfoldable pub use Client.{starts_with}
pub use Client.{starts_with-append, starts_with-other, Redis, RedisLaws, stored_float, stored_count}
unfoldable pub use Memory.{memory}
pub use Memory.{Server, empty_server, memory-RedisLaws}
