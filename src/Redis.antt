-- ===== src/Redis.antt =====
-- backend/internal/cache/redis_client.go: the Redis protocol.
pub mod Decimal
pub mod Protocol
pub mod Replies
pub mod RoundTrip
pub mod Commands
pub mod Commanding
mod Examples
