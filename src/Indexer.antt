-- ===== src/Indexer.antt =====
-- indexer/ratelimit.go: rate limiting of the requests to each indexer.
pub mod Client
pub mod RateLimiter
pub mod SearchLimiter
mod Examples
