-- ===== src/Redis.antt =====
-- internal/redis: the counters that all replicas share. The server and the connection to it are
-- parameters: what the limiters rely on is stated by `Redis.Store`.
pub mod Store
pub mod Resp
pub mod Framing
pub mod Client
pub mod Replies
pub mod Dialed
pub mod Settled
pub mod Pool
pub mod Asked
pub mod Limiter
pub mod Admission
pub mod TokenLimiter
pub mod Ceiling
