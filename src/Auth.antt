-- ===== src/Auth.antt =====
-- internal/auth: a caller is a ServiceAccount token, verified against keys that are held in memory.
pub mod Token
pub mod Genuine
pub mod Jwks
pub mod Static
pub mod Issuer
pub mod Warm
