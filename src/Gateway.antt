-- ===== src/Gateway.antt =====
-- internal/gateway: the core. Its domain types, the plan of one request, and the service.
pub mod Domain
pub mod Faults
pub mod Request
pub mod Fallback
pub mod Ports
pub mod Service
