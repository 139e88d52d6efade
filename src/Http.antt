-- ===== src/Http.antt =====
-- server/internal/httpapi/middleware.go: what stands before the handlers of the API.
pub mod Limiter
pub mod LimiterBound
pub mod Idempotency
pub mod ApiKeys
pub mod KeyHandlers
pub mod Revoked
mod Tests
