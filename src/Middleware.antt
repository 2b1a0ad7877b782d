-- ===== src/Middleware.antt =====
-- internal/middleware: what stands between the router and a handler.
pub mod RateLimiter
pub mod Rbac
mod Tests
