-- ===== src/Middleware.antt =====
-- fastapi_viewsets/middleware: the command middleware with state of its own.
pub mod RateLimiter
pub mod Idempotency
pub mod Chain
pub mod Configuration
