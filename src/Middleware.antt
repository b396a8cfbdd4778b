-- ===== src/Middleware.antt =====
-- The Express middleware: the files of src/utils/middleware.
pub mod Auth
pub mod ErrorHandler
pub mod RateLimiter
