-- ===== src/Middlewares.antt =====
-- middlewares: what happens to the body of a request before a handler sees it.
pub mod Sanitize
pub mod Clean
