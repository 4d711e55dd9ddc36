-- ===== src/Middlewares.antt =====
-- app/middlewares.
pub mod Session
