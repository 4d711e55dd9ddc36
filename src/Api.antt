-- ===== src/Api.antt =====
-- app/api: the dependencies, the error envelope and the handlers.
pub mod Http
pub mod Deps
pub mod Errors
pub mod Auth
pub mod Cache
pub mod Cached
pub mod RateLimit
pub mod Parcel
pub mod OpenApi
pub mod Routes
pub mod Documented
pub mod Calls
pub mod Application
