-- ===== src/Core.antt =====
-- app/core: the parts that the features share, and the types of Python that they use.
pub mod Exceptions
pub mod Action
pub mod Settings
pub mod Crypto
pub mod Text
pub mod Uuid
pub mod Decimal
pub mod Security
