-- ===== src/Tests.antt =====
-- The theorems at concrete inputs, on an engine over lists and a toy cryptography.
mod Wire
mod Toy
mod ToyRedis
mod Delivery
mod Spec
mod Schedule
mod Session
mod Cached
mod Schemas
mod RateLimit
mod Migrations
mod RedisClient
mod Application
mod Api
mod Cache
mod Auth
mod Parcel
mod Security
