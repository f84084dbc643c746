-- ===== src/Valkey.antt =====
-- The Valkey server, which the services reach through `redis.asyncio`: its commands are parameters,
-- and its documented behaviour is a record of laws.
pub mod Streams
pub mod Lists
