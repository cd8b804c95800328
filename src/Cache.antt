-- ===== src/Cache.antt =====
-- The disk cache of src/cacher_cache.c, a module for each part.
pub mod Key
pub mod Headers
pub mod Meta
pub mod FileSystem
pub mod Write
pub mod Lookup
pub mod Root
