-- ===== src/Cache.antt =====
-- The set-associative cache model of engine/ar_cache.h and engine/ar_cache.cpp.
pub mod Geometry
pub mod Lru
pub mod Array
