-- ===== src/Limits.antt =====
-- Process-local limits: the run slots, the request windows and the TTL caches.
pub mod Slots
pub mod Window
pub mod Lockout
pub mod TtlCache
