-- ===== src/Auth.antt =====
-- Signing in.
pub mod Siwe
