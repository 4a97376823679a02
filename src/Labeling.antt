-- ===== src/Labeling.antt =====
-- The labeling service: predictions that are committed before their outcome is known.
pub mod Merkle
pub mod Anchor
