-- ===== src/Dual.antt =====
-- The dual-site services (src/redundancy/dual).
pub mod Types
pub mod Negotiator
