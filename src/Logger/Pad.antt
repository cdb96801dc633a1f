-- ===== src/Logger/Pad.antt =====
-- The padded sector of `log_flush`, built in place in `ring[0..511]`.
pub mod Copy
pub mod Sector
