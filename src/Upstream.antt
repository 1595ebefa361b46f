-- ===== src/Upstream.antt =====
-- internal/upstream: quota alerts and the pools that a client sees.
pub mod Alert
pub mod Pool
pub mod Merge
