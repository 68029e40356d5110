-- ===== src/Reads.antt =====
-- The buffers that messages are read into: internal/bpool, and its use in `readLoop`.
pub mod Pool
pub mod Own
