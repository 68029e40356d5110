-- ===== src/Batch.antt =====
-- batch_send.go and batch_close.go: one payload for many connections, and closing many of them.
pub mod Tally
pub mod Send
pub mod Close
pub mod Counts
pub mod Same
pub mod Pool
pub mod PoolWorks
pub mod PoolEnds
pub mod Scheduled
