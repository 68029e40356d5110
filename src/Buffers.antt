-- ===== src/Buffers.antt =====
-- The frame buffers of connection.go, which the other modules take for values.
pub mod Heap
pub mod Memory
pub mod Owned
pub mod Appended
pub mod Encoded
pub mod Flights
pub mod Frames
pub mod Runs
pub mod Shared
pub mod Steps
pub mod Write
pub mod Writes
pub mod Written
