-- ===== src/Connection.antt =====
-- connection.go: one connection, its operations in flight, its send queue and its writer.
pub mod State
pub mod Operations
pub mod Queue
pub mod Send
pub mod Hint
pub mod Writer
pub mod Balance
pub mod Drain
pub mod Order
pub mod Sent
pub mod HintBounds
pub mod Books
pub mod Close
pub mod Idle
pub mod Senders
