-- ===== src/Session.antt =====
-- The part of server.go that serves one connection: `ServeHTTP` and the read loop.
pub mod World
pub mod Reading
pub mod Keeps
pub mod Settled
pub mod Left
pub mod Added
pub mod Handed
pub mod Heard
pub mod Calls
pub mod Reply
pub mod Serve
