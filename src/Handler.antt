-- ===== src/Handler.antt =====
-- server.go: the handler, as far as the registry and its counters go.
pub mod Admission
pub mod Online
pub mod Races
pub mod Shutdown
pub mod Config
pub mod Broadcast
pub mod Refused
pub mod SentTo
pub mod SentSome
pub mod Heartbeat
pub mod Path
pub mod Create
pub mod Drained
