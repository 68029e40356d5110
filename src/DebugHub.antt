-- ===== src/DebugHub.antt =====
-- The hub of example/main.go, which answers every message with what it has decoded of it.
pub mod Hub
pub mod Answers
pub mod Tame
