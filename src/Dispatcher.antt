-- ===== src/Dispatcher.antt =====
-- dispatcher.go: the routes of a hub's type, the cache of dispatchers, and the call of a method.
pub mod Reflect
pub mod Routes
pub mod Cache
pub mod Dispatch
pub mod Failures
