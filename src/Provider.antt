-- ===== src/Provider.antt =====
-- src/provider.c and src/provider.h.
pub mod State
pub mod Server
pub mod Backends
pub mod Collectors
pub mod Handlers
pub mod Serve
pub mod Dispatch
pub mod Concurrent
pub mod Lifecycle
