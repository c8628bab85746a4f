-- ===== src/Tests.antt =====
-- Runs of the development on concrete servers, clients and messages.
pub mod Wire
pub mod Instances
pub mod Servers
pub mod Handles
pub mod Messages
pub mod Signatures
pub mod Lifecycle
pub mod Links
pub mod Life
pub mod Calls
pub mod Concurrent
pub mod Programs
pub mod Modules
pub mod Isolation
