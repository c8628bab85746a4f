-- ===== src/Examples.antt =====
-- The example programs src/examples/server.c, src/examples/admin.c and src/examples/client.c.
pub mod Process
pub mod Serving
pub mod Requests
pub mod Server
pub mod Admin
pub mod Client
pub mod Meeting
