-- ===== src/Session.antt =====
-- src/server/client_session.c and src/server/target_connection.c for one proxied connection.
pub mod Defs
pub mod Close
pub mod Flush
pub mod Env
pub mod Target
pub mod Client
pub mod Calls
pub mod Sending
pub mod Relay
pub mod Teardown
pub mod Guard
pub mod Replies
mod Tests
