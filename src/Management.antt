-- ===== src/Management.antt =====
-- src/server/management.c: the management protocol, one line and one answer to a connection.
pub mod Line
pub mod Respond
pub mod Handlers
pub mod Progress
pub mod Runs
pub mod Answering
pub mod Accounts
pub mod Samples
mod Tests
