-- ===== src/Server.antt =====
-- src/server.rs: the framing of messages on a stream, and the handlers of requests.
pub mod Frame
pub mod Framing
pub mod Loop
pub mod State
pub mod Start
pub mod Integrity
pub mod Verify
pub mod Handlers
pub mod Requests
pub mod Dispatch
pub mod Branches
pub mod Clients
pub mod Tables
pub mod Permits
pub mod Preserves
pub mod Histories
pub mod Login
pub mod Panics
pub mod Lifetimes
mod Tests
mod HandlerTests
mod LifetimeTests
