-- ===== src/Call.antt =====
-- The call service: services/callService/internal/call.
pub mod Types
pub mod World
pub mod Store
pub mod Events
mod Keeps
pub mod Initiate
pub mod Answer
pub mod Service
pub mod Writes
mod Follow
pub mod Safety
pub mod Lifecycle
mod Record
pub mod Once
pub mod Outcome
pub mod Authority
pub mod Relay
mod Tests
