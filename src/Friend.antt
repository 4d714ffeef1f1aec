-- ===== src/Friend.antt =====
-- The friend service: services/friendService/internal/handler, over the tables of Relations.
pub mod Requests
pub mod Friends
pub mod Groups
pub mod Relationships
pub mod Router
mod Tests
