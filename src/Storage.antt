-- ===== src/Storage.antt =====
-- Messages as the database keeps them: shared/db/util_message.go.
pub mod Messages
mod Tests
