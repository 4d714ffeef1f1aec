-- ===== src/Reliable.antt =====
-- How a message is handled at least once and takes effect once: the shared consumer, inbox and outbox
-- of shared/kafkaconsumer, shared/db/inbox_outbox.go and shared/outbox.
pub mod Consumer
pub mod Inbox
pub mod Outbox
mod Tests
