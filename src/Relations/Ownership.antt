-- ===== src/Relations/Ownership.antt =====
-- Who owns a group: the rows of `groups` and `group_members` agree.
pub mod Rows
pub mod Changes
pub mod Groups
pub mod Transactions
pub mod Runs
pub mod Succession
