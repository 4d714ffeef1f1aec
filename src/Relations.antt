-- ===== src/Relations.antt =====
-- Friends, groups and the requests that lead to them: shared/db/util_relationship.go,
-- util_friend.go and util_group.go.
pub mod Types
pub mod Friends
pub mod Groups
pub mod Requests
pub mod Resolve
pub mod Operations
pub mod Ownership
pub mod Frames
pub mod Friendship
pub mod Authority
pub mod Pending
pub mod Finality
mod Tests
