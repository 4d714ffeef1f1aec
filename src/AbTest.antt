-- ===== src/AbTest.antt =====
-- The A/B test service: services/abTestService/internal/abtest.
pub mod Values
pub mod Versions
pub mod Targeting
pub mod Types
pub mod Evaluate
pub mod Normalize
pub mod Store
pub mod Create
pub mod Changes
pub mod Additions
pub mod Commands
pub mod Rollout
pub mod Serving
pub mod Selection
pub mod Merging
pub mod Cache
mod Tests
