-- ===== src/Publish.antt =====
-- backend/src/modules/publish: the posts table, the request that creates a post, the job that publishes
-- it, and the resolution of an unknown outcome.
pub mod Posts
pub mod Store
pub mod StepUp
pub mod Enqueue
pub mod Orchestrator
pub mod Execution
pub mod Resolution
pub mod Interleaving
pub mod Checks
pub mod Guards
mod Tests
pub mod Samples
