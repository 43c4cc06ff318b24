-- ===== src/Examples.antt =====
-- Runs of the model on a small store: one node, one job with a goal under a lease, and one grant.
pub mod Samples
pub mod GrantRuns
pub mod JobRuns
pub mod NodeRuns
pub mod GraphRuns
pub mod HostRuns
pub mod UploadRuns
mod LoopRuns
mod RelayRuns
mod FindingRuns
