-- ===== src/Coordinator.antt =====
-- src/across_orchestrator/coordinator.py: EnrollmentAuthority and WorkerCoordinator.
pub mod Action
pub mod Grants
pub mod Jobs
pub mod Scheduler
pub mod Leases
pub mod Transactions
pub mod Events
pub mod Enrollment
pub mod Nodes
pub mod Transports
pub mod Removal
pub mod Artifacts
