-- ===== src/Protocol.antt =====
-- src/across_orchestrator/worker_protocol.py: the records that hosts and Workers exchange.
pub mod Status
pub mod Capability
pub mod Job
pub mod Grant
