-- ===== src/Relay.antt =====
-- src/across_orchestrator/relay.py: the router that passes sealed frames between two nodes of a
-- session, and the framing of JSON on a stream.
pub mod Framing
pub mod Router
pub mod Replay
pub mod Capacity
