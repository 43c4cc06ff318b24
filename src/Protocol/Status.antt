-- ===== src/Protocol/Status.antt =====
-- worker_protocol.py: NODE_STATES, JOB_STATES and TERMINAL_JOB_STATES.
use across_orchestrator.Base.{Bool, true, false}

pub data NodeState : Type 0 where
  pending_approval online_idle online_busy draining : NodeState
  offline incompatible degraded revoked : NodeState

-- `stale` is no member of JOB_STATES: only the coordinator writes it, into a job record.
pub data JobStatus : Type 0 where
  queued leased preparing running waiting_model uploading verifying waiting_review : JobStatus
  completed failed cancelled lost expired : JobStatus
  stale : JobStatus

-- TERMINAL_JOB_STATES
abbrev pub is_terminal : JobStatus → Bool
is_terminal completed = true
is_terminal failed = true
is_terminal cancelled = true
is_terminal lost = true
is_terminal expired = true
is_terminal _ = false

abbrev pub is_queued : JobStatus → Bool
is_queued queued = true
is_queued _ = false

abbrev pub is_revoked : NodeState → Bool
is_revoked revoked = true
is_revoked _ = false

-- `state in {"online_idle", "online_busy"}`
abbrev pub is_online : NodeState → Bool
is_online online_idle = true
is_online online_busy = true
is_online _ = false
