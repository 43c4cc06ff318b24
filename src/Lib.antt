-- ===== src/Lib.antt =====
-- The worker control plane of across-orchestrator: a host coordinator that pairs worker nodes, leases
-- jobs to them, accepts their events, and grants them calls of a model within a budget; the
-- invalidation of a goal graph; the agent loop that carries a goal through dispatch, quality gates,
-- approvals and recovery; the states of findings; and the relay between nodes. Paths are those of the
-- repository.
--
-- Files:
--   Base          shared names, Boolean tests, lists over the native numbers
--   Dict          the dictionaries that stand for the JSON collections, in the order
--                 of their files (src/across_orchestrator/worker_store.py: put, get, delete, list)
--   Exec          methods as actions: a state, and a result or an exception. An action that raises
--                 keeps the writes it made before. Exec.Keeps has the rules for invariants
--   Protocol      the records of src/across_orchestrator/worker_protocol.py: states, capability
--                 manifests with `supports`, job manifests, leases, events, model grants with
--                 `authorize`
--   Store         WorkerControlStore with the records that the coordinator keeps in it
--   Coordinator   src/across_orchestrator/coordinator.py: Enrollment is EnrollmentAuthority; Nodes,
--                 Transports, Removal, Jobs, Scheduler, Leases, Artifacts, Events, Transactions
--                 and Grants are the operations of WorkerCoordinator, one function per method, named
--                 as the method is, less a leading underscore. Their child modules hold proofs
--   GoalGraph     src/across_orchestrator/goal_graph.py
--   Findings      the states and verdicts of src/across_orchestrator/findings.py
--   AgentLoop     src/across_orchestrator/agent_loop.py and failures.py: the records and State, then
--                 Selection (the next action), Recovery (policy, failure, budget), Steps (a step's
--                 life), Rounds (run_loop) and Host (start, approve, reject, retry, cancel). The
--                 gates' verdicts are those of Findings. Its other child modules hold proofs
--   Relay         src/across_orchestrator/relay.py: Router is RelayRouter, Framing the reading and
--                 writing of frames; Replay and Capacity hold proofs
--   Examples      runs of the model on a small store
--
-- Conventions:
--   * An operation takes one reading `now` of the clock, where the source may read it several times,
--     and the ids that `new_protocol_id` makes. Locks are not modelled: each operation is one step.
--   * Digests (SHA-256, HMAC) are function parameters.
--   * Times and counts are natural numbers, costs are counted in 10^-9 US dollars, loads in
--     millionths.
--   * A text that the source reads for its truth is `none` where it is empty, and a revision that is
--     absent is 0.
--   * Loops over a collection are structural recursion over its values, in the order of the
--     files. The loop of `compute_invalidation` has one pass more than there are criteria; every pass but
--     the last adds a criterion.
--   * A loop's state is the saved LoopRun with its log, newest event first, and the cancel request.
--     What comes from outside in one round of run_loop (the clock, a new cancel request, what the
--     adapter does, fresh ids) is an Input; `inputs n` is the one of round n. The rounds run on fuel,
--     and `fuel_for` is enough: each retry that the policy still has pays for all turns of the loop,
--     and every other round that goes on uses up a turn. A step object that the source shares stands
--     in the list of steps under its id.
--
-- Not modelled: the sanitized copies that the operations return; audit payloads but for the event
-- and its subject; the Base64 copies of inputs; the evidence receipt, the goal evidence binding and
-- the model usage that a terminal event adds to its job, and what making them may raise; the cutting
-- of texts to a length; the validation of a capability manifest; validator results and revalidation
-- attempts; of the agent loop the findings
-- that it records, cancel categories, titles and routes of actions, heartbeats of a running action,
-- validation contracts and reports; the sealing of relay frames, TLS and sockets; HTTP, MCP and command
-- line front ends, sandboxes and workers' own processes.
pub mod Base
pub mod Dict
pub mod Examples
pub mod Exec
pub mod GoalGraph
pub mod Findings
pub mod AgentLoop
pub mod Relay
pub mod Protocol
pub mod Store
pub mod Coordinator
