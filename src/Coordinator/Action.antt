-- ===== src/Coordinator/Action.antt =====
-- coordinator.py: the exceptions of the coordinator, its methods as actions on the store, and the
-- lookups `_node`, `_job`, `_lease` and `_audit`. Every operation takes the reading of the clock as
-- an argument `now` (one reading for the whole operation), in the unit of the timestamps.
use across_orchestrator.Base.{ℕ, String, [], ◌∷◌, ◌++◌, nat_Eq, string_Eq}
use across_orchestrator.Exec.{Result, ok, err, Exec, lookup, lift, modify, ◌>>=◌}
use across_orchestrator.Dict
use across_orchestrator.Protocol.Job.{JobLease}
use across_orchestrator.Protocol.Grant.{ProtocolError}
use across_orchestrator.Store.{Node, Job, Store}

-- One constructor for each message of a CoordinatorError (the two of `_validate_inputs` share one,
-- `inputs_mismatch`); `job_lock_required` is the RuntimeError of a recovery without the lock of the
-- job, `protocol` is a ProtocolError, and
-- `unexpected_keyword` the TypeError of a constructor that is handed a key it does not have.
pub data CoordinatorError : Type 0 where
  protocol : ProtocolError → CoordinatorError
  unexpected_keyword : CoordinatorError
  inputs_mismatch : CoordinatorError
  pairing_rejected pairing_rate_limited pairing_identity_mismatch pairing_identity_invalid :
      CoordinatorError
  node_not_pending verification_code_mismatch node_not_found node_not_approved : CoordinatorError
  unsupported_transport peer_identity_mismatch no_bound_certificate peer_certificate_mismatch :
      CoordinatorError
  node_identity_stale protocol_incompatible node_is_revoked fingerprint_invalid : CoordinatorError
  update_requires_approved_node update_directive_stale update_request_invalid : CoordinatorError
  transport_invalid transport_endpoint_invalid transport_requires_approved_node : CoordinatorError
  relay_key_invalid relay_material_invalid transport_directive_stale : CoordinatorError
  approved_fingerprint_invalid : CoordinatorError
  job_not_found lease_not_found grant_not_found : CoordinatorError
  idempotency_conflict goal_revision_older goal_id_required goal_revision_not_positive :
      CoordinatorError
  goal_revision_backwards : CoordinatorError
  lease_expired_before_ack manifest_hash_mismatch lease_goal_mismatch lease_goal_older :
      CoordinatorError
  stale_lease_heartbeat lease_not_acknowledged lease_expired : CoordinatorError
  upload_needs_active_lease upload_not_owned artifact_undeclared artifact_already_bound :
      CoordinatorError
  upload_not_registered artifact_descriptor_mismatch upload_stale_attempt : CoordinatorError
  event_goal_mismatch event_foreign_lease duplicate_event_conflict event_needs_ack :
      CoordinatorError
  event_lease_expired event_sequence_not_increasing job_already_terminal : CoordinatorError
  unverified_artifact outputs_not_satisfied : CoordinatorError
  job_lock_required transaction_other_job transaction_conflict transaction_job_missing
        different_terminal_event :
      CoordinatorError
  log_has_other_terminal transaction_event_conflict : CoordinatorError
  grant_not_owner grant_budget_exceeded grant_concurrency_exceeded grant_calls_exceeded :
      CoordinatorError
  grant_tokens_exceeded reservation_not_found grant_final_usage_exceeded : CoordinatorError

abbrev pub Action : Type 0 → Type 0
Action A = Exec CoordinatorError Store A

-- A ProtocolError passes through the coordinator as it is.
abbrev pub as_coordinator_error {ℓ} :
    {A : Type ℓ} → Result ProtocolError A → Result CoordinatorError A
as_coordinator_error (ok a) = ok a
as_coordinator_error (err e) = err (CoordinatorError.protocol e)

unfoldable pub demand : Result ProtocolError (Unit {0}) → Action (Unit {0})
demand r = lift (as_coordinator_error r)

-- `_audit`
unfoldable pub audited : ℕ → String → String → Action (Unit {0})
audited now event subject =
    modify λ s. record s {
      audit = s.audit ++ record { event = event; subject = subject; at = now } ∷ [];
    }

-- `_node`, `_job`, `_lease`. A record's state is one of NODE_STATES by its type.
abbrev pub node_of : String → Action Node
node_of k = lookup CoordinatorError.node_not_found (λ s. Dict.get k s.nodes)

abbrev pub job_of : String → Action Job
job_of k = lookup CoordinatorError.job_not_found (λ s. Dict.get k s.jobs)

abbrev pub lease_of : String → Action JobLease
lease_of k = lookup CoordinatorError.lease_not_found (λ s. Dict.get k s.leases)

unfoldable pub put_job : String → Job → Action (Unit {0})
put_job k job = modify λ s. record s { jobs = Dict.put k job s.jobs }

unfoldable pub put_node : String → Node → Action (Unit {0})
put_node k node = modify λ s. record s { nodes = Dict.put k node s.nodes }

unfoldable pub put_lease : String → JobLease → Action (Unit {0})
put_lease k lease = modify λ s. record s { leases = Dict.put k lease s.leases }

-- Named on an `unfolding` line, it opens all that the methods are made of.
unfoldable pub actions : Unit {0}
unfolding ◌>>=◌ demand audited put_job put_node put_lease
actions = tt
