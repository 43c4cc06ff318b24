-- ===== src/Coordinator/Artifacts.antt =====
-- coordinator.py: `begin_artifact_upload` and `finalize_artifact_upload`. The status of an upload
-- is "verified" or "uploading"; its timestamps are left out.
pub mod Uploads
use across_orchestrator.Base.{
  ℕ, zero, suc, ◌+◌, ◌-◌, ◌*◌, ◌/◌, ◌≤◌, ◌<◌, max, min, String, ◌≡◌, refl, sym, ap, ◌∙◌, subst, ◌≢◌,
  ◌↔◌, ◌⊎◌, inl, inr, Bool, true, false, not, ◌&&◌, ◌||◌, Option, none, some, List, [], ◌∷◌, ◌++◌,
  map, arith, eq_iff, ltb, leb, text_ltb, if◌then◌else◌, Eq, ◌==◌, nat_Eq, string_Eq, holds,
  holds-some, is_some, get_or, Bool-cases, Option-cases, length, any, all, All, contains, subset,
}
use across_orchestrator.Exec.{
  Result, ok, err, Exec, pure, raise, gets, require, lookup, lift, modify, guard, when, branch,
  raise_if, resume, ◌>>=◌, ◌>>◌,
}
use across_orchestrator.Dict
use across_orchestrator.Dict.{
  get, remove, put, values, keys, get_of_absent, get-remove, get-put, put-put, length-put-le,
  length-remove-lt, IsKeyed,
}
use across_orchestrator.Protocol.Status.{
  NodeState, pending_approval, online_idle, online_busy, draining, offline, incompatible, degraded,
  revoked, JobStatus, queued, leased, preparing, running, waiting_model, uploading, verifying,
  waiting_review, completed, failed, cancelled, lost, expired, stale, is_terminal, is_queued,
  is_revoked, is_online,
}
use across_orchestrator.Protocol.Job.{
  RetryPolicy, JobManifest, non_empty, goal_values_present, goal_values_complete,
  goal_binding_valid, JobLease, ArtifactDescriptor, JobEvent,
}
use across_orchestrator.Store.{
  Collection, EnrollmentStatus, issued, expired, rate_limited, pending_approval, Enrollment,
  DirectiveStatus, requested, downloading, completed, failed, UpdateDirective, Node, Job, Artifact,
  Usage, Reservation, Grant, TransactionStatus, prepared, committed, Transaction, Quarantined,
  Audit, Store, empty, read_log, append,
}
use across_orchestrator.Coordinator.Action.{
  CoordinatorError, protocol, unexpected_keyword, inputs_mismatch, pairing_rejected,
  pairing_rate_limited, pairing_identity_mismatch, pairing_identity_invalid, node_not_pending,
  verification_code_mismatch, node_not_found, node_not_approved, unsupported_transport,
  peer_identity_mismatch, no_bound_certificate, peer_certificate_mismatch, node_identity_stale,
  protocol_incompatible, node_is_revoked, fingerprint_invalid, update_requires_approved_node,
  update_directive_stale, update_request_invalid, job_not_found, lease_not_found, grant_not_found,
  idempotency_conflict, goal_revision_older, goal_id_required, goal_revision_not_positive,
  goal_revision_backwards, lease_expired_before_ack, manifest_hash_mismatch, lease_goal_mismatch,
  lease_goal_older, stale_lease_heartbeat, lease_not_acknowledged, lease_expired,
  upload_needs_active_lease, upload_not_owned, artifact_undeclared, artifact_already_bound,
  upload_not_registered, artifact_descriptor_mismatch, upload_stale_attempt, event_goal_mismatch,
  event_foreign_lease, duplicate_event_conflict, event_needs_ack, event_lease_expired,
  event_sequence_not_increasing, job_already_terminal, unverified_artifact, outputs_not_satisfied,
  transaction_other_job, transaction_conflict, transaction_job_missing, different_terminal_event,
  log_has_other_terminal, transaction_event_conflict, grant_not_owner, grant_budget_exceeded,
  grant_concurrency_exceeded, grant_calls_exceeded, grant_tokens_exceeded, reservation_not_found,
  grant_final_usage_exceeded, Action, as_coordinator_error, demand, audited, node_of, job_of,
  lease_of, put_job, put_node, put_lease, actions,
}
use across_orchestrator.Coordinator.Transactions.{
  status_code, same_option, same_descriptor, same_descriptors, same_event, find_event,
  other_terminal, current_sequence, append_event, put_transaction, is_committed, matches_event,
  apply_terminal_transaction, recover_transaction, recover_for_job, recover_all,
  recover_terminal_transactions, new_transaction, reserve_transaction, commit_terminal_event,
}

abbrev pub takes_uploads : JobStatus → Bool
takes_uploads leased = true
takes_uploads running = true
takes_uploads _ = false

unfoldable pub put_artifact : String → Artifact → Action (Unit {0})
put_artifact k a = modify λ s. record s { artifacts = Dict.put k a s.artifacts }

-- The upload that the descriptor registers under the lease of its job.
abbrev pub new_artifact : Job → ArtifactDescriptor → Artifact
new_artifact job d = record {
  descriptor = d;
  lease_id = job.lease_id;
  attempt = job.attempt;
  verified = false;
}

abbrev pub same_binding : Artifact → Artifact → Bool
same_binding a b =
    same_descriptor a.descriptor b.descriptor
    && same_option a.lease_id b.lease_id
    && a.attempt == b.attempt

-- A known artifact id returns its upload, if it is bound in the same way.
unfoldable pub register_artifact : String → Artifact → Option Artifact → Action Artifact
register_artifact k artifact none = do put_artifact k artifact; pure artifact
register_artifact k artifact (some existing) = do
  guard (same_binding existing artifact) artifact_already_bound
  pure existing

unfoldable pub begin_artifact_upload : ArtifactDescriptor → Action Artifact
begin_artifact_upload d = do
  job ← job_of d.job_id
  guard (not (is_some job.terminal_event_id) && takes_uploads job.status) upload_needs_active_lease
  guard (job.run_id == d.run_id && holds job.node_id d.node_id) upload_not_owned
  guard
      (not (non_empty job.manifest.expected_outputs)
        || contains job.manifest.expected_outputs d.logical_name)
      artifact_undeclared
  existing ← gets (λ s. Dict.get d.artifact_id s.artifacts)
  register_artifact d.artifact_id (new_artifact job d) existing

unfoldable pub finalize_artifact_upload : (artifact_id sha256 : String) (size : ℕ) → Action Artifact
finalize_artifact_upload artifact_id sha256 size = do
  upload ← lookup upload_not_registered (λ s. Dict.get artifact_id s.artifacts)
  guard (upload.descriptor.sha256 == sha256 && upload.descriptor.size == size)
      artifact_descriptor_mismatch
  job ← job_of upload.descriptor.job_id
  guard (same_option job.lease_id upload.lease_id && job.attempt == upload.attempt)
      upload_stale_attempt
  let verified_upload : Artifact = record upload { verified = true }
  put_artifact artifact_id verified_upload
  pure verified_upload
