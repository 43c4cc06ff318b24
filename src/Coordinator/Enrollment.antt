-- ===== src/Coordinator/Enrollment.antt =====
-- coordinator.py: EnrollmentAuthority. The pairing code, the ids and the HMAC digests come from the
-- libraries: `code_hash` is `_hash_code` and `verification_code` is `_verification_code`, both
-- under the authority's secret. The capability summary is one that `CapabilityManifest.from_dict`
-- accepts.
pub mod Pairing
use Prim.Native.String
use across_orchestrator.Base.{
  ℕ, zero, suc, ◌+◌, ◌-◌, ◌*◌, ◌/◌, ◌≤◌, ◌<◌, max, min, String, ◌≡◌, refl, sym, ap, ◌∙◌, subst, ◌≢◌,
  ◌↔◌, ◌⊎◌, inl, inr, Bool, true, false, not, ◌&&◌, ◌||◌, Option, none, some, List, [], ◌∷◌, ◌++◌,
  map, arith, eq_iff, ltb, leb, text_ltb, if◌then◌else◌, Eq, ◌==◌, nat_Eq, string_Eq, holds,
  holds-some, is_some, get_or, Bool-cases, Option-cases, length, any, all, All, contains, subset,
}
use across_orchestrator.Exec.{
  Result, ok, err, Exec, pure, raise, gets, require, lookup, lift, modify, guard, when, branch,
  raise_if, resume, ◌>>=◌, ◌>>◌,
}
use across_orchestrator.Dict
use across_orchestrator.Protocol.Status.{
  NodeState, pending_approval, online_idle, online_busy, draining, offline, incompatible, degraded,
  revoked, JobStatus, queued, leased, preparing, running, waiting_model, uploading, verifying,
  waiting_review, completed, failed, cancelled, lost, expired, stale, is_terminal, is_queued,
  is_revoked, is_online,
}
use across_orchestrator.Protocol.Capability.{
  protocol_version, full_load, CapabilityManifest, Requirements, agrees, within, isolation_met,
  supports,
}
use across_orchestrator.Store.{
  Collection, EnrollmentStatus, issued, expired, rate_limited, pending_approval, Enrollment,
  DirectiveStatus, requested, downloading, applying, completed, failed, UpdateDirective,
  RelayMaterial, TransportDirective, Node, Job, Artifact, Usage, Reservation, Grant,
  TransactionStatus, prepared, committed, Transaction, Quarantined, Audit, Store, empty, read_log,
  append,
}
use across_orchestrator.Coordinator.Action.{
  CoordinatorError, protocol, unexpected_keyword, inputs_mismatch, pairing_rejected,
  pairing_rate_limited, pairing_identity_mismatch, pairing_identity_invalid, node_not_pending,
  verification_code_mismatch, node_not_found, node_not_approved, unsupported_transport,
  peer_identity_mismatch, no_bound_certificate, peer_certificate_mismatch, node_identity_stale,
  protocol_incompatible, node_is_revoked, fingerprint_invalid, update_requires_approved_node,
  update_directive_stale, update_request_invalid, transport_invalid, transport_endpoint_invalid,
  transport_requires_approved_node, relay_key_invalid, relay_material_invalid,
  transport_directive_stale, approved_fingerprint_invalid, job_not_found, lease_not_found,
  grant_not_found, idempotency_conflict, goal_revision_older, goal_id_required,
  goal_revision_not_positive, goal_revision_backwards, lease_expired_before_ack,
  manifest_hash_mismatch, lease_goal_mismatch, lease_goal_older, stale_lease_heartbeat,
  lease_not_acknowledged, lease_expired, upload_needs_active_lease, upload_not_owned,
  artifact_undeclared, artifact_already_bound, upload_not_registered, artifact_descriptor_mismatch,
  upload_stale_attempt, event_goal_mismatch, event_foreign_lease, duplicate_event_conflict,
  event_needs_ack, event_lease_expired, event_sequence_not_increasing, job_already_terminal,
  unverified_artifact, outputs_not_satisfied, job_lock_required, transaction_other_job,
  transaction_conflict, transaction_job_missing, different_terminal_event, log_has_other_terminal,
  transaction_event_conflict, grant_not_owner, grant_budget_exceeded, grant_concurrency_exceeded,
  grant_calls_exceeded, grant_tokens_exceeded, reservation_not_found, grant_final_usage_exceeded,
  Action, as_coordinator_error, demand, audited, node_of, job_of, lease_of, put_job, put_node,
  put_lease, actions,
}

unfoldable pub put_enrollment : String → Enrollment → Action (Unit {0})
put_enrollment k e = modify λ s. record s { enrollments = Dict.put k e s.enrollments }

abbrev pub is_issued : EnrollmentStatus → Bool
is_issued EnrollmentStatus.issued = true
is_issued _ = false

abbrev pub is_pending : NodeState → Bool
is_pending NodeState.pending_approval = true
is_pending _ = false

-- The public identity and the capability summary of a pairing request.
pub record PairingRequest : Type 0 where
  pub node_id : String
  pub fingerprint : String
  pub display_name : String
  pub capability_summary : CapabilityManifest

module _ (code_hash : String → String → String)
    (verification_code : String → String → String → String) where
  -- Returns the time at which the code expires.
  unfoldable pub create_pairing_code :
      (now : ℕ) (enrollment_id code : String) (ttl_seconds max_failures : ℕ) → Action ℕ
  create_pairing_code now enrollment_id code ttl_seconds max_failures = do
    let expires_at = now + max 60 (min ttl_seconds 600)
    put_enrollment enrollment_id (record {
      enrollment_id = enrollment_id;
      code_hash = code_hash enrollment_id code;
      created_at = now;
      expires_at = expires_at;
      used_at = none;
      failed_attempts = 0;
      max_failures = max 1 (min max_failures 20);
      status = EnrollmentStatus.issued;
      node_id = none;
    })
    audited now "pairing.created" enrollment_id
    pure expires_at

  abbrev pub pending_node : String → PairingRequest → Node
  pending_node enrollment_id r = record {
    node_id = r.node_id;
    state = NodeState.pending_approval;
    display_name = r.display_name;
    fingerprint = r.fingerprint;
    certificate_fingerprint = none;
    capability_manifest = r.capability_summary;
    verification_code = verification_code enrollment_id r.node_id r.fingerprint;
    approved_at = none;
    identity_expires_at = none;
    revoked_at = none;
    revocation_reason = none;
    last_seen_at = none;
    last_disconnected_at = none;
    disconnect_reason = none;
    transport = "pending";
    session_generation = 0;
    draining = false;
    update_directive = none;
    transport_directive = none;
  }

  -- `submit_pairing` once the code has matched.
  unfoldable pub pair : ℕ → String → Enrollment → PairingRequest → Action String
  pair now enrollment_id e r = do
    guard (r.node_id == r.capability_summary.node_id) pairing_identity_mismatch
    guard (leb 16 (String.count r.fingerprint)) pairing_identity_invalid
    put_enrollment enrollment_id (record e {
      used_at = some now;
      status = EnrollmentStatus.pending_approval;
      node_id = some r.node_id;
    })
    put_node r.node_id (pending_node enrollment_id r)
    audited now "pairing.submitted" enrollment_id
    pure (verification_code enrollment_id r.node_id r.fingerprint)

  -- Returns the verification code that the two sides compare.
  unfoldable pub submit_pairing :
      ℕ → (enrollment_id pairing_code : String) → PairingRequest → Action String
  submit_pairing now enrollment_id pairing_code r = do
    e ← lookup pairing_rejected (λ s. Dict.get enrollment_id s.enrollments)
    raise_if (not (is_issued e.status) || is_some e.used_at)
        (audited now "pairing.replay_rejected" enrollment_id) pairing_rejected
    raise_if (leb e.expires_at now)
        (do
          put_enrollment enrollment_id (record e { status = EnrollmentStatus.expired })
          audited now "pairing.expired_rejected" enrollment_id)
        pairing_rejected
    raise_if (leb e.max_failures e.failed_attempts)
        (do
          put_enrollment enrollment_id (record e { status = EnrollmentStatus.rate_limited })
          audited now "pairing.rate_limited" enrollment_id)
        pairing_rate_limited
    raise_if (not (e.code_hash == code_hash enrollment_id pairing_code))
        (do
          put_enrollment enrollment_id (record e { failed_attempts = e.failed_attempts + 1 })
          audited now "pairing.invalid_rejected" enrollment_id)
        pairing_rejected
    pair now enrollment_id e r

unfoldable pub approve : ℕ → (node_id verification_code : String) → Action Node
approve now node_id verification_code = do
  node ← node_of node_id
  guard (is_pending node.state) node_not_pending
  when (not (node.verification_code == verification_code))
      (do audited now "node.approval_rejected" node_id; raise verification_code_mismatch)
  let approved : Node = record node {
    state = NodeState.offline;
    approved_at = some now;
    identity_expires_at = some (now + 24 * 60 * 60);
    session_generation = 1;
  }
  put_node node_id approved
  audited now "node.approved" node_id
  pure approved

unfoldable pub reject : ℕ → (node_id : String) → Action Node
reject now node_id = do
  node ← node_of node_id
  guard (is_pending node.state) node_not_pending
  let rejected : Node = record node { state = NodeState.revoked; revoked_at = some now }
  put_node node_id rejected
  audited now "node.rejected" node_id
  pure rejected

unfoldable pub revoke : ℕ → (node_id reason : String) → Action Node
revoke now node_id reason = do
  node ← node_of node_id
  let revoked_node : Node = record node {
    state = NodeState.revoked;
    revoked_at = some now;
    revocation_reason = some reason;
    session_generation = node.session_generation + 1;
  }
  put_node node_id revoked_node
  audited now "node.revoked" node_id
  pure revoked_node

-- Returns whether there was a record to delete.
unfoldable pub delete : ℕ → String → Action Bool
delete now node_id = do
  node ← node_of node_id
  when (not (is_revoked node.state)) (do _ ← revoke now node_id "deleted"; pure tt)
  deleted ← gets (λ s. is_some (Dict.get node_id s.nodes))
  modify (λ s. record s { nodes = Dict.remove node_id s.nodes })
  audited now "node.deleted" node_id
  pure deleted
