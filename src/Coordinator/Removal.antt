-- ===== src/Coordinator/Removal.antt =====
-- coordinator.py: `revoke_node` and `delete_node` of WorkerCoordinator.
pub mod Cutoff
use across_orchestrator.Base.{
  ℕ, zero, suc, ◌+◌, ◌-◌, ◌*◌, ◌/◌, ◌≤◌, ◌<◌, max, min, String, ◌≡◌, refl, sym, ap, ◌∙◌, subst, ◌≢◌,
  ◌↔◌, ◌⊎◌, inl, inr, Bool, true, false, not, ◌&&◌, ◌||◌, Option, none, some, List, [], ◌∷◌, ◌++◌,
  map, arith, eq_iff, ltb, leb, text_ltb, if◌then◌else◌, Eq, ◌==◌, nat_Eq, string_Eq, holds,
  holds-some, is_some, get_or, Bool-cases, Option-cases, length, any, all, All, contains, subset,
}
use across_orchestrator.Exec.{
  Result, ok, err, Exec, pure, raise, gets, require, lookup, lift, modify, guard, when, branch,
  raise_if, resume, ◌>>=◌, ◌>>◌,
}
use across_orchestrator.Dict
use across_orchestrator.Dict.{
  get, remove, put, values, keys, get_of_absent, get-remove, get-put, put-put, length-put-le,
  length-remove-lt, IsKeyed,
}
use across_orchestrator.Protocol.Status.{
  NodeState, pending_approval, online_idle, online_busy, draining, offline, incompatible, degraded,
  revoked, JobStatus, queued, leased, preparing, running, waiting_model, uploading, verifying,
  waiting_review, completed, failed, cancelled, lost, expired, stale, is_terminal, is_queued,
  is_revoked, is_online,
}
use across_orchestrator.Store.{
  Collection, EnrollmentStatus, issued, expired, rate_limited, pending_approval, Enrollment,
  DirectiveStatus, requested, downloading, completed, failed, UpdateDirective, Node, Job, Artifact,
  Usage, Reservation, Grant, TransactionStatus, prepared, committed, Transaction, Quarantined,
  Audit, Store, empty, read_log, append,
}
use across_orchestrator.Coordinator.Action.{
  CoordinatorError, protocol, unexpected_keyword, inputs_mismatch, pairing_rejected,
  pairing_rate_limited, pairing_identity_mismatch, pairing_identity_invalid, node_not_pending,
  verification_code_mismatch, node_not_found, node_not_approved, unsupported_transport,
  peer_identity_mismatch, no_bound_certificate, peer_certificate_mismatch, node_identity_stale,
  protocol_incompatible, node_is_revoked, fingerprint_invalid, update_requires_approved_node,
  update_directive_stale, update_request_invalid, job_not_found, lease_not_found, grant_not_found,
  idempotency_conflict, goal_revision_older, goal_id_required, goal_revision_not_positive,
  goal_revision_backwards, lease_expired_before_ack, manifest_hash_mismatch, lease_goal_mismatch,
  lease_goal_older, stale_lease_heartbeat, lease_not_acknowledged, lease_expired,
  upload_needs_active_lease, upload_not_owned, artifact_undeclared, artifact_already_bound,
  upload_not_registered, artifact_descriptor_mismatch, upload_stale_attempt, event_goal_mismatch,
  event_foreign_lease, duplicate_event_conflict, event_needs_ack, event_lease_expired,
  event_sequence_not_increasing, job_already_terminal, unverified_artifact, outputs_not_satisfied,
  transaction_other_job, transaction_conflict, transaction_job_missing, different_terminal_event,
  log_has_other_terminal, transaction_event_conflict, grant_not_owner, grant_budget_exceeded,
  grant_concurrency_exceeded, grant_calls_exceeded, grant_tokens_exceeded, reservation_not_found,
  grant_final_usage_exceeded, Action, as_coordinator_error, demand, audited, node_of, job_of,
  lease_of, put_job, put_node, put_lease, actions,
}
use across_orchestrator.Coordinator.Grants.{
  ℤ, pos, negsuc, clamp_zero, clamp_one, put_grant, grant_of, GrantTerms, issue_model_grant,
  next_usage, over_budget, open_calls, consume_model_grant, reserved_tokens, begin_model_grant_call,
  finish_model_grant_call, revoke_model_grant,
}

abbrev pub revoked_record : ℕ → String → Node → Node
revoked_record now reason node = record node {
  state = revoked;
  draining = true;
  revoked_at = some now;
  revocation_reason = some reason;
  session_generation = node.session_generation + 1;
}

-- An unfinished job of the node.
abbrev pub is_affected : String → Job → Bool
is_affected node_id job = holds job.node_id node_id && not (is_some job.terminal_event_id)

abbrev pub orphaned : ℕ → Job → Job
orphaned now job = record job {
  status = waiting_review;
  recovery_reason = some "node_revoked";
  node_id = none;
  lease_id = none;
  updated_at = now;
}

-- The loop over `self.store.list("jobs")`; returns the affected job ids.
unfoldable pub orphan_jobs : ℕ → String → List Job → Action (List String)
orphan_jobs now node_id [] = pure []
orphan_jobs now node_id (job ∷ jobs) =
    let rest = orphan_jobs now node_id jobs in
    branch (is_affected node_id job)
      (do put_job job.job_id (orphaned now job); affected ← rest; pure (job.job_id ∷ affected)) rest

-- An unrevoked grant of the node.
abbrev pub is_open_grant : String → Grant → Bool
is_open_grant node_id g = g.node_id == node_id && not (is_some g.revoked_at)

abbrev pub cut_off : ℕ → Grant → Grant
cut_off now g = record g { grant = record g.grant { revoked_at = some now }; active_calls = true }

-- The loop over `self.store.list("grants")`.
unfoldable pub cut_off_grants : ℕ → String → List Grant → Action (Unit {0})
cut_off_grants now node_id [] = pure tt
cut_off_grants now node_id (g ∷ gs) = do
  when (is_open_grant node_id g) (put_grant g.grant_id (cut_off now g))
  cut_off_grants now node_id gs

unfoldable pub revoke_node : ℕ → (node_id reason : String) → Action (List String)
revoke_node now node_id reason = do
  node ← node_of node_id
  put_node node_id (revoked_record now reason node)
  jobs ← gets (λ s. Dict.values s.jobs)
  affected ← orphan_jobs now node_id jobs
  grants ← gets (λ s. Dict.values s.grants)
  cut_off_grants now node_id grants
  audited now "node.revoked" node_id
  pure affected

-- Returns whether there was a record to delete.
unfoldable pub delete_node : ℕ → String → Action Bool
delete_node now node_id = do
  node ← node_of node_id
  when (not (is_revoked node.state)) (do _ ← revoke_node now node_id "deleted"; pure tt)
  deleted ← gets (λ s. is_some (Dict.get node_id s.nodes))
  modify (λ s. record s { nodes = Dict.remove node_id s.nodes })
  audited now "node.deleted" node_id
  pure deleted
