-- ===== src/Coordinator/Transactions.antt =====
-- coordinator.py: the terminal transactions, `recover_terminal_transactions`,
-- `_recover_terminal_transactions_for_job`, `_recover_terminal_transaction`,
-- `_commit_terminal_event` and `_apply_terminal_transaction`. The locks are not modelled: every
-- operation is one step, so the branches for a lock that is not held cannot arise.
-- `_update_revalidation_attempt_for_job` is left out.
pub mod Recovery
use across_orchestrator.Base.{
  ℕ, zero, suc, ◌+◌, ◌-◌, ◌*◌, ◌/◌, ◌≤◌, ◌<◌, max, min, String, ◌≡◌, refl, sym, ap, ◌∙◌, subst, ◌≢◌,
  ◌↔◌, ◌⊎◌, inl, inr, Bool, true, false, not, ◌&&◌, ◌||◌, Option, none, some, List, [], ◌∷◌, ◌++◌,
  map, arith, eq_iff, ltb, leb, text_ltb, if◌then◌else◌, Eq, ◌==◌, nat_Eq, string_Eq, holds,
  holds-some, is_some, get_or, Bool-cases, Option-cases, length, any, all, All, contains, subset,
}
use across_orchestrator.Exec.{
  Result, ok, err, Exec, pure, raise, gets, require, lookup, lift, modify, guard, when, branch,
  raise_if, resume, ◌>>=◌, ◌>>◌,
}
use across_orchestrator.Dict
use across_orchestrator.Protocol.Status.{
  NodeState, pending_approval, online_idle, online_busy, draining, offline, incompatible, degraded,
  revoked, JobStatus, queued, leased, preparing, running, waiting_model, uploading, verifying,
  waiting_review, completed, failed, cancelled, lost, expired, stale, is_terminal, is_queued,
  is_revoked, is_online,
}
use across_orchestrator.Protocol.Job.{
  RetryPolicy, JobManifest, non_empty, goal_values_present, goal_values_complete,
  goal_binding_valid, JobLease, ArtifactDescriptor, JobEvent,
}
use across_orchestrator.Store.{
  Collection, EnrollmentStatus, issued, expired, rate_limited, pending_approval, Enrollment,
  DirectiveStatus, requested, downloading, completed, failed, UpdateDirective, Node, Job, Artifact,
  Usage, Reservation, Grant, TransactionStatus, prepared, committed, Transaction, Quarantined,
  Audit, Store, empty, read_log, append,
}
use across_orchestrator.Coordinator.Action.{
  CoordinatorError, protocol, unexpected_keyword, inputs_mismatch, pairing_rejected,
  pairing_rate_limited, pairing_identity_mismatch, pairing_identity_invalid, node_not_pending,
  verification_code_mismatch, node_not_found, node_not_approved, unsupported_transport,
  peer_identity_mismatch, no_bound_certificate, peer_certificate_mismatch, node_identity_stale,
  protocol_incompatible, node_is_revoked, fingerprint_invalid, update_requires_approved_node,
  update_directive_stale, update_request_invalid, job_not_found, lease_not_found, grant_not_found,
  idempotency_conflict, goal_revision_older, goal_id_required, goal_revision_not_positive,
  goal_revision_backwards, lease_expired_before_ack, manifest_hash_mismatch, lease_goal_mismatch,
  lease_goal_older, stale_lease_heartbeat, lease_not_acknowledged, lease_expired,
  upload_needs_active_lease, upload_not_owned, artifact_undeclared, artifact_already_bound,
  upload_not_registered, artifact_descriptor_mismatch, upload_stale_attempt, event_goal_mismatch,
  event_foreign_lease, duplicate_event_conflict, event_needs_ack, event_lease_expired,
  event_sequence_not_increasing, job_already_terminal, unverified_artifact, outputs_not_satisfied,
  job_lock_required, transaction_other_job, transaction_conflict, transaction_job_missing,
  different_terminal_event, log_has_other_terminal, transaction_event_conflict, grant_not_owner,
  grant_budget_exceeded, grant_concurrency_exceeded, grant_calls_exceeded, grant_tokens_exceeded,
  reservation_not_found, grant_final_usage_exceeded, Action, as_coordinator_error, demand, audited,
  node_of, job_of, lease_of, put_job, put_node, put_lease, actions,
}

-- `duplicate != event.to_dict()` and the like compare whole records. They are compared field by
-- field here, through a code of each status.
abbrev pub status_code : JobStatus → ℕ
status_code queued = 0
status_code leased = 1
status_code preparing = 2
status_code running = 3
status_code waiting_model = 4
status_code uploading = 5
status_code verifying = 6
status_code waiting_review = 7
status_code completed = 8
status_code failed = 9
status_code cancelled = 10
status_code lost = 11
status_code expired = 12
status_code stale = 13

abbrev pub same_option : Option String → Option String → Bool
same_option none none = true
same_option (some a) (some b) = a == b
same_option _ _ = false

pub same_descriptor : ArtifactDescriptor → ArtifactDescriptor → Bool
same_descriptor a b =
    a.artifact_id == b.artifact_id
    && a.run_id == b.run_id
    && a.job_id == b.job_id
    && a.node_id == b.node_id
    && a.logical_name == b.logical_name
    && a.size == b.size
    && a.sha256 == b.sha256

pub same_descriptors : List ArtifactDescriptor → List ArtifactDescriptor → Bool
same_descriptors [] [] = true
same_descriptors (a ∷ as') (b ∷ bs) = same_descriptor a b && same_descriptors as' bs
same_descriptors _ _ = false

pub same_event : JobEvent → JobEvent → Bool
same_event a b =
    a.event_id == b.event_id
    && a.job_id == b.job_id
    && a.run_id == b.run_id
    && a.node_id == b.node_id
    && a.lease_id == b.lease_id
    && a.attempt == b.attempt
    && a.sequence == b.sequence
    && status_code a.state == status_code b.state
    && same_option a.goal_id b.goal_id
    && a.goal_revision == b.goal_revision
    && same_option a.reason_category b.reason_category
    && same_descriptors a.artifacts b.artifacts
    && same_option a.cleanup_status b.cleanup_status
    && a.created_at == b.created_at

-- `next((item for item in events if item.event_id == event_id), None)`
unfoldable pub find_event : String → List JobEvent → Option JobEvent
find_event event_id [] = none
find_event event_id (e ∷ events) =
    let later = find_event event_id events in if e.event_id == event_id then some e else later

-- A terminal event other than `event_id`.
unfoldable pub other_terminal : String → List JobEvent → Bool
other_terminal event_id = any (λ e. is_terminal e.state && not (e.event_id == event_id))

-- The greatest sequence of the events of one attempt, 0 if there is none.
unfoldable pub current_sequence : ℕ → List JobEvent → ℕ
current_sequence attempt [] = 0
current_sequence attempt (e ∷ events) =
    let rest = current_sequence attempt events in
    if e.attempt == attempt then max e.sequence rest else rest

unfoldable pub append_event : String → JobEvent → Action (Unit {0})
append_event job_id event = modify λ s. record s { events = append job_id event s.events }

unfoldable pub put_transaction : String → Transaction → Action (Unit {0})
put_transaction k t =
    modify λ s. record s { terminal_transactions = Dict.put k t s.terminal_transactions }

abbrev pub is_committed : TransactionStatus → Bool
is_committed prepared = false
is_committed committed = true

abbrev pub matches_event : Option JobEvent → JobEvent → Bool
matches_event none event = true
matches_event (some e) event = same_event e event

-- Writes to the store, one after the other.
abbrev pub perform : List (Action (Unit {0})) → Action (Unit {0})
perform [] = pure tt
perform (write ∷ writes) = write >> perform writes

-- What `_apply_terminal_transaction` writes, in its order, where `matching` is the event of the
-- log that has the id of the transaction's event.
unfoldable pub terminal_writes : ℕ → Transaction → Option JobEvent → List (Action (Unit {0}))
terminal_writes now t matching =
    put_job t.job_id t.job
    ∷ when (not (is_some matching)) (append_event t.job_id t.event)
    ∷ put_transaction t.event_id (record t { status = committed; updated_at = now })
    ∷ []

-- `_apply_terminal_transaction`
unfoldable pub apply_terminal_transaction : ℕ → Transaction → Action (Unit {0})
unfolding terminal_writes
apply_terminal_transaction now t = do
  persisted ← lookup transaction_job_missing (λ s. Dict.get t.job_id s.jobs)
  guard (not (is_some persisted.terminal_event_id) || holds persisted.terminal_event_id t.event_id)
      different_terminal_event
  events ← gets (λ s. read_log t.job_id s.events)
  guard (not (other_terminal t.event_id events)) log_has_other_terminal
  let matching = find_event t.event_id events
  guard (matches_event matching t.event) transaction_event_conflict
  perform (terminal_writes now t matching)

-- `_recover_terminal_transaction`
unfoldable pub recover_transaction :
    ℕ → (job_locked : Bool) (job_id : String) → Option Transaction → Action (Unit {0})
recover_transaction now job_locked job_id none = pure tt
recover_transaction now job_locked job_id (some t) = when (not (is_committed t.status)) (do
  guard (t.job_id == job_id) transaction_other_job
  guard job_locked job_lock_required
  apply_terminal_transaction now t)

-- `_recover_terminal_transactions_for_job`
unfoldable pub recover_for_job : ℕ → String → List Transaction → Action (Unit {0})
recover_for_job now job_id [] = pure tt
recover_for_job now job_id (t ∷ ts) = do
  when (t.job_id == job_id && not (is_committed t.status)) (apply_terminal_transaction now t)
  recover_for_job now job_id ts

-- `recover_terminal_transactions`, which the constructor of WorkerCoordinator calls.
unfoldable pub recover_all : ℕ → List Transaction → Action (List String)
recover_all now [] = pure []
recover_all now (t ∷ ts) = do
  when (not (is_committed t.status)) (apply_terminal_transaction now t)
  rest ← recover_all now ts
  pure (if is_committed t.status then rest else t.event_id ∷ rest)

unfoldable pub recover_terminal_transactions : ℕ → Action (List String)
recover_terminal_transactions now = do
  transactions ← gets (λ s. Dict.values s.terminal_transactions)
  recover_all now transactions

abbrev pub new_transaction : ℕ → Job → JobEvent → Transaction
new_transaction now job event = record {
  event_id = event.event_id;
  job_id = job.job_id;
  job = job;
  event = event;
  status = prepared;
  updated_at = now;
}

-- The transaction that is applied: the one that the event id has reserved, or the new one.
unfoldable pub reserve_transaction : Transaction → Option Transaction → Action Transaction
reserve_transaction t none = do put_transaction t.event_id t; pure t
reserve_transaction t (some existing) = do
  guard (existing.job_id == t.job_id && same_event existing.event t.event) transaction_conflict
  pure existing

-- `_commit_terminal_event`
unfoldable pub commit_terminal_event : ℕ → Job → JobEvent → Action (Unit {0})
commit_terminal_event now job event = do
  existing ← gets (λ s. Dict.get event.event_id s.terminal_transactions)
  t ← reserve_transaction (new_transaction now job event) existing
  apply_terminal_transaction now t
