-- ===== src/Coordinator/Events.antt =====
-- coordinator.py: `record_event`, `_record_event` and `_authoritative_terminal_artifacts`. Of what
-- a terminal event writes into its job, the usage, the evidence receipt and the goal evidence are
-- left out.
pub mod Acceptance
use across_orchestrator.Base.{
  ℕ, String, Bool, false, not, ◌&&◌, ◌||◌, Option, none, some, List, [], ◌∷◌, map, ltb, leb,
  if◌then◌else◌, ◌==◌, nat_Eq, string_Eq, holds, is_some, get_or, subset,
}
use across_orchestrator.Exec.{pure, raise, gets, guard, when, branch, ◌>>=◌, ◌>>◌}
use across_orchestrator.Dict
use across_orchestrator.Protocol.Status.{is_terminal}
use across_orchestrator.Protocol.Job.{JobManifest, non_empty, ArtifactDescriptor, JobEvent}
use across_orchestrator.Store.{Job, Artifact, Grant, Store, read_log}
use across_orchestrator.Coordinator.Action.{
  event_goal_mismatch, event_foreign_lease, duplicate_event_conflict, event_needs_ack,
  event_lease_expired, event_sequence_not_increasing, job_already_terminal, unverified_artifact,
  outputs_not_satisfied, Action, audited, node_of, job_of, lease_of, put_job,
}
use across_orchestrator.Coordinator.Jobs.{authorized_goal_revision}
use across_orchestrator.Coordinator.Leases.{quarantine, quarantine_lease, requeue_expired}
use across_orchestrator.Coordinator.Transactions.{
  same_descriptor, same_event, find_event, current_sequence, append_event, recover_transaction,
  recover_for_job, commit_terminal_event,
}
use across_orchestrator.Coordinator.Grants.{revoke_model_grant}

-- One artifact of a terminal event against its verified upload.
abbrev pub artifact_ok : JobEvent → ArtifactDescriptor → Option Artifact → Bool
artifact_ok event descriptor none = false
artifact_ok event descriptor (some stored) =
    stored.verified
    && same_descriptor stored.descriptor descriptor
    && holds stored.lease_id event.lease_id
    && stored.attempt == event.attempt

unfoldable pub check_artifacts : ℕ → JobEvent → List ArtifactDescriptor → Action (Unit {0})
check_artifacts now event [] = pure tt
check_artifacts now event (d ∷ ds) = do
  stored ← gets (λ s. Dict.get d.artifact_id s.artifacts)
  when (not (artifact_ok event d stored)) (do
    quarantine now event.job_id "unverified_artifact" d.artifact_id
    raise unverified_artifact)
  check_artifacts now event ds

abbrev pub outputs_met : JobManifest → List ArtifactDescriptor → Bool
outputs_met m artifacts =
    let produced = map (λ (d : ArtifactDescriptor). d.logical_name) artifacts in
    not (non_empty m.expected_outputs)
    || subset produced m.expected_outputs && subset m.expected_outputs produced

-- `_authoritative_terminal_artifacts`
unfoldable pub check_terminal_artifacts : ℕ → Job → JobEvent → Action (Unit {0})
check_terminal_artifacts now job event = do
  check_artifacts now event event.artifacts
  guard (outputs_met job.manifest event.artifacts) outputs_not_satisfied

-- The job after an accepted event.
abbrev pub advanced_job : ℕ → Job → JobEvent → Job
advanced_job now job event =
    let reason =
      if is_some event.reason_category then event.reason_category else job.reason_category in
    let next : Job = record job {
      status = event.state;
      updated_at = now;
      reason_category = reason;
    } in
    if is_terminal event.state
    then record next {
      terminal_event_id = some event.event_id;
      cleanup_status = some (get_or event.cleanup_status "unknown");
    }
    else next

-- The ids of the grants of a job.
abbrev pub grants_of : String → List Grant → List String
grants_of job_id [] = []
grants_of job_id (g ∷ gs) =
    let rest = grants_of job_id gs in if g.job_id == job_id then g.grant_id ∷ rest else rest

unfoldable pub revoke_grants : ℕ → List String → Action (Unit {0})
revoke_grants now [] = pure tt
revoke_grants now (grant_id ∷ ids) = do _ ← revoke_model_grant now grant_id; revoke_grants now ids

-- The job has a goal, and the event does not name it at the host's revision.
abbrev pub event_goal_mismatched : Job → JobEvent → Store → Bool
event_goal_mismatched job event s = elim job.manifest.goal_id [
  | none ↦ false
  | some goal ↦ not (
      holds event.goal_id goal
      && event.goal_revision == authorized_goal_revision (some goal) job.manifest.goal_revision s)
]

abbrev pub owns_job : Job → JobEvent → Bool
owns_job job event =
    holds job.lease_id event.lease_id
    && holds job.node_id event.node_id
    && job.attempt == event.attempt

-- The end of `_record_event`, for an event that passed every check.
unfoldable pub accept_event : ℕ → Job → JobEvent → Action (Unit {0})
accept_event now job event = do
  let next = advanced_job now job event
  grants ← gets (λ s. grants_of event.job_id (Dict.values s.grants))
  branch (is_terminal event.state)
      (do _ ← node_of event.node_id; commit_terminal_event now next event; revoke_grants now grants)
      (do append_event event.job_id event; put_job event.job_id next)
  audited now "job.event" event.job_id

-- From the lookup of the lease on: the checks of an event that was not seen before.
unfoldable pub check_new_event : ℕ → Job → JobEvent → List JobEvent → Action JobEvent
check_new_event now job event events = do
  lease ← lease_of event.lease_id
  when (not (is_some lease.acknowledged_at))
      (do quarantine_lease now lease "unacknowledged_lease"; raise event_needs_ack)
  when (leb lease.expires_at now) (do
    quarantine_lease now lease "expired_lease"
    requeue_expired now lease "expired_lease"
    raise event_lease_expired)
  guard (ltb (current_sequence event.attempt events) event.sequence) event_sequence_not_increasing
  guard (not (is_some job.terminal_event_id)) job_already_terminal
  when (is_terminal event.state) (check_terminal_artifacts now job event)
  accept_event now job event
  pure event

-- A repeated event is answered from the log, if it is the committed terminal event itself.
unfoldable pub answer_event : ℕ → Job → JobEvent → List JobEvent → Option JobEvent → Action JobEvent
answer_event now job event events none = check_new_event now job event events
answer_event now job event events (some duplicate) = do
  guard (holds job.terminal_event_id event.event_id && same_event duplicate event)
      duplicate_event_conflict
  pure duplicate

-- `_record_event`
unfoldable pub record_event_locked : ℕ → (job_locked : Bool) → JobEvent → Action JobEvent
record_event_locked now job_locked event = do
  reserved ← gets (λ s. Dict.get event.event_id s.terminal_transactions)
  recover_transaction now job_locked event.job_id reserved
  job ← job_of event.job_id
  mismatched ← gets (event_goal_mismatched job event)
  when mismatched (do
    quarantine now event.job_id "stale_goal_revision" event.event_id
    audited now "job.event_quarantined" event.job_id
    raise event_goal_mismatch)
  when (not (owns_job job event)) (do
    quarantine now event.job_id "stale_or_foreign_lease" event.event_id
    raise event_foreign_lease)
  events ← gets (λ s. read_log event.job_id s.events)
  answer_event now job event events (find_event event.event_id events)

unfoldable pub record_event : ℕ → JobEvent → Action JobEvent
record_event now event = do
  transactions ← gets (λ s. Dict.values s.terminal_transactions)
  when (is_terminal event.state) (recover_for_job now event.job_id transactions)
  record_event_locked now (is_terminal event.state) event
